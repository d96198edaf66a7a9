-- ===== src/Log/Ring.antt =====
-- src/log.cpp: a log, a ring of the last events. The semaphore keeps its operations apart.
pub mod Places
pub mod Keeps
pub mod Tail
use cspot.Base.{
  ℕ, zero, suc, ◌+◌, ◌-◌, ◌%◌, Option, none, some, Bool, true, false, if◌then◌else◌, ◌==◌, ltb, leb,
  add64, sub64, update,
}
use cspot.Log.Event.{Event, no_event}

-- LOG; the semaphores, the file and the fields that other programs use are left out
pub record Log : Type 0 where
  pub host_id : ℕ
  pub seq_no : ℕ
  pub size : ℕ
  pub head : ℕ
  pub tail : ℕ
  pub ev_array : ℕ → Event

-- LogCreate where the memory is there
abbrev pub log_create : ℕ → ℕ → Log
log_create host_id size = record {
  host_id = host_id;
  seq_no = 1;
  size = size;
  head = 0;
  tail = 0;
  ev_array = λ _. no_event;
}

-- LogFull of a log that is not NULL
abbrev pub log_full : Log → Bool
log_full log = (log.head + 1) % log.size == log.tail

-- LogAdd of a log that is not NULL
unfoldable pub log_add : Log → Event → Log
log_add log event =
    let next = (log.head + 1) % log.size in
    record log {
      tail = if next == log.tail then (log.tail + 1) % log.size else log.tail;
      ev_array = update log.ev_array next event;
      head = next;
    }

-- LogEvent and LogEventNoLock of a log that is not NULL: the log and the sequence number that is returned
unfoldable pub log_event : Log → Event → Log × ℕ
log_event log event = (
  log_add (record log { seq_no = add64 log.seq_no 1 }) (record event { seq_no = log.seq_no }),
  log.seq_no,
)

-- the place before, with the wrap of an unsigned long
abbrev pub step_back : Log → ℕ → ℕ
step_back log curr = let c = sub64 curr 1 in if leb log.size c then sub64 log.size 1 else c

-- The loop of LogTail, for at most `fuel` rounds; `none` where these are not enough.
unfoldable pub tail_from : ℕ → Log → ℕ → ℕ → ℕ → ℕ → Log → Option Log
tail_from zero log earliest max_size curr count log_tail = none
tail_from (suc fuel) log earliest max_size curr count log_tail =
    let ev = log.ev_array curr in
    let longer = log_add log_tail ev in
    let back = step_back log curr in
    let rest = tail_from fuel log earliest max_size back (count + 1) longer in
    if ltb ev.seq_no earliest
    then some log_tail
    else if leb max_size (count + 1)
    then some longer
    else if back == log.tail
    then some longer
    else rest

-- LogTail, where there is memory; NULL for a log that is empty, and `none` where the loop does not end in
-- as many rounds as there are places
unfoldable pub log_tail : Log → ℕ → ℕ → Option (Option Log)
unfolding tail_from
log_tail log earliest max_size =
    if log.head == log.tail
    then some none
    else elim (tail_from log.size log earliest max_size log.head 0 (log_create 0 max_size)) [
      | none ↦ none
      | some l ↦ some (some l)
    ]
