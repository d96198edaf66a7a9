-- ===== src/Woof.antt =====
-- The circular log of src/woofc.cpp: `WOOF_SHARED` and the operations on it that append, read and
-- truncate. The children prove what a client may rely on.
pub mod History
pub mod Read
pub mod Truncate
pub mod Tail
mod Tests
use cspot.Base.{
  ℕ, ◌+◌, ◌%◌, List, [], ◌∷◌, Option, none, some, zero, suc, ◌&&◌, ◌||◌, Bool, ltb, ◌==◌,
  if◌then◌else◌, add64, sub64, minus_one, update,
}

-- `struct woof_shared_stc` with the element slots behind it. `tail` is (unsigned long)-1 until the
-- log wraps. The semaphores are not here: each operation runs inside the mutex.
pub record Woof {ℓ} (A : Type ℓ) : Type ℓ where
  pub history_size : ℕ
  pub head : ℕ
  pub tail : ℕ
  pub seq_no : ℕ
  pub buf : ℕ → A

-- the new tail of WooFAppendWithCause, once `head` is `next`
abbrev pub next_tail : ℕ → ℕ → ℕ → ℕ
next_tail history_size next tail =
    if next == 0 && tail == minus_one
    then 1 % history_size
    else if next == tail
    then add64 tail 1 % history_size
    else tail

module _ {ℓ} {A : Type ℓ} where
  -- WooFCreate; `blank` is what the mapped file holds in a slot never written.
  unfoldable pub create : ℕ → A → Woof A
  create history_size blank = record {
    history_size = history_size;
    head = 0;
    tail = minus_one;
    seq_no = 1;
    buf = λ _. blank;
  }

  -- WooFAppendWithCause: the new log. The number returned is the old `seq_no`.
  unfoldable pub append : Woof A → A → Woof A
  append wf element =
      let next = add64 wf.head 1 % wf.history_size in
      record wf {
        buf = update wf.buf next element;
        head = next;
        tail = next_tail wf.history_size next wf.tail;
        seq_no = add64 wf.seq_no 1;
      }

  -- WooFLatestSeqno
  unfoldable pub latest_seqno : Woof A → ℕ
  latest_seqno wf = sub64 wf.seq_no 1

  -- WooFGetEarliest
  unfoldable pub get_earliest : Woof A → ℕ
  get_earliest wf =
      if wf.tail == minus_one
      then add64 (sub64 (latest_seqno wf) wf.head) 1
      else add64 (sub64 (latest_seqno wf) wf.history_size) 1

  -- where WooFReadWithCause starts to count: `last_valid`
  abbrev pub last_valid : Woof A → ℕ
  last_valid wf = if wf.tail == minus_one then add64 1 wf.history_size else wf.tail

  -- WooFReadWithCause at a sequence number that is not 0; `none` is -1
  unfoldable pub read_at : Woof A → ℕ → Option A
  read_at wf seq_no =
      if ltb seq_no (get_earliest wf) || ltb (latest_seqno wf) seq_no
      then none
      else some (wf.buf (add64 (last_valid wf) (sub64 seq_no (get_earliest wf)) % wf.history_size))

  -- WooFReadWithCause: 0 asks for the newest element
  unfoldable pub read : Woof A → ℕ → Option A
  read wf seq_no =
      if seq_no == 0
      then (if ltb 1 wf.seq_no then read_at wf (latest_seqno wf) else none)
      else read_at wf seq_no

  -- WooFTruncate; `none` is -1. The code compares a sequence number with an index.
  unfoldable pub truncate : Woof A → ℕ → Option (Woof A)
  truncate wf seq_no =
      if seq_no == 0
      then some (record wf { head = 0; tail = 0; seq_no = 1 })
      else if ltb seq_no (add64 wf.tail 1 % wf.history_size)
      then none
      else some (record wf {
        head =
            sub64 (add64 wf.head wf.history_size) (sub64 (latest_seqno wf) seq_no)
            % wf.history_size;
        seq_no = add64 seq_no 1;
      })

  -- the loop of WooFReadTail, with `count` elements still wanted; newest first
  read_tail_from : Woof A → ℕ → ℕ → List A
  read_tail_from wf zero ndx = []
  read_tail_from wf (suc count) ndx =
      let before = sub64 ndx 1 in
      let wraps = ltb wf.history_size (before + 1) in
      let prev = if wraps then 0 else before in
      let rest = read_tail_from wf count prev in
      wf.buf ndx ∷ (if (wraps && wf.tail == minus_one) || prev == wf.tail then [] else rest)

  -- WooFReadTail
  unfoldable pub read_tail : Woof A → ℕ → List A
  unfolding read_tail_from
  read_tail wf element_count = read_tail_from wf element_count wf.head
