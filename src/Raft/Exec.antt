-- ===== src/Raft/Exec.antt =====
-- Handlers as actions on a replica. A handler returns, or ends its process by exit(1); what it put
-- before that stays.
use cspot.Base.{
  ℕ, ◌+◌, ◌%◌, ◌-◌, List, [], ◌∷◌, Option, none, some, Bool, true, false, if◌then◌else◌, minus_one,
}
use cspot.Handler.{Action}
pub use cspot.Handler.{
  Result, done, exit, crash, continue, ◌>>=◌, ◌>>◌, pure, bind_rule, Result-cases,
}
use cspot.Woof
use cspot.Woof.{Woof}
use cspot.Raft.State.{Node, ServerState, Heartbeat, LogEntry, Message}

abbrev pub Exec : Type 0 → Type 0
Exec A = Action Node A

abbrev pub gets : {A : Type 0} → (Node → A) → Exec A
gets f n = (done (f n), n)

abbrev pub modify : (Node → Node) → Exec (Unit {0})
modify f n = (done tt, f n)

-- raft_lock and raft_unlock: a put that may fail, whose result no handler looks at. That a handler waits
-- for the lock is left to the order of the steps.
abbrev pub take_lock : Node → Node
take_lock n = record n { server_lock = if n.env.lock_fails n.calls then n.server_lock else true }

abbrev pub lock_server : Exec (Unit {0})
lock_server n = (done tt, take_lock n)

abbrev pub release : Node → Node
release n = record n { server_lock = if n.env.unlock_fails n.calls then n.server_lock else false }

abbrev pub take_log_lock : Node → Node
take_log_lock n = record n { log_lock = if n.env.log_lock_fails n.calls then n.log_lock else true }

abbrev pub release_log : Node → Node
release_log n = record n { log_lock = if n.env.log_unlock_fails n.calls then n.log_lock else false }

abbrev pub release_both : Node → Node
release_both n = release_log (release n)

abbrev pub unlock_server : Exec (Unit {0})
unlock_server n = (done tt, release n)

-- the next call into CSPOT
abbrev pub called : Node → Node
called n = record n { calls = n.calls + 1 }

-- A call that may fail, and whether it succeeded.
abbrev pub try_call : (Node → Node) → Exec Bool
try_call f n = if n.env.fails n.calls then (done false, called n) else (done true, f (called n))

-- A call after whose failure the handler cleans up and exits.
abbrev pub must : (Node → Node) → (Node → Node) → Exec (Unit {0})
must clean f n = if n.env.fails n.calls then (exit, clean (called n)) else (done tt, f (called n))

-- The same for a call whose result the handler uses.
abbrev pub must_value : {A : Type 0} → (Node → Node) → (Node → A × Node) → Exec A
must_value clean f n =
    if n.env.fails n.calls
    then (exit, clean (called n))
    else (let (a, n') = f (called n) in (done a, n'))

-- The same for a call that reads; `none` is a read that the WooF itself refuses.
abbrev pub must_get : {A : Type 0} → (Node → Node) → (Node → Option A) → Exec A
must_get clean f n =
    if n.env.fails n.calls
    then (exit, clean (called n))
    else elim (f n) [ none ↦ (exit, clean (called n)) | some a ↦ (done a, called n) ]

-- The same for a step that the WooF itself may refuse.
abbrev pub must_step : (Node → Node) → (Node → Option Node) → Exec (Unit {0})
must_step clean f n =
    if n.env.fails n.calls
    then (exit, clean (called n))
    else elim (f (called n)) [ none ↦ (exit, clean (called n)) | some n' ↦ (done tt, n') ]

-- A read whose failure the handler looks at itself.
abbrev pub try_get : {A : Type 0} → (Node → Option A) → Exec (Option A)
try_get f n = if n.env.fails n.calls then (done none, called n) else (done (f n), called n)

-- WooFGetLatestSeqno on the log where the handler does not test for -1
abbrev pub latest_or_minus_one : Exec ℕ
latest_or_minus_one n =
    if n.env.fails n.calls
    then (done minus_one, called n)
    else (done (Woof.latest_seqno n.log), called n)

abbrev pub stop : {A : Type 0} → (Node → Node) → Exec A
stop clean n = (exit, clean n)

abbrev pub lock_log : Exec (Unit {0})
lock_log n = (done tt, take_log_lock n)

abbrev pub unlock_log : Exec (Unit {0})
unlock_log n = (done tt, release_log n)

-- the newest element of a WooF that is only appended to: WooFGet(…, 0)
abbrev pub newest {ℓ} : {A : Type ℓ} → List A → Option A
newest [] = none
newest (x ∷ xs) = some x

abbrev pub put_state : ServerState → Node → Node
put_state s n = record n { states = s ∷ n.states }

abbrev pub put_heartbeat : Heartbeat → Node → Node
put_heartbeat h n = record n { heartbeats = h ∷ n.heartbeats }

abbrev pub put_timeout : ℕ → Node → Node
put_timeout t n = record n { timeout_checkers = t ∷ n.timeout_checkers }

abbrev pub put_entry : LogEntry → Node → Node
put_entry e n = record n { log = Woof.append n.log e }

abbrev pub send : Message → Node → Node
send m n = record n { sent = m ∷ n.sent }

-- get_milliseconds
abbrev pub get_milliseconds : Exec ℕ
get_milliseconds n = (done (n.env.clock n.calls), called n)

-- random_timeout: min + rand() % (max - min)
abbrev pub random_timeout : ServerState → Exec ℕ
random_timeout s n =
    (done (s.timeout_min + n.env.random n.calls % (s.timeout_max - s.timeout_min)), called n)
