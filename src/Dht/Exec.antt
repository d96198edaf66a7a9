-- ===== src/Dht/Exec.antt =====
-- The handlers of the DHT as actions on a node. The monitor, which runs one handler of a node at a
-- time, is not modelled: a handler is one step.
use cspot.Base.{
  ◌≡◌, inl, inr, Bool-cases, Option-cases, ℕ, ◌+◌, List, [], ◌∷◌, Option, none, some, Bool, true,
  false, if◌then◌else◌, update,
}
use cspot.Handler.{Action}
pub use cspot.Handler.{Result, done, exit, crash, ◌>>=◌, ◌>>◌, pure, bind_rule, Result-cases}
use cspot.Dht.State.{Node, Peer, SuccessorInfo, FindArg, Message}

abbrev pub Exec : Type 0 → Type 0
Exec A = Action Node A

-- the next call into CSPOT
abbrev pub called : Node → Node
called n = record n { calls = n.calls + 1 }

-- A call that may fail, and whether it succeeded.
abbrev pub try_call : (Node → Node) → Exec Bool
try_call f n = if n.env.fails n.calls then (done false, called n) else (done true, f (called n))

-- A call after whose failure the handler exits.
abbrev pub must : (Node → Node) → Exec (Unit {0})
must f n = if n.env.fails n.calls then (exit, called n) else (done tt, f (called n))

-- The same for a call that reads; `none` is a read that the WooF itself refuses.
abbrev pub must_get : {A : Type 0} → (Node → Option A) → Exec A
must_get f n =
    if n.env.fails n.calls
    then (exit, called n)
    else elim (f n) [ none ↦ (exit, called n) | some a ↦ (done a, called n) ]

-- A read whose failure the handler looks at itself.
abbrev pub try_get : {A : Type 0} → (Node → Option A) → Exec (Option A)
try_get f n = if n.env.fails n.calls then (done none, called n) else (done (f n), called n)

-- get_milliseconds
abbrev pub get_milliseconds : Exec ℕ
get_milliseconds n = (done (n.env.clock n.calls), called n)

-- the newest element of a WooF
abbrev pub newest {ℓ} : {A : Type ℓ} → List A → Option A
newest [] = none
newest (x ∷ xs) = some x

abbrev pub send : Message → Node → Node
send m n = record n { sent = m ∷ n.sent }

abbrev pub put_predecessor : Peer → Node → Node
put_predecessor p n = record n { predecessors = p ∷ n.predecessors }

abbrev pub put_successor : SuccessorInfo → Node → Node
put_successor s n = record n { successors = s ∷ n.successors }

-- set_finger_info
abbrev pub put_finger : ℕ → Peer → Node → Node
put_finger i p n = record n { fingers = update n.fingers i (p ∷ n.fingers i) }

abbrev pub put_request : FindArg → Node → Node
put_request a n = record n { find_requests = a ∷ n.find_requests }

-- What a list of messages has in front of another.
pub data Adds (Q : Message → Type 0) (old : List Message) : List Message → Type 0 where
  same : Adds Q old old
  more : {m : Message} {ms : List Message} → Q m → Adds Q old ms → Adds Q old (m ∷ ms)

-- A statement on the end of a sequence holds if it holds after each end of its first call.
module _ {A : Type 0} (n : Node) (Q : Result A × Node → Type 0) where
  pub must_rule :
      (f : Node → Node) (k : Unit {0} → Exec A)
      → Q (exit, called n)
      → Q (k tt (f (called n)))
      → Q ((must f >>= k) n)
  must_rule f k failed succeeded = elim (Bool-cases (n.env.fails n.calls)) [
    | inl e ↦ rw e failed
    | inr e ↦ rw e succeeded
  ]

  pub try_call_rule :
      (f : Node → Node) (k : Bool → Exec A)
      → Q (k false (called n))
      → Q (k true (f (called n)))
      → Q ((try_call f >>= k) n)
  try_call_rule f k failed succeeded = elim (Bool-cases (n.env.fails n.calls)) [
    | inl e ↦ rw e failed
    | inr e ↦ rw e succeeded
  ]

  pub must_get_rule :
      {B : Type 0} (f : Node → Option B) (k : B → Exec A)
      → Q (exit, called n)
      → ((b : B) → f n ≡ some b → Q (k b (called n)))
      → Q ((must_get f >>= k) n)
  must_get_rule f k failed succeeded = elim (Bool-cases (n.env.fails n.calls)) [
    | inl e ↦ rw e failed
    | inr e ↦ elim (Option-cases (f n)) [
      | inl absent ↦ rw (e, absent) failed
      | inr (b, found) ↦ rw (e, found) (succeeded b found)
    ]
  ]

  pub try_get_rule :
      {B : Type 0} (f : Node → Option B) (k : Option B → Exec A)
      → Q (k none (called n))
      → ((b : B) → f n ≡ some b → Q (k (some b) (called n)))
      → Q ((try_get f >>= k) n)
  try_get_rule f k failed succeeded = elim (Bool-cases (n.env.fails n.calls)) [
    | inl e ↦ rw e failed
    | inr e ↦ elim (Option-cases (f n)) [
      | inl absent ↦ rw (e, absent) failed
      | inr (b, found) ↦ rw (e, found) (succeeded b found)
    ]
  ]

  -- the same where the element is known
  pub must_known_rule :
      {B : Type 0} (f : Node → Option B) (b : B) (k : B → Exec A)
      → f n ≡ some b
      → Q (exit, called n)
      → Q (k b (called n))
      → Q ((must_get f >>= k) n)
  must_known_rule f b k known failed succeeded = elim (Bool-cases (n.env.fails n.calls)) [
    | inl e ↦ rw e failed
    | inr e ↦ rw (e, known) succeeded
  ]
