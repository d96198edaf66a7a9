-- ===== src/Raft/Append/Safety.antt =====
-- h_append_entries keeps the term and the vote, but for a higher term.
use native.Mathlib.Decide.{dec_lt}
use cspot.Base.{
  ℕ, ◌==◌, ◌&&◌, ◌≡◌, ◌≢◌, List, [], ◌∷◌, some, inl, inr, arith, Bool-cases, ltb-false, ◌≤◌,
}
use cspot.Raft.State.{Node, ServerState, AppendRequest, LogEntry, plain}
use cspot.Raft.Config.{beyond, decode_config}
use cspot.Raft.Exec.{take_lock, release, done, bind_rule, newest, put_state, called}
use cspot.Raft.Ballot.{Keeps, current, Keeps-refl, Same-refl, Keeps-current, Same-current}
use cspot.Raft.Append.{
  start_timeout, enter_term, entered, is_leader, accept, handle_append, h_append_entries,
}
use cspot.Raft.Append.Stays.{states-start_timeout}
use cspot.Raft.Append.Accept.{accept-Same}

-- what `enter_term` leaves, whether it returns or exits
record Entered (request : AppendRequest) (s : ServerState) (n : Node) : Type 0 where
  keeps : Keeps s (current s (enter_term request s n).1.states)
  returned :
      (s' : ServerState)
      → (enter_term request s n).0 ≡ done s'
      → (newest (enter_term request s n).1.states ≡ some s') × Keeps s s'

entered-Keeps :
    (request : AppendRequest) (s : ServerState)
    → s.current_term ≤ request.term
    → Keeps s (entered request s)
unfolding entered
entered-Keeps request s h = record { term = ground arith; vote = λ e k. ground arith }

enter_term-Entered :
    (request : AppendRequest) (s : ServerState) (n : Node)
    → newest n.states ≡ some s
    → s.current_term ≤ request.term
    → Entered request s n
unfolding enter_term
enter_term-Entered request s n e h = record {
  keeps = ground (arith, restarted, entered-Keeps request s h, Keeps-refl s);
  returned = λ s' r. ground (arith, restarted, entered-Keeps request s h, Keeps-refl s);
}
  where
    restarted :
        (start_timeout release
          (entered request s)
          (put_state (entered request s) (called n))).1.states
        ≡ entered request s ∷ n.states
    restarted = states-start_timeout (entered request s) (put_state (entered request s) (called n))

handle_append-Keeps :
    (request : AppendRequest) (seq_no : ℕ) (s : ServerState) (n : Node)
    → newest n.states ≡ some s
    → Keeps s (current s (handle_append request seq_no s n).1.states)
unfolding handle_append
handle_append-Keeps request seq_no s n e = elim (dec_lt request.term s.current_term) [
  | yes p ↦ ground (arith, Keeps-refl s)
  | no p ↦ elim (Bool-cases ((request.term == s.current_term) && is_leader s.role)) [
    | inl two_leaders ↦ ground (arith, two_leaders, Keeps-refl s)
    | inr fine ↦
        let in_term : Entered request s n = enter_term-Entered request s n e (omega arith) in
        rw (ltb-false request.term s.current_term (omega arith), fine)
          (bind_rule (enter_term request s) (accept request seq_no) n
            (λ r. Keeps s (current s r.1.states)) (λ s' r. accepted s' (in_term.returned s' r))
            in_term.keeps in_term.keeps)
  ]
]
  where
    accepted :
        (s' : ServerState)
        → (newest (enter_term request s n).1.states ≡ some s') × Keeps s s'
        → Keeps s (current s (accept request seq_no s' (enter_term request s n).1).1.states)
    accepted s' (read, kept) =
        Keeps-current (accept request seq_no s' (enter_term request s n).1).1.states kept (
          accept-Same s' request seq_no s' (enter_term request s n).1 (Same-refl s')
            (Same-current (enter_term request s n).1.states read))

-- The configurations among the entries stay within the arrays that they are decoded into.
abbrev pub Fit : List LogEntry → Type 0
Fit [] = Unit
Fit (entry ∷ entries) =
    (entry.is_config ≢ plain → decode_config entry.payload ≢ beyond) × Fit entries

-- A handler of the request in a replica whose newest state is `s`, where the configurations of the
-- request stay within the arrays that they are decoded into: whether the handler returns, exits, has
-- a WooF call fail or follows the null pointer of a configuration with too few names, terms only grow
-- and within its term a vote that was cast stays.
pub h_append_entries-Keeps :
    (request : AppendRequest) (seq_no : ℕ) (s : ServerState) (n : Node)
    → Fit request.entries
    → newest n.states ≡ some s
    → Keeps s (current s (h_append_entries request seq_no n).1.states)
unfolding h_append_entries
h_append_entries-Keeps request seq_no s n fit e =
    ground (arith, handle_append-Keeps request seq_no s (called (take_lock n)) e, Keeps-refl s)
