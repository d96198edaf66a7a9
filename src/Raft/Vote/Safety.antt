-- ===== src/Raft/Vote/Safety.antt =====
-- A replica grants at most one candidate in a term, and only one whose log is not behind its own.
use native.Mathlib.Decide.{dec_lt}
use cspot.Base.{inl, inr, Bool-cases, ltb-false, ◌≤◌, ◌≡◌, ◌∷◌, some, arith, same_iff, is_empty_iff}
use cspot.Raft.State.{Node, ServerState, VoteRequest}
use cspot.Raft.Exec.{take_lock, done, put_state, called, bind_rule, newest}
use cspot.Raft.Config.{not_member, member_id}
use cspot.Raft.Ballot.{Keeps, current, Keeps-refl, Keeps-trans}
use cspot.Raft.Vote.{
  last_entry, cast_vote, fall_back, restart_timeout, decide_vote, h_request_vote, fallen_back,
}

pub states-last_entry : (n : Node) → (last_entry n).1.states ≡ n.states
unfolding last_entry
states-last_entry n = ground arith

cast_vote-Keeps :
    (request : VoteRequest) (d s : ServerState) (n : Node)
    → newest n.states ≡ some s
    → Keeps s (current d (cast_vote request s n).1.states)
unfolding cast_vote
cast_vote-Keeps request d s n e = ground (
  arith,
  states-last_entry n,
  same_iff s.voted_for request.candidate_woof,
  is_empty_iff s.voted_for,
)

states-restart_timeout : (s : ServerState) (n : Node) → (restart_timeout s n).1.states ≡ n.states
unfolding restart_timeout
states-restart_timeout s n = ground arith

-- what `fall_back` leaves, whether it returns or exits
pub record FellBack (request : VoteRequest) (s : ServerState) (n : Node) : Type 0 where
  pub keeps : Keeps s (current s (fall_back request s n).1.states)
  pub returned :
      (s' : ServerState)
      → (fall_back request s n).0 ≡ done s'
      → (newest (fall_back request s n).1.states ≡ some s')
        × Keeps s s'
        × (s'.current_term ≡ request.term)

pub fall_back-FellBack :
    (request : VoteRequest) (s : ServerState) (n : Node)
    → newest n.states ≡ some s
    → s.current_term ≤ request.term
    → FellBack request s n
unfolding fall_back
fall_back-FellBack request s n e h = record {
  keeps = ground (arith, restarted);
  returned = λ s' r. ground (arith, restarted);
}
  where
    next : ServerState
    next = fallen_back s request.term request.candidate_woof

    restarted : (restart_timeout next (put_state next (called n))).1.states ≡ next ∷ n.states
    restarted = states-restart_timeout next (put_state next (called n))

-- In the critical section of h_request_vote, whether it returns or exits, terms only grow and a
-- vote is not changed within its term.
decide_vote-Keeps :
    (request : VoteRequest) (s : ServerState) (n : Node)
    → newest n.states ≡ some s
    → Keeps s (current s (decide_vote request s n).1.states)
unfolding decide_vote
decide_vote-Keeps request s n e = elim (dec_lt request.term s.current_term) [
  | yes p ↦ ground (arith, Keeps-refl s)
  | no p ↦
      elim (Bool-cases (not_member (member_id request.candidate_woof s.member_woofs) s.members)) [
        | inl out ↦ ground (arith, out, Keeps-refl s)
        | inr in_config ↦
            let fell : FellBack request s n = fall_back-FellBack request s n e (omega arith) in
            rw (in_config, ltb-false request.term s.current_term (omega arith))
              (bind_rule (fall_back request s) (cast_vote request) n
                (λ r. Keeps s (current s r.1.states)) (λ s' r. voted s' (fell.returned s' r))
                fell.keeps fell.keeps)
      ]
]
  where
    voted :
        (s' : ServerState)
        → (newest (fall_back request s n).1.states ≡ some s')
          × Keeps s s'
          × (s'.current_term ≡ request.term)
        → Keeps s (current s (cast_vote request s' (fall_back request s n).1).1.states)
    voted s' (read, kept, _) =
        Keeps-trans kept (cast_vote-Keeps request s s' (fall_back request s n).1 read)

-- A handler of the request in a replica whose newest state is `s`: whether it returns, exits or has
-- a WooF call fail, terms only grow and within its term a vote that was cast stays.
pub h_request_vote-Keeps :
    (request : VoteRequest) (s : ServerState) (n : Node)
    → newest n.states ≡ some s
    → Keeps s (current s (h_request_vote request n).1.states)
unfolding h_request_vote
h_request_vote-Keeps request s n e =
    ground (arith, decide_vote-Keeps request s (called (take_lock n)) e, Keeps-refl s)
