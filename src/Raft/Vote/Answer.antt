-- ===== src/Raft/Vote/Answer.antt =====
-- The answers that h_request_vote sends.
use cspot.Base.{◌≡◌, ◌≢◌, inl, inr, ap, List, ◌∷◌, some, true, arith, Text, length}
use cspot.Raft.State.{Node, ServerState, VoteRequest, VoteResult, vote_result}
use cspot.Raft.Exec.{take_lock, done, newest, Result-cases, put_state, called}
use cspot.Raft.Vote.{
  last_entry, cast_vote, fall_back, restart_timeout, decide_vote, h_request_vote, fallen_back,
}
use cspot.Raft.Vote.Grant.{Granted, decide_vote-Granted}

sent-restart_timeout : (s : ServerState) (n : Node) → (restart_timeout s n).1.sent ≡ n.sent
unfolding restart_timeout
sent-restart_timeout s n = ground arith

sent-fall_back :
    (request : VoteRequest) (s : ServerState) (n : Node) → (fall_back request s n).1.sent ≡ n.sent
unfolding fall_back
sent-fall_back request s n = ground (arith, sent-restart_timeout next (put_state next (called n)))
  where
    next : ServerState
    next = fallen_back s request.term request.candidate_woof

sent-cast_vote :
    (request : VoteRequest) (s : ServerState) (n : Node) → (cast_vote request s n).1.sent ≡ n.sent
unfolding cast_vote last_entry
sent-cast_vote request s n = ground arith

sent-decide_vote :
    (request : VoteRequest) (s : ServerState) (n : Node) → (decide_vote request s n).1.sent ≡ n.sent
unfolding decide_vote
sent-decide_vote request s n = elim (Result-cases (fall_back request s n).0) [
  | inl (s', e) ↦
      ground
        (arith, e, sent-fall_back request s n, sent-cast_vote request s' (fall_back request s n).1)
  | inr (inl e) ↦ ground (arith, e, sent-fall_back request s n)
  | inr (inr e) ↦ ground (arith, e, sent-fall_back request s n)
]

cons_ne : {A : Type 0} (x : A) (xs : List A) → x ∷ xs ≢ xs
cons_ne x xs e = omega (arith, ap length e)

module _ (request : VoteRequest) (s : ServerState) (n : Node) (to : Text) (result : VoteResult)
    (e : newest n.states ≡ some s)
    (m : (h_request_vote request n).1.sent ≡ vote_result to result ∷ n.sent) where
  abbrev locked : Node
  locked = called (take_lock n)

  sent_lem :
      ((decide_vote request s locked).0 ≡ done result)
      × (to ≡ request.candidate_woof)
      × ((h_request_vote request n).1.states ≡ (decide_vote request s locked).1.states)
  unfolding h_request_vote
  sent_lem = elim (Result-cases (decide_vote request s locked).0) [
    | inl (r, d) ↦
        ground (
          arith,
          e,
          d,
          m,
          sent-decide_vote request s locked,
          cons_ne (vote_result to result) n.sent,
        )
    | inr (inl d) ↦ absurd (
        ground (
          arith,
          e,
          d,
          m,
          sent-decide_vote request s locked,
          cons_ne (vote_result to result) n.sent,
        ))
    | inr (inr d) ↦ absurd (
        ground (
          arith,
          e,
          d,
          m,
          sent-decide_vote request s locked,
          cons_ne (vote_result to result) n.sent,
        ))
  ]

  -- If a handler of the request in a replica whose newest state is `s` sends a granting answer, it
  -- sends it to the candidate, and the newest state has the vote for the candidate at the request's
  -- term; the candidate's log is at least as far as the replica's last entry, where it has one.
  pub h_request_vote-Granted :
      result.granted ≡ true
      → (to ≡ request.candidate_woof)
        × Granted request result n.log (h_request_vote request n).1.states
  h_request_vote-Granted g =
      let (decided, sent_to, states_at) = sent_lem in
      (sent_to, rw states_at (decide_vote-Granted request s locked result e decided g))
