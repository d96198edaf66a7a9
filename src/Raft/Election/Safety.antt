-- ===== src/Raft/Election/Safety.antt =====
-- What a timeout and a count of votes do to the term and the vote.
use cspot.Base.{
  ℕ, zero, suc, ◌+◌, ◌<◌, ◌^◌, add64, length, ◌≡◌, refl, some, inl, inr, arith, Bool-cases,
  Option-cases,
}
use cspot.Woof
use cspot.Raft.State.{Node, ServerState, VoteRequest}
use cspot.Raft.Exec.{take_lock, newest, called, put_heartbeat, put_state, release}
use cspot.Raft.Ballot.{Keeps, current, Keeps-refl}
use cspot.Raft.Election.{
  request_votes, ballot, ask_members, start_election, check_timeout, h_timeout_checker,
  as_candidate,
}

states-request_votes :
    (left i : ℕ) (s : ServerState) (request : VoteRequest) (n : Node)
    → (request_votes left i s request n).1.states ≡ n.states
unfolding request_votes
states-request_votes zero i s request n = refl
states-request_votes (suc left) i s request n = elim (Bool-cases (n.env.fails n.calls)) [
  | inl k ↦ rw k (states-request_votes left (i + 1) s request (called n))
  | inr k ↦ rw k (states-request_votes left (i + 1) s request _)
]

states-ask_members : (s : ServerState) (n : Node) → (ask_members s n).1.states ≡ n.states
unfolding ask_members
states-ask_members s n = elim (Bool-cases (n.env.fails (n.calls + 1))) [
  | inl a ↦ rw a refl
  | inr a ↦ elim (Bool-cases (n.env.fails (n.calls + 1 + 1))) [
    | inl b ↦ rw (a, b) refl
    | inr b ↦ elim (Bool-cases (n.env.fails (n.calls + 1 + 1 + 1))) [
      | inl c ↦ rw (a, b, c) refl
      | inr c ↦ elim (Bool-cases (n.env.fails (n.calls + 1 + 1 + 1 + 1))) [
        | inl d ↦ rw (a, b, c, d) refl
        | inr d ↦ elim (Option-cases (Woof.read n.log (Woof.latest_seqno n.log))) [
          | inl gone ↦ rw (a, b, c, d, gone) refl
          | inr (entry, found) ↦ rw (a, b, c, d, found) (asked entry.term)
        ]
      ]
    ]
  ]
]
  where
    now : Node
    now = called (
        called (
          called (
            put_heartbeat
              (record { term = add64 s.current_term 1; timestamp = n.env.clock n.calls })
              (called (called n)))))

    asked :
        (term : ℕ)
        → (request_votes s.members 0 s
            (ballot (as_candidate s) (length n.vote_results) (Woof.latest_seqno n.log) term)
            now).1.states
          ≡ n.states
    asked term = states-request_votes s.members 0 s _ now

candidate-Keeps : (s : ServerState) → s.current_term + 1 < 2 ^ 64 → Keeps s (as_candidate s)
candidate-Keeps s h = record { term = omega arith; vote = λ e k. absurd (omega arith) }

start_election-Keeps :
    (s : ServerState) (n : Node)
    → newest n.states ≡ some s
    → s.current_term + 1 < 2 ^ 64
    → Keeps s (current s (start_election s n).1.states)
unfolding start_election
start_election-Keeps s n e h = ground (
  arith,
  e,
  Keeps-refl s,
  candidate-Keeps s h,
  states-ask_members s (release (put_state (as_candidate s) (called (called n)))),
)

check_timeout-Keeps :
    (timeout_value : ℕ) (s : ServerState) (n : Node)
    → newest n.states ≡ some s
    → s.current_term + 1 < 2 ^ 64
    → Keeps s (current s (check_timeout timeout_value s n).1.states)
unfolding check_timeout
check_timeout-Keeps timeout_value s n e h = elim (Option-cases (newest n.heartbeats)) [
  | inl gone ↦ ground (arith, e, gone, Keeps-refl s)
  | inr (heartbeat, found) ↦
      ground (arith, e, found, Keeps-refl s, start_election-Keeps s (called (called n)) e h)
]

-- A timeout of a replica whose newest state is `s`, its term below 2^64 - 1.
pub h_timeout_checker-Keeps :
    (timeout_value : ℕ) (s : ServerState) (n : Node)
    → newest n.states ≡ some s
    → s.current_term + 1 < 2 ^ 64
    → Keeps s (current s (h_timeout_checker timeout_value n).1.states)
unfolding h_timeout_checker
h_timeout_checker-Keeps timeout_value s n e h =
    ground (arith, check_timeout-Keeps timeout_value s (called (take_lock n)) e h, Keeps-refl s)
