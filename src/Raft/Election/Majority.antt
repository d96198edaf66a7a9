-- ===== src/Raft/Election/Majority.antt =====
-- h_count_vote makes a leader only with the votes of more than half of the members.
use cspot.Base.{
  ℕ, zero, suc, ◌+◌, ◌-◌, ◌/◌, ◌≡◌, ◌≢◌, ◌≤◌, ◌<◌, ◌∙◌, refl, ap, List, some, none, inl, inr, arith,
  Bool-cases, Option-cases, ltb, if◌then◌else◌,
}
use cspot.Woof
use cspot.Woof.Read.{element}
use cspot.Raft.State.{Node, ServerState, VoteResult, leader}
use cspot.Raft.Exec.{take_lock, Exec, done, bind_rule, Result-cases, called, newest, put_state}
use cspot.Raft.Ballot.{current}
use cspot.Raft.Election.{
  counts, queue_replicate, queue_forward, count_votes, become_leader, queue_replicate,
  queue_forward, start_routines, tally, h_count_vote, history_size_short, as_leader,
}

-- how many of the `left` votes from `vote_seq` on are granted in the term
pub granted_in : List VoteResult → ℕ → ℕ → ℕ → ℕ
granted_in votes zero vote_seq term = 0
granted_in votes (suc left) vote_seq term =
    elim (element history_size_short votes vote_seq) [
      | none ↦ 0
      | some vote ↦ if counts vote term then 1 else 0
    ]
    + granted_in votes left (vote_seq + 1) term

-- what counting leaves
record Counted (m : Exec ℕ) (start votes : ℕ) (n : Node) : Type 0 where
  bound : (c : ℕ) → (m n).0 ≡ done c → c ≤ start + votes
  states : (m n).1.states ≡ n.states

count_votes-Counted :
    (left vote_seq term majority start : ℕ) (n : Node)
    → Counted
        (count_votes left vote_seq term majority start)
        start
        (granted_in n.vote_results left vote_seq term)
        n
unfolding count_votes granted_in
count_votes-Counted zero vote_seq term majority start n = record {
  bound = λ c e. ground (arith, e);
  states = refl;
}
count_votes-Counted (suc left) vote_seq term majority start n =
    elim (Option-cases (element history_size_short n.vote_results vote_seq)) [
      | inl gone ↦ record {
        bound = λ c e. absurd (ground (arith, e, gone));
        states = ground (arith, gone);
      }
      | inr (vote, found) ↦
          let counted : Counted (count_votes left (vote_seq + 1) term majority (start + 1))
              (start + 1) (granted_in n.vote_results left (vote_seq + 1) term) (called n) =
            count_votes-Counted left (vote_seq + 1) term majority (start + 1) (called n) in
          let skipped : Counted (count_votes left (vote_seq + 1) term majority start) start
              (granted_in n.vote_results left (vote_seq + 1) term) (called n) =
            count_votes-Counted left (vote_seq + 1) term majority start (called n) in
          record {
            bound = λ c e. ground (arith, e, found, counted.bound c, skipped.bound c);
            states = ground (arith, found, counted.states, skipped.states);
          }
    ]

states-queue_replicate : (s : ServerState) (n : Node) → (queue_replicate s n).1.states ≡ n.states
unfolding queue_replicate
states-queue_replicate s n = elim (Option-cases (newest n.replicate_args)) [
  | inl a ↦ ground (arith, a)
  | inr (r, a) ↦ ground (arith, a)
]

states-queue_forward : (s : ServerState) (n : Node) → (queue_forward s n).1.states ≡ n.states
unfolding queue_forward
states-queue_forward s n = elim (Option-cases (newest n.forward_args)) [
  | inl a ↦ ground (arith, a)
  | inr (r, a) ↦ ground (arith, a)
]

states-start_routines : (s : ServerState) (n : Node) → (start_routines s n).1.states ≡ n.states
unfolding start_routines
states-start_routines s n =
    bind_rule (queue_replicate s) (λ _. queue_forward s) n (λ r. r.1.states ≡ n.states)
      (λ _ _. states-queue_forward s (queue_replicate s n).1 ∙ states-queue_replicate s n)
      (states-queue_replicate s n) (states-queue_replicate s n)

-- a server that was not leader and now is: it leads the term
become_leader-term :
    (term : ℕ) (s : ServerState) (n : Node)
    → newest n.states ≡ some s
    → s.role ≢ leader
    → (current s (become_leader term s n).1.states).role ≡ leader
    → (current s (become_leader term s n).1.states).current_term ≡ term
unfolding become_leader
become_leader-term term s n e ne lead = ground (
  arith,
  states-start_routines (as_leader s term (Woof.latest_seqno n.log))
      (put_state (as_leader s term (Woof.latest_seqno n.log)) (called (called n))),
)

module _ (result : VoteResult) (seq_no : ℕ) (s : ServerState) where
  abbrev first : ℕ
  first = result.candidate_vote_pool_seqno + 1

  -- the votes that count: the one that fired the handler, and those put since the election began
  abbrev pub votes_for : List VoteResult → ℕ
  votes_for votes =
      (if result.granted then 1 else 0) + granted_in votes (seq_no - first) first result.term

  tally-Majority :
      (n : Node)
      → newest n.states ≡ some s
      → s.role ≢ leader
      → (current s (tally result seq_no s n).1.states).role ≡ leader
      → (s.members / 2 < votes_for n.vote_results)
        × ((current s (tally result seq_no s n).1.states).current_term ≡ result.term)
  unfolding tally
  tally-Majority n e ne lead =
      elim (Result-cases
        (count_votes (seq_no - first) first result.term (s.members / 2)
          (if result.granted then 1 else 0) n).0) [
            | inl (c, d) ↦ elim (Bool-cases (ltb (s.members / 2) c)) [
              | inl most ↦
                  let m : Node =
                    (count_votes (seq_no - first) first result.term (s.members / 2)
                      (if result.granted then 1 else 0) n).1 in
                  let leads : (current s (become_leader result.term s m).1.states).role ≡ leader =
                    ground (arith, lead, d, most) in
                  (
                    ground (arith, counted.bound c d, most),
                    ground (
                      arith,
                      d,
                      most,
                      become_leader-term result.term s m (ap newest counted.states ∙ e) ne leads,
                    ),
                  )
              | inr few ↦ absurd (ground (arith, e, ne, lead, d, few, counted.states))
            ]
            | inr (inl d) ↦ absurd (ground (arith, e, ne, lead, d, counted.states))
            | inr (inr d) ↦ absurd (ground (arith, e, ne, lead, d, counted.states))
          ]
    where
      counted :
          Counted
            (count_votes
              (seq_no - first)
              first
              result.term
              (s.members / 2)
              (if result.granted then 1 else 0))
            (if result.granted then 1 else 0)
            (granted_in n.vote_results (seq_no - first) first result.term)
            n
      counted =
          count_votes-Counted (seq_no - first) first result.term (s.members / 2)
            (if result.granted then 1 else 0) n

  -- If a server that was not leader is leader after h_count_vote, then the granted votes of the
  -- result's term that count are more than half of its members, it leads that term, and the term is
  -- not behind its own.
  pub h_count_vote-Majority :
      (n : Node)
      → newest n.states ≡ some s
      → s.role ≢ leader
      → (current s (h_count_vote result seq_no n).1.states).role ≡ leader
      → (s.members / 2 < votes_for n.vote_results)
        × ((current s (h_count_vote result seq_no n).1.states).current_term ≡ result.term)
        × (s.current_term ≤ result.term)
  unfolding h_count_vote
  h_count_vote-Majority n e ne lead = ground (arith, e, ne, lead, tally-Majority locked e ne)
    where
      locked : Node
      locked = called (take_lock n)
