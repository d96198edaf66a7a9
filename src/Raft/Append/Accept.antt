-- ===== src/Raft/Append/Accept.antt =====
-- The part of h_append_entries after the term has been settled keeps the term and the vote.
use cspot.Base.{
  ℕ, ◌+◌, ◌-◌, ◌≡◌, refl, Option, some, none, inl, inr, true, false, Bool, arith, Bool-cases,
  minus_one, if◌then◌else◌, ltb,
}
use cspot.Woof
use cspot.Raft.State.{Node, ServerState, AppendRequest}
use cspot.Raft.Exec.{take_log_lock, release_log, pure, bind_rule, put_heartbeat, called}
use cspot.Raft.Ballot.{current, Same}
use cspot.Raft.Append.{
  invoke_handler_and_map_topic_index, append_all, drop_conflicts, commit_mapped, advance_commit,
  replace_tail, prev_matches, check_prev, reply, accept,
}
use cspot.Raft.Append.Stays.{
  Stays, invoke_handler_and_map_topic_index-Same, append_all-Stays, drop_conflicts-Stays,
}

module _ (a : ServerState) where
  commit_mapped-Same :
      (request : AppendRequest) (last : ℕ) (s : ServerState) (n : Node)
      → Same a s
      → Same a (current a n.states)
      → Same a (current a (commit_mapped request last (some s) n).1.states)
  unfolding commit_mapped
  commit_mapped-Same request last s n q h = elim (Bool-cases (n.env.fails n.calls)) [
    | inl k ↦ rw k h
    | inr k ↦ rw k (record { term = q.term; vote = q.vote })
  ]

  commit_any-Same :
      (request : AppendRequest) (last : ℕ) (mapped : Option ServerState) (n : Node)
      → ((s : ServerState) → mapped ≡ some s → Same a s)
      → Same a (current a n.states)
      → Same a (current a (commit_mapped request last mapped n).1.states)
  unfolding commit_mapped
  commit_any-Same request last none n q h = h
  commit_any-Same request last (some s) n q h = commit_mapped-Same request last s n (q s refl) h

  advance_commit-Same :
      (request : AppendRequest) (last : ℕ) (s : ServerState) (n : Node)
      → Same a s
      → Same a (current a n.states)
      → Same a (current a (advance_commit request last s n).1.states)
  unfolding advance_commit
  advance_commit-Same request last s n q h =
      let (same_ballot, kept) = invoke_handler_and_map_topic_index-Same a s n q in
      elim (Bool-cases (ltb s.commit_index request.leader_commit)) [
        | inl k ↦ rw k (
            bind_rule (invoke_handler_and_map_topic_index s) (commit_mapped request last) n
              (λ r. Same a (current a r.1.states))
              (λ mapped e.
                commit_any-Same request last mapped _
                  (λ s' k'. same_ballot s' (ground (arith, e, k'))) (rw kept h))
              (rw kept h) (rw kept h))
        | inr k ↦ rw k h
      ]

  replace_tail-Same :
      (request : AppendRequest) (seq_no last : ℕ) (s : ServerState) (n : Node)
      → Same a s
      → Same a (current a n.states)
      → Same a (current a (replace_tail request seq_no last s n).1.states)
  unfolding replace_tail
  replace_tail-Same request seq_no last s n q h =
      let dropped : Stays a (drop_conflicts request last s n) =
        drop_conflicts-Stays a request last s n q h in
      bind_rule (drop_conflicts request last s) _ n (λ r. Same a (current a r.1.states))
        (λ s1 e1.
          let locked : Node = take_log_lock (drop_conflicts request last s n).1 in
          let appended : Stays a (append_all request.entries s1 locked) =
            append_all-Stays a request.entries s1 locked (dropped.returned s1 e1) dropped.put in
          bind_rule (append_all request.entries s1) _ locked (λ r. Same a (current a r.1.states))
            (λ s2 e2.
              let after : Node = (append_all request.entries s1 locked).1 in
              let unlocked : Node = release_log (called after) in
              let last' : ℕ = Woof.latest_seqno after.log in
              let advanced : Same a
                  (current a (advance_commit request last' s2 unlocked).1.states) =
                advance_commit-Same request last' s2 unlocked (appended.returned s2 e2)
                  appended.put in
              elim (Bool-cases (after.env.fails after.calls)) [
                | inl k ↦ rw k appended.put
                | inr k ↦ rw k (
                    bind_rule (advance_commit request last' s2) _ unlocked
                      (λ r. Same a (current a r.1.states)) (λ _ _. advanced) advanced advanced)
              ])
            appended.put appended.put)
        dropped.put dropped.put

  states-prev_matches :
      (request : AppendRequest) (n : Node) → (prev_matches request n).1.states ≡ n.states
  unfolding prev_matches
  states-prev_matches request n = ground arith

  check_prev-Same :
      (request : AppendRequest) (seq_no last : ℕ) (s : ServerState) (n : Node)
      → Same a s
      → Same a (current a n.states)
      → Same a (current a (check_prev request seq_no last s n).1.states)
  unfolding check_prev
  check_prev-Same request seq_no last s n q h =
      elim (Bool-cases (ltb last request.prev_log_index)) [
        | inl k ↦ rw k h
        | inr k ↦
            let kept : Same a (current a (prev_matches request n).1.states) =
              rw (states-prev_matches request n) h in
            rw k (
              bind_rule (prev_matches request) _ n (λ r. Same a (current a r.1.states))
                (λ matches _. matched matches kept) kept kept)
      ]
    where
      matched :
          (b : Bool)
          → Same a (current a (prev_matches request n).1.states)
          → Same a (
              current a
                ((if b
                    then replace_tail request seq_no last s
                    else pure
                        (reply request s seq_no request.term false (request.prev_log_index - 1)))
                  (prev_matches request n).1).1.states)
      matched true kept = replace_tail-Same request seq_no last s (prev_matches request n).1 q kept
      matched false kept = kept

  pub accept-Same :
      (request : AppendRequest) (seq_no : ℕ) (s : ServerState) (n : Node)
      → Same a s
      → Same a (current a n.states)
      → Same a (current a (accept request seq_no s n).1.states)
  unfolding accept
  accept-Same request seq_no s n q h = elim (Bool-cases (n.env.fails (n.calls + 1))) [
    | inl k ↦ rw k h
    | inr k ↦ elim (Bool-cases (n.env.fails (n.calls + 1 + 1))) [
      | inl k' ↦ rw (k, k') (checked minus_one)
      | inr k' ↦ rw (k, k') (checked (Woof.latest_seqno n.log))
    ]
  ]
    where
      now : Node
      now = called (
          put_heartbeat (record { term = s.current_term; timestamp = n.env.clock n.calls })
            (called (called n)))

      checked : (last : ℕ) → Same a (current a (check_prev request seq_no last s now).1.states)
      checked last = check_prev-Same request seq_no last s now q h
