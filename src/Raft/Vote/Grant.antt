-- ===== src/Raft/Vote/Grant.antt =====
-- When h_request_vote grants a vote.
use native.Mathlib.Decide.{dec_lt}
use cspot.Base.{
  ℕ, ◌≤◌, ◌<◌, ◌≡◌, ◌≢◌, ◌⊎◌, ◌∙◌, ap, sym, inl, inr, List, some, true, false, arith, Bool-cases,
  ltb-false,
}
use cspot.Woof
use cspot.Raft.State.{Node, ServerState, VoteRequest, VoteResult, LogEntry}
use cspot.Raft.Exec.{done, newest, bind_rule, Result-cases, put_state, called}
use cspot.Raft.Ballot.{current}
use cspot.Raft.Config.{member_id, not_member}
use cspot.Raft.Vote.{
  last_entry, cast_vote, fall_back, restart_timeout, decide_vote, is_ahead, fallen_back,
}
use cspot.Raft.Vote.Safety.{FellBack, fall_back-FellBack}

-- The candidate's log is at least as far as the log that ends with the entry.
abbrev pub UpToDate : VoteRequest → ℕ → LogEntry → Type 0
UpToDate request latest entry =
    (entry.term < request.last_log_term)
    ⊎ ((entry.term ≡ request.last_log_term) × (latest ≤ request.last_log_index))

-- what a granted vote means: `log` is the replica's log, `states` the server states after it
pub record Granted (request : VoteRequest) (result : VoteResult) (log : Woof.Woof LogEntry)
    (states : List ServerState) : Type 0 where
  pub voted : (d : ServerState) → (current d states).voted_for ≡ request.candidate_woof
  pub at_term : (d : ServerState) → (current d states).current_term ≡ request.term
  pub term : result.term ≡ request.term
  pub up_to_date :
      (entry : LogEntry)
      → Woof.latest_seqno log ≢ 0
      → Woof.read log (Woof.latest_seqno log) ≡ some entry
      → UpToDate request (Woof.latest_seqno log) entry

last_entry_lem :
    (n : Node) (latest term : ℕ) (entry : LogEntry)
    → (last_entry n).0 ≡ done (latest, term)
    → Woof.latest_seqno n.log ≢ 0
    → Woof.read n.log (Woof.latest_seqno n.log) ≡ some entry
    → (latest ≡ Woof.latest_seqno n.log) × (term ≡ entry.term)
unfolding last_entry
last_entry_lem n latest term entry e ne r = ground arith

is_ahead-false :
    (latest : ℕ) (entry : LogEntry) (request : VoteRequest)
    → latest ≢ 0
    → is_ahead latest entry.term request ≡ false
    → UpToDate request latest entry
unfolding is_ahead
is_ahead-false latest entry request ne h = elim (dec_lt entry.term request.last_log_term) [
  | yes p ↦ inl p
  | no p ↦ inr (ground arith, ground arith)
]

UpToDate-last_entry :
    (request : VoteRequest) (n : Node) (latest term : ℕ) (entry : LogEntry)
    → (last_entry n).0 ≡ done (latest, term)
    → is_ahead latest term request ≡ false
    → Woof.latest_seqno n.log ≢ 0
    → Woof.read n.log (Woof.latest_seqno n.log) ≡ some entry
    → UpToDate request (Woof.latest_seqno n.log) entry
UpToDate-last_entry request n latest term entry e behind ne r =
    let (at, term_at) = last_entry_lem n latest term entry e ne r in
    is_ahead-false (Woof.latest_seqno n.log) entry request ne (
      ap (λ k. is_ahead k entry.term request) (sym at)
      ∙ ap (λ k. is_ahead latest k request) (sym term_at)
      ∙ behind)

module _ (request : VoteRequest) (s : ServerState) (n : Node) (result : VoteResult) where
  -- the end of the critical section, where the log's last entry has been read
  cast_granted :
      (cast_vote request s n).0 ≡ done result
      → result.granted ≡ true
      → (latest term : ℕ) × ((last_entry n).0 ≡ done (latest, term))
        × (is_ahead latest term request ≡ false)
        × (result.term ≡ s.current_term)
        × ((d : ServerState)
            → current d (cast_vote request s n).1.states
              ≡ record s { voted_for = request.candidate_woof })
  unfolding cast_vote
  cast_granted e g = elim (Result-cases (last_entry n).0) [
    | inl ((latest, term), read) ↦
        (latest, term, read, ground (arith, read), ground (arith, read), λ d. ground (arith, read))
    | inr (inl gone) ↦ absurd (ground (arith, gone))
    | inr (inr gone) ↦ absurd (ground (arith, gone))
  ]

log-restart_timeout : (s : ServerState) (n : Node) → (restart_timeout s n).1.log ≡ n.log
unfolding restart_timeout
log-restart_timeout s n = ground arith

log-fall_back :
    (request : VoteRequest) (s : ServerState) (n : Node) → (fall_back request s n).1.log ≡ n.log
unfolding fall_back
log-fall_back request s n = ground (arith, log-restart_timeout next (put_state next (called n)))
  where
    next : ServerState
    next = fallen_back s request.term request.candidate_woof

module _ (request : VoteRequest) (s : ServerState) (n : Node) (result : VoteResult) where
  -- a vote granted by `cast_vote` in a node with the same log
  cast_vote-Granted :
      (n' : Node)
      → n'.log ≡ n.log
      → s.current_term ≡ request.term
      → (cast_vote request s n').0 ≡ done result
      → result.granted ≡ true
      → Granted request result n.log (cast_vote request s n').1.states
  cast_vote-Granted n' same_log at e g =
      let (latest, term, read, behind, term_at, state_at) = cast_granted request s n' result e g in
      record {
        voted = λ d. ap (λ x. x.voted_for) (state_at d);
        at_term = λ d. ap (λ x. x.current_term) (state_at d) ∙ at;
        term = term_at ∙ at;
        up_to_date = λ entry ne r. rw (sym same_log) (
            UpToDate-last_entry request n' latest term entry read behind (rw same_log ne)
              (rw same_log r));
      }

module _ (request : VoteRequest) (s : ServerState) (n : Node) (result : VoteResult) where
  pub decide_vote-Granted :
      newest n.states ≡ some s
      → (decide_vote request s n).0 ≡ done result
      → result.granted ≡ true
      → Granted request result n.log (decide_vote request s n).1.states
  unfolding decide_vote
  decide_vote-Granted e = elim (dec_lt request.term s.current_term) [
    | yes p ↦ ground arith
    | no p ↦
        elim (Bool-cases (not_member (member_id request.candidate_woof s.member_woofs) s.members)) [
          | inl out ↦ ground (arith, out)
          | inr in_config ↦
              let fell : FellBack request s n = fall_back-FellBack request s n e (omega arith) in
              rw (in_config, ltb-false request.term s.current_term (omega arith))
                (bind_rule (fall_back request s) (cast_vote request) n
                  (λ r.
                    r.0 ≡ done result
                    → result.granted ≡ true
                    → Granted request result n.log r.1.states)
                  (λ s' r.
                    cast_vote-Granted request s' n result (fall_back request s n).1
                      (log-fall_back request s n) (fell.returned s' r).2)
                  (λ q. absurd (ground arith)) (λ q. absurd (ground arith)))
        ]
  ]
