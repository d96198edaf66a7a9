-- ===== src/Raft/Append/Replace.antt =====
-- What a successful h_append_entries leaves in the log.
use native.Mathlib.Decide.{dec_lt}
use mathlib.Core.Path.{subst}
use cspot.Base.{
  ℕ, ◌+◌, ◌-◌, ◌<◌, ◌≤◌, ◌^◌, ◌≡◌, refl, sym, List, some, inl, inr, true, false, arith, Bool-cases,
  ltb-false, ltb-true, if◌then◌else◌, ◌≢◌, Bool, length, drop, length-drop,
}
use cspot.Woof
use cspot.Woof.{truncate, append, latest_seqno}
use cspot.Woof.History.{Shows}
use cspot.Woof.Truncate.{truncate-Shows}
use cspot.Raft.State.{Node, ServerState, AppendRequest, AppendResult, LogEntry}
use cspot.Raft.Exec.{take_log_lock, release_log, pure, done, bind_rule, called, put_heartbeat}
use cspot.Raft.Append.{
  append_all, drop_conflicts, advance_commit, replace_tail, prev_matches, check_prev, reply, accept,
}
use cspot.Raft.Append.Log.{appended, length-appended, append_all-Shows, log-advance_commit}

module _ (request : AppendRequest) (seq_no : ℕ) (s : ServerState) (n : Node) (xs : List LogEntry)
    (v : Shows n.log xs) (flat : length xs < n.log.history_size)
    (first : request.prev_log_index ≡ 0 → length xs ≡ 0) where
  abbrev kept : List LogEntry
  kept = drop (length xs - request.prev_log_index) xs

  drop_conflicts-Shows :
      (s' : ServerState)
      → request.prev_log_index ≤ length xs
      → (drop_conflicts request (length xs) s n).0 ≡ done s'
      → Shows (drop_conflicts request (length xs) s n).1.log kept
  unfolding drop_conflicts
  drop_conflicts-Shows s' within = elim (dec_lt request.prev_log_index (length xs)) [
    | yes p ↦
        let (w', truncated, shown) =
          truncate-Shows n.log xs request.prev_log_index v flat (ground arith) within in
        λ e.
          let log_at : (drop_conflicts request (length xs) s n).1.log ≡ w' =
            ground (arith, truncated) in
          rw log_at shown
    | no p ↦ λ e.
        let log_at : (drop_conflicts request (length xs) s n).1.log ≡ n.log = ground arith in
        let all : length xs - request.prev_log_index ≡ 0 = omega arith in rw (log_at, all) v
  ]

  latest_seqno-appended :
      (w : Woof.Woof LogEntry)
      → request.prev_log_index ≤ length xs
      → Shows w (appended request.entries kept)
      → latest_seqno w ≡ request.prev_log_index + length request.entries
  unfolding latest_seqno
  latest_seqno-appended w within shown = omega (
    arith,
    shown.seq,
    shown.fits,
    length-appended request.entries kept,
    length-drop (length xs - request.prev_log_index) xs,
  )

  pub replace_tail-Shows :
      (result : AppendResult)
      → request.prev_log_index ≤ length xs
      → length xs + length request.entries + 2 < 2 ^ 64
      → (replace_tail request seq_no (length xs) s n).0 ≡ done result
      → Shows (replace_tail request seq_no (length xs) s n).1.log (appended request.entries kept)
        × (result.success ≡ true)
        × (result.last_entry_seq ≡ request.prev_log_index + length request.entries)
  unfolding replace_tail
  replace_tail-Shows result within room =
      bind_rule (drop_conflicts request (length xs) s) _ n
        (λ r. r.0 ≡ done result → Replaced result r.1)
        (λ s1 e1.
          let locked : Node = take_log_lock (drop_conflicts request (length xs) s n).1 in
          bind_rule (append_all request.entries s1) _ locked
            (λ r. r.0 ≡ done result → Replaced result r.1)
            (λ s2 e2.
              let after : Node = (append_all request.entries s1 locked).1 in
              let unlocked : Node = release_log (called after) in
              let shown : Shows after.log (appended request.entries kept) =
                append_all-Shows request.entries s1 s2 locked kept
                  (drop_conflicts-Shows s1 within e1)
                  (omega (arith, length-drop (length xs - request.prev_log_index) xs)) e2 in
              let last : ℕ = latest_seqno after.log in
              let number : last ≡ request.prev_log_index + length request.entries =
                latest_seqno-appended after.log within shown in
              elim (Bool-cases (after.env.fails after.calls)) [
                | inl k ↦ rw k (λ e. absurd (ground arith))
                | inr k ↦ rw k (
                    bind_rule (advance_commit request last s2) _ unlocked
                      (λ r. r.0 ≡ done result → Replaced result r.1)
                      (λ _ _ e. (
                        rw (log-advance_commit request last s2 unlocked) shown,
                        ground (arith, e),
                        ground (arith, e, number),
                      ))
                      (λ e. absurd (ground arith)) (λ e. absurd (ground arith)))
              ])
            (λ e. absurd (ground arith)) (λ e. absurd (ground arith)))
        (λ e. absurd (ground arith)) (λ e. absurd (ground arith))
    where
      Replaced : AppendResult → Node → Type 0
      Replaced result m =
          Shows m.log (appended request.entries kept)
          × (result.success ≡ true)
          × (result.last_entry_seq ≡ request.prev_log_index + length request.entries)

log-prev_matches : (request : AppendRequest) (n : Node) → (prev_matches request n).1.log ≡ n.log
unfolding prev_matches
log-prev_matches request n = ground arith

prev_matches-term :
    (request : AppendRequest) (n : Node) (entry : LogEntry)
    → (prev_matches request n).0 ≡ done true
    → request.prev_log_index ≢ 0
    → Woof.read n.log request.prev_log_index ≡ some entry
    → entry.term ≡ request.prev_log_term
unfolding prev_matches
prev_matches-term request n entry e ne found = ground (arith, found)

-- what the answer says of the log that showed `xs` before, in the node `m` after
pub record Answers (request : AppendRequest) (xs : List LogEntry) (n m : Node)
    (result : AppendResult) : Type 0 where
  pub replaced :
      result.success ≡ true
      → (request.prev_log_index ≤ length xs)
        × Shows m.log (appended request.entries (drop (length xs - request.prev_log_index) xs))
        × (result.last_entry_seq ≡ request.prev_log_index + length request.entries)
  pub prev_term :
      result.success ≡ true
      → request.prev_log_index ≢ 0
      → (entry : LogEntry) → Woof.read n.log request.prev_log_index ≡ some entry
      → entry.term ≡ request.prev_log_term
  pub refused : result.success ≡ false → m.log ≡ n.log

module _ (request : AppendRequest) (seq_no : ℕ) (s : ServerState) (n : Node) (xs : List LogEntry)
    (result : AppendResult) where
  -- what the handler answers where the newest number of the log could be read
  check_prev-Answers :
      Shows n.log xs
      → length xs < n.log.history_size
      → (request.prev_log_index ≡ 0 → length xs ≡ 0)
      → length xs + length request.entries + 2 < 2 ^ 64
      → (check_prev request seq_no (length xs) s n).0 ≡ done result
      → Answers request xs n (check_prev request seq_no (length xs) s n).1 result
  unfolding check_prev
  check_prev-Answers v flat first room = elim (dec_lt (length xs) request.prev_log_index) [
    | yes p ↦ rw (ltb-true (length xs) request.prev_log_index p) (λ e. record {
      replaced = λ ok. absurd (ground (arith, e));
      prev_term = λ ok. absurd (ground (arith, e));
      refused = λ ok. refl;
    })
    | no p ↦ rw (ltb-false (length xs) request.prev_log_index (omega arith)) (
        bind_rule (prev_matches request) _ n
          (λ r. r.0 ≡ done result → Answers request xs n r.1 result)
          (λ matches read. matched matches (omega arith) read) (λ e. absurd (ground arith))
          (λ e. absurd (ground arith)))
  ]
    where
      matched :
          (b : Bool)
          → request.prev_log_index ≤ length xs
          → (prev_matches request n).0 ≡ done b
          → ((if b
                then replace_tail request seq_no (length xs) s
                else pure (reply request s seq_no request.term false (request.prev_log_index - 1)))
              (prev_matches request n).1).0
            ≡ done result
          → Answers request xs n
              ((if b
                  then replace_tail request seq_no (length xs) s
                  else pure
                      (reply request s seq_no request.term false (request.prev_log_index - 1)))
                (prev_matches request n).1).1
              result
      matched true within read e =
          let m : Node = (prev_matches request n).1 in
          let same_log : m.log ≡ n.log = log-prev_matches request n in
          let (shown, ok, last) =
            replace_tail-Shows request seq_no s m xs (rw same_log v) (rw same_log flat) first result
              (omega arith) room e in
          record {
            replaced = λ _. (omega arith, shown, last);
            prev_term = λ _ ne entry found. prev_matches-term request n entry read ne found;
            refused = λ no. absurd (ground (arith, ok, no));
          }
      matched false within read e = record {
        replaced = λ ok. absurd (ground (arith, e));
        prev_term = λ ok. absurd (ground (arith, e));
        refused = λ ok. log-prev_matches request n;
      }

latest_seqno-Shows :
    (w : Woof.Woof LogEntry) (xs : List LogEntry) → Shows w xs → latest_seqno w ≡ length xs
unfolding latest_seqno
latest_seqno-Shows w xs v = omega (arith, v.seq, v.fits)

-- the node once the heartbeat has been put and the newest number of the log has been read
abbrev heard : ServerState → Node → Node
heard s n = called (
    put_heartbeat (record { term = s.current_term; timestamp = n.env.clock n.calls })
      (called (called n)))

module _ (request : AppendRequest) (seq_no : ℕ) (s : ServerState) (n : Node) (xs : List LogEntry)
    (result : AppendResult) where
  -- Let the log show `xs` and not have wrapped, let the request follow on an entry, or the log be
  -- empty, and let the call of WooFGetLatestSeqno before the test of the previous entry not fail. Where
  -- the handler answers with success, the request's previous entry is in the log, with the request's
  -- term, and the log shows that entry and those before it, and then the request's entries, whose
  -- last one has the number that the answer says. Where it answers without success, the log is as it
  -- was.
  pub accept-Answers :
      Shows n.log xs
      → length xs < n.log.history_size
      → (request.prev_log_index ≡ 0 → length xs ≡ 0)
      → length xs + length request.entries + 2 < 2 ^ 64
      → n.env.fails (n.calls + 1 + 1) ≡ false
      → (accept request seq_no s n).0 ≡ done result
      → Answers request xs n (accept request seq_no s n).1 result
  unfolding accept
  accept-Answers v flat first room latest = elim (Bool-cases (n.env.fails (n.calls + 1))) [
    | inl k ↦ rw k (λ e. absurd (ground arith))
    | inr k ↦
        rw (k, latest)
          (subst
            (λ (last : ℕ).
              (check_prev request seq_no last s (heard s n)).0 ≡ done result
              → Answers request xs n (check_prev request seq_no last s (heard s n)).1 result)
            (sym (latest_seqno-Shows n.log xs v))
            λ e.
              let answers : Answers request xs (heard s n)
                  (check_prev request seq_no (length xs) s (heard s n)).1 result =
                check_prev-Answers request seq_no s (heard s n) xs result v flat first room e in
              record {
                replaced = answers.replaced;
                prev_term = answers.prev_term;
                refused = answers.refused;
              })
  ]
