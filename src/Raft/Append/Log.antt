-- ===== src/Raft/Append/Log.antt =====
-- What the parts of h_append_entries do to the log.
use cspot.Base.{
  ℕ, zero, suc, ◌+◌, ◌%◌, ◌<◌, ◌^◌, ◌≡◌, ◌∙◌, refl, List, [], ◌∷◌, Option, some, none, inl, inr,
  Text, arith, Bool-cases, Option-cases, ltb, length,
}
use cspot.Woof
use cspot.Woof.{truncate, append, latest_seqno}
use cspot.Woof.History.{Shows, append-Shows}
use cspot.Raft.State.{
  Node, ServerState, AppendRequest, LogEntry, EntryKind, follower, plain, joint_entry, new_entry,
}
use cspot.Raft.Exec.{done, bind_rule, called, release_both, put_entry}
use cspot.Raft.Config.{Decoded, decoded, refused, null_token, beyond, decode_config}
use cspot.Raft.Append.{
  map_entry, map_rounds, map_committed, invoke_handler_and_map_topic_index, start_timeout, promote,
  adopt, adopt_kind, adopt_config, append_all, commit_mapped, advance_commit, configured,
}

log-start_timeout : (s : ServerState) (n : Node) → (start_timeout release_both s n).1.log ≡ n.log
unfolding start_timeout
log-start_timeout s n = ground arith

log-promote : (s : ServerState) (n : Node) → (promote s n).1.log ≡ n.log
unfolding promote
log-promote s n = ground (arith, log-start_timeout (record s { role = follower }) n)

log-adopt :
    (kind : EntryKind) (seq : ℕ) (s : ServerState) (d : Decoded) (n : Node)
    → (adopt kind seq s d n).1.log ≡ n.log
unfolding adopt
log-adopt kind seq s (decoded members woofs len) n =
    bind_rule (promote (configured s kind seq members woofs)) _ n (λ r. r.1.log ≡ n.log)
      (λ s' e. ground (arith, kept)) kept kept
  where
    kept : (promote (configured s kind seq members woofs) n).1.log ≡ n.log
    kept = log-promote (configured s kind seq members woofs) n
log-adopt kind seq s refused n = refl
log-adopt kind seq s null_token n = refl
log-adopt kind seq s beyond n = refl

log-adopt_kind :
    (kind : EntryKind) (payload : Text) (seq : ℕ) (s : ServerState) (n : Node)
    → (adopt_kind kind payload seq s n).1.log ≡ n.log
log-adopt_kind plain payload seq s n = refl
log-adopt_kind joint_entry payload seq s n = log-adopt joint_entry seq s (decode_config payload) n
log-adopt_kind new_entry payload seq s n = log-adopt new_entry seq s (decode_config payload) n

log-adopt_config :
    (entry : LogEntry) (seq : ℕ) (s : ServerState) (n : Node)
    → (adopt_config entry seq s n).1.log ≡ n.log
unfolding adopt_config
log-adopt_config entry seq s n = log-adopt_kind entry.is_config entry.payload seq s n

-- the entries put in front, one after the other
abbrev pub appended : List LogEntry → List LogEntry → List LogEntry
appended [] xs = xs
appended (entry ∷ entries) xs = appended entries (entry ∷ xs)

pub length-appended :
    (entries xs : List LogEntry) → length (appended entries xs) ≡ length entries + length xs
length-appended [] xs = omega arith
length-appended (entry ∷ entries) xs = omega (arith, length-appended entries (entry ∷ xs))

pub append_all-Shows :
    (entries : List LogEntry) (s s' : ServerState) (n : Node) (xs : List LogEntry)
    → Shows n.log xs
    → length xs + length entries + 1 < 2 ^ 64
    → (append_all entries s n).0 ≡ done s'
    → Shows (append_all entries s n).1.log (appended entries xs)
unfolding append_all
append_all-Shows [] s s' n xs v room = λ e. v
append_all-Shows (entry ∷ entries) s s' n xs v room = elim (Bool-cases (n.env.fails n.calls)) [
  | inl k ↦ rw k (λ e. absurd (ground arith))
  | inr k ↦ rw k (
      let n1 : Node = put_entry entry (called n) in
      let one : Shows n1.log (entry ∷ xs) = append-Shows n.log xs v (omega arith) entry in
      bind_rule (adopt_config entry n.log.seq_no s) (append_all entries) n1
        (λ r. r.0 ≡ done s' → Shows r.1.log (appended entries (entry ∷ xs)))
        (λ s1 _.
          append_all-Shows entries s1 s' _ (entry ∷ xs)
            (rw (log-adopt_config entry n.log.seq_no s n1) one) (omega arith))
        (λ e. absurd (ground arith)) (λ e. absurd (ground arith)))
]

log-map_entry : (i : ℕ) (entry : LogEntry) (n : Node) → (map_entry i entry n).1.log ≡ n.log
unfolding map_entry
log-map_entry i entry n = ground arith

log-map_committed :
    (left i : ℕ) (s : ServerState) (n : Node) → (map_committed left i s n).1.log ≡ n.log
unfolding map_committed
log-map_committed zero i s n = refl
log-map_committed (suc left) i s n = elim (Option-cases (Woof.read n.log i)) [
  | inl gone ↦ ground (arith, gone)
  | inr (entry, found) ↦ ground (
    arith,
    found,
    log-map_entry i entry (called n),
    log-map_committed left ((i + 1) % 2 ^ 32) (record s { last_checked_committed_entry = i })
        (map_entry i entry (called n)).1,
  )
]

log-commit_mapped :
    (request : AppendRequest) (last : ℕ) (mapped : Option ServerState) (n : Node)
    → (commit_mapped request last mapped n).1.log ≡ n.log
unfolding commit_mapped
log-commit_mapped request last none n = refl
log-commit_mapped request last (some s) n = ground arith

pub log-advance_commit :
    (request : AppendRequest) (last : ℕ) (s : ServerState) (n : Node)
    → (advance_commit request last s n).1.log ≡ n.log
unfolding advance_commit invoke_handler_and_map_topic_index
log-advance_commit request last s n = elim (Bool-cases (ltb s.commit_index request.leader_commit)) [
  | inl k ↦ rw k (
      bind_rule (map_committed left from s) (commit_mapped request last) n (λ r. r.1.log ≡ n.log)
        (λ mapped _. log-commit_mapped request last mapped _ ∙ log-map_committed left from s n)
        (log-map_committed left from s n) (log-map_committed left from s n))
  | inr k ↦ rw k refl
]
  where
    from : ℕ
    from = (s.last_checked_committed_entry + 1) % 2 ^ 32

    left : ℕ
    left = map_rounds from s.commit_index
