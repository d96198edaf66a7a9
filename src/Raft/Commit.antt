-- ===== src/Raft/Commit.antt =====
-- update_commit_index of apps/raft/h_replicate_entries.c
pub mod Majority
use cspot.Base.{
  ℕ, zero, suc, ◌+◌, ◌/◌, List, [], ◌∷◌, Option, none, some, Bool, true, false, if◌then◌else◌, ltb,
  leb, ◌==◌, ◌&&◌, Text, add64, sub64, drop, ◌%◌, ◌^◌,
}
use cspot.Woof
use cspot.Raft.State.{
  ServerState, ConfigStatus, stable, joint, shutdown, new_entry, LogEntry, max_members,
}
use cspot.Raft.Exec.{
  Exec, crash, ◌>>=◌, ◌>>◌, pure, lock_log, unlock_log, release, release_both, must, must_get,
  must_value, put_state, put_entry,
}
use cspot.Raft.Config.{
  member_id, Decoded, decoded, refused, null_token, beyond, decode_config, encode_config,
}

-- the first `left` match indices, from `i` on
unfoldable pub indices : ℕ → ℕ → (ℕ → ℕ) → List ℕ
indices zero i match_index = []
indices (suc left) i match_index = match_index i ∷ indices left (i + 1) match_index

-- comp_index: the 32 bits of the int that the difference of two unsigned longs is returned as
unfoldable pub comp_index : ℕ → ℕ → ℕ
comp_index a b = sub64 b a % 2 ^ 32

-- whether a 32-bit int is above 0
abbrev pub is_positive : ℕ → Bool
is_positive bits = ltb 0 bits && ltb bits (2 ^ 31)

-- qsort with comp_index: `x` comes to stand before the first index that the comparison does not put
-- in front of it. Where the comparison is no order, qsort may leave the indices in another order.
unfoldable pub insert_index : ℕ → List ℕ → List ℕ
insert_index x [] = x ∷ []
insert_index x (y ∷ rest) =
    if is_positive (comp_index x y) then y ∷ insert_index x rest else x ∷ y ∷ rest

unfoldable pub sort_indices : List ℕ → List ℕ
sort_indices [] = []
sort_indices (x ∷ rest) = insert_index x (sort_indices rest)

abbrev pub is_joint : ConfigStatus → Bool
is_joint joint = true
is_joint stable = false

abbrev pub is_none : Option ℕ → Bool
is_none none = true
is_none (some m) = false

-- the state that uses the new configuration, appended as log entry `seq`
abbrev pub reconfigured : ServerState → ℕ → ℕ → (ℕ → Text) → ServerState
reconfigured s seq new_members new_member_woofs = record s {
  members = new_members;
  current_config = stable;
  last_config_seqno = seq;
  member_woofs = λ i. if ltb i max_members then new_member_woofs i else s.member_woofs i;
  next_index = λ _. add64 seq 1;
  match_index = λ _. 0;
  last_sent_timestamp = λ _. 0;
}

abbrev pub config_entry : ServerState → Text → LogEntry
config_entry s payload = record {
  term = s.current_term;
  topic_name = [];
  payload = payload;
  is_config = new_entry;
  is_handler = false;
  ts_created = 0;
  ts_written = 0;
}

-- Lines 115 to 152. decode_config clears ten names in an array of eight here; that the names behind the
-- array are other memory is left out. What is put into the state WooF is the stack behind the pointer `server_state`,
-- not the state that it points to.
unfoldable pub install : Decoded → ServerState → Exec ServerState
install (decoded new_members new_member_woofs len) s = do
  lock_log
  entry_seq ← must_value release_both (λ n.
      (n.log.seq_no, put_entry (config_entry s (encode_config new_members new_member_woofs)) n))
  unlock_log
  let s1 = reconfigured s entry_seq new_members new_member_woofs
  let s2 =
      (if is_none (member_id s1.woof_name s1.member_woofs)
        then record s1 { role = shutdown }
        else s1)
  must release (λ n. put_state n.env.stack n)
  pure s2
install refused s = λ n. (crash, n)
install null_token s = λ n. (crash, n)
install beyond s = λ n. (crash, n)

-- the configuration behind the joint one in the entry; the code does not test what decode_config
-- returns, and goes on from a wrong address where it fails
unfoldable pub second_config : Text → Decoded → Decoded
second_config payload (decoded members member_woofs len) = decode_config (drop len payload)
second_config payload refused = refused
second_config payload null_token = null_token
second_config payload beyond = beyond

-- Lines 99 to 156: once the joint configuration is committed, the new one is appended.
unfoldable pub leave_joint : ServerState → Exec ServerState
leave_joint s =
    if is_joint s.current_config && leb s.last_config_seqno s.commit_index
    then (do
      entry ← must_get release (λ n. Woof.read n.log s.last_config_seqno)
      install (second_config entry.payload (decode_config entry.payload)) s)
    else pure s

-- The loop over the sorted indices from the median on: the first one of an entry of the leader's own
-- term is committed.
commit_from : List ℕ → ServerState → Exec ServerState
commit_from [] s = pure s
commit_from (index ∷ rest) s =
    let next = commit_from rest s in
    if leb index s.commit_index
    then pure s
    else (must_get release (λ n. Woof.read n.log index) >>= λ entry.
        if entry.term == s.current_term
        then leave_joint (record s { commit_index = index })
        else next)

-- update_commit_index. Where it returns -1 its caller releases the lock and exits.
unfoldable pub update_commit_index : ServerState → Exec ServerState
unfolding commit_from
update_commit_index s =
    commit_from (drop (s.members / 2) (sort_indices (indices s.members 0 s.match_index))) s
