-- ===== src/Raft/Replicate.antt =====
-- apps/raft/h_replicate_entries.c: what a leader sends, and the answers that it reads.
use cspot.Base.{
  ℕ, zero, suc, ◌+◌, ◌-◌, ◌/◌, List, [], ◌∷◌, none, some, Bool, false, if◌then◌else◌, ltb, leb,
  ◌==◌, ◌&&◌, ◌||◌, Text, same, add64, sub64, length, update,
}
use cspot.Woof
use cspot.Woof.Read.{element}
use cspot.Raft.State.{
  ServerState, follower, AppendRequest, AppendResult, append_request, LogEntry, ReplicateArg,
  max_members, max_observers, max_entries_per_request,
}
use cspot.Raft.Exec.{
  Exec, ◌>>=◌, ◌>>◌, pure, lock_server, unlock_server, release, must, must_get, try_call, try_get,
  stop, newest, put_state, send, get_milliseconds,
}
use cspot.Raft.Config.{member_id}
use cspot.Raft.Append.{is_leader, map_entry, start_timeout}
use cspot.Raft.Election.{released, history_size_short}
use cspot.Raft.Commit.{update_commit_index}

-- the loop that reads the `left` entries to send, from number `i` on
read_entries : ℕ → ℕ → Exec (List LogEntry)
read_entries zero i = pure []
read_entries (suc left) i =
    let rest = read_entries left (i + 1) in
    must_get release (λ n. Woof.read n.log i) >>= λ entry. get_milliseconds >>= λ now.
    rest >>= λ entries. pure (record entry { ts_written = now } ∷ entries)

-- the term of the entry before the ones that are sent
unfoldable pub prev_term : ℕ → Exec ℕ
prev_term prev_log_index =
    if prev_log_index == 0
    then pure 0
    else do entry ← must_get release (λ n. Woof.read n.log prev_log_index); pure entry.term

-- replicate_thread: where the put fails, a failed answer is put in the member's stead.
unfoldable pub replicate_thread : Text → AppendRequest → Exec (Unit {0})
replicate_thread member_woof request = do
  sent ← try_call (send (append_request member_woof request))
  if sent then pure tt else do
    last ← try_get (λ n. some (Woof.latest_seqno n.log))
    elim last [
      | none ↦ pure tt
      | some last_log_entry_seqno ↦ (do
        failed ← try_call (λ n. record n {
          append_results =
              record {
                server_woof = member_woof;
                term = request.term;
                success = false;
                last_entry_seq = last_log_entry_seqno;
                seqno = 0;
                ack_seq = 0;
              }
              ∷ n.append_results;
        })
        pure tt)
    ]

-- num_entries: at most RAFT_MAX_ENTRIES_PER_REQUEST, with the wrap of `unsigned long`
unfoldable pub entries_to_send : ℕ → ℕ → ℕ
entries_to_send last next =
    let num_entries = add64 (sub64 last next) 1 in
    if ltb max_entries_per_request num_entries then max_entries_per_request else num_entries

-- Lines 341 to 397: a request to member `m`.
unfoldable pub send_to : ℕ → ℕ → ServerState → Exec ServerState
unfolding read_entries
send_to m num_entries s = do
  let prev_log_index = sub64 (s.next_index m) 1
  prev_log_term ← prev_term prev_log_index
  entries ← read_entries num_entries (s.next_index m)
  replicate_thread (s.member_woofs m) (record {
    term = s.current_term;
    leader_woof = s.woof_name;
    entries = entries;
    prev_log_index = prev_log_index;
    prev_log_term = prev_log_term;
    leader_commit = s.commit_index;
    ack_seq = add64 (s.last_sent_request_seq m) 1;
  })
  now ← get_milliseconds
  pure (record s {
    last_sent_timestamp = update s.last_sent_timestamp m now;
    last_sent_request_seq = update s.last_sent_request_seq m (add64 (s.last_sent_request_seq m) 1);
  })

-- a slot of the array that holds neither a member nor an observer
unfoldable pub is_unused : ℕ → ServerState → Bool
is_unused m s = (leb s.members m && ltb m max_members) || leb (max_members + s.observers) m

-- Lines 328 to 398: one member.
unfoldable pub replicate_to : ℕ → ℕ → ServerState → Exec ServerState
replicate_to m last s =
    if is_unused m s
    then pure s
    else if same (s.member_woofs m) s.woof_name
    then pure (record s { match_index = update s.match_index m last })
    else do
      let num_entries = entries_to_send last (s.next_index m)
      now ← get_milliseconds
      if (ltb 0 num_entries && (s.acked_request_seq m == s.last_sent_request_seq m))
            || ltb (s.timeout_min / 2) (sub64 now (s.last_sent_timestamp m))
          then send_to m num_entries s
          else pure s

-- the loop over the `left` slots from `m` on
replicate_all : ℕ → ℕ → ℕ → ServerState → Exec ServerState
replicate_all zero m last s = pure s
replicate_all (suc left) m last s =
    replicate_to m last s >>= λ s'. replicate_all left (m + 1) last s'

-- What check_append_result returns: 1, or 0 with the state and the last answer seen. Where it
-- returns -1 the handler releases its lock and exits.
pub data Checked : Type 0 where
  stepped_down : Checked
  checked : ServerState → ℕ → Checked

-- Lines 201 to 227.
unfoldable pub step_down : AppendResult → ServerState → Exec Checked
step_down result s = do
  let s' = record s {
    current_term = result.term;
    role = follower;
    current_leader = result.server_woof;
    voted_for = [];
  }
  must release (put_state s')
  start_timeout release s'
  pure stepped_down

-- Lines 229 to 237: an answer to a request of this term.
unfoldable pub acknowledge : AppendResult → ℕ → ℕ → ServerState → ServerState
acknowledge result member term s =
    if result.term == term
    then record s {
      next_index = update s.next_index member (add64 result.last_entry_seq 1);
      acked_request_seq = update s.acked_request_seq member result.ack_seq;
      match_index =
          if result.success
          then update s.match_index member result.last_entry_seq
          else s.match_index;
    }
    else s

-- the loop of check_append_result over `left` answers from `result_seq` on
check_results : ℕ → ℕ → ℕ → ℕ → ServerState → Exec Checked
check_results zero result_seq seen term s = pure (checked s seen)
check_results (suc left) result_seq seen term s =
    let next = check_results left (result_seq + 1) result_seq term in
    must_get release (λ n. element history_size_short n.append_results result_seq) >>= λ result.
    elim (member_id result.server_woof s.member_woofs) [
      | none ↦ next s
      | some member ↦
          if ltb member s.members && ltb s.current_term result.term
          then step_down result s
          else next (acknowledge result member term s)
    ]

-- check_append_result
unfoldable pub check_append_result : ReplicateArg → ServerState → Exec Checked
unfolding check_results
check_append_result arg s = do
  last ← must_get release (λ n. some (length n.append_results))
  check_results (last - arg.last_seen_result_seqno) (arg.last_seen_result_seqno + 1)
      arg.last_seen_result_seqno arg.term s

-- invoke_commit_handler_and_map_topic_index over `left` entries from `i` on, for a commit index below
-- 2^32 - 1: the `i` of the code is an unsigned int, and from there on its test never ends the loop. An entry that cannot be
-- read is passed over; where the index map cannot be put, the process exits and keeps its lock.
map_committed : ℕ → ℕ → ServerState → Exec ServerState
map_committed zero i s = pure s
map_committed (suc left) i s =
    let rest = map_committed left (i + 1) (record s { last_checked_committed_entry = i }) in
    try_get (λ n. Woof.read n.log i) >>= λ found. elim found [
      | none ↦ rest
      | some entry ↦ map_entry i entry >>= λ mapped. if mapped then rest else stop released
    ]

-- Lines 412 to 441: the commit index moves, committed entries are mapped, and the handler is queued
-- again.
unfoldable pub finish : ReplicateArg → ServerState → ℕ → Exec (Unit {0})
unfolding map_committed
finish arg s last_seen = do
  s1 ← update_commit_index s
  s2 ←
      map_committed (s1.commit_index - s1.last_checked_committed_entry)
        (s1.last_checked_committed_entry + 1) s1
  must release (put_state s2)
  unlock_server
  must released (λ n. record n {
    replicate_args = record arg { last_seen_result_seqno = last_seen } ∷ n.replicate_args;
  })

-- Lines 309 to 441. The handler exits without its lock released where the log's latest number
-- cannot be read.
unfoldable pub replicate : ReplicateArg → ServerState → Exec (Unit {0})
unfolding replicate_all
replicate arg s = do
  last ← must_get released (λ n. some (Woof.latest_seqno n.log))
  s1 ← replicate_all (max_members + max_observers) 0 last s
  outcome ← check_append_result arg s1
  elim outcome [ stepped_down ↦ unlock_server | checked s2 last_seen ↦ finish arg s2 last_seen ]

-- h_replicate_entries
unfoldable pub h_replicate_entries : ReplicateArg → Exec (Unit {0})
h_replicate_entries arg = do
  lock_server
  s ← must_get release (λ n. newest n.states)
  if (s.current_term == arg.term) && is_leader s.role then replicate arg s else unlock_server
