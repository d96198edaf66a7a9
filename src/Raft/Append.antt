-- ===== src/Raft/Append.antt =====
-- apps/raft/h_append_entries.c
pub mod Stays
pub mod Accept
pub mod Safety
pub mod Log
pub mod Replace
use cspot.Base.{
  ℕ, zero, suc, ◌+◌, ◌-◌, ◌%◌, ◌^◌, List, [], ◌∷◌, Option, none, some, Bool, true, false, not,
  if◌then◌else◌, ltb, ◌==◌, ◌&&◌, ◌||◌, Text, is_empty,
}
use cspot.Woof
use cspot.Raft.State.{
  Node, ServerState, Role, leader, follower, observer, stable, joint, EntryKind, plain, joint_entry,
  new_entry, AppendRequest, AppendResult, LogEntry, append_result, ConfigStatus,
}
use cspot.Raft.Exec.{
  Exec, crash, ◌>>=◌, ◌>>◌, pure, gets, lock_server, unlock_server, lock_log, unlock_log, release,
  release_both, must, must_get, must_step, try_call, try_get, latest_or_minus_one, stop, newest,
  put_state, put_heartbeat, put_timeout, put_entry, send, get_milliseconds, random_timeout,
}
use cspot.Raft.Config.{
  member_id, not_member, Decoded, decoded, refused, null_token, beyond, decode_config,
}

abbrev pub is_leader : Role → Bool
is_leader leader = true
is_leader _ = false

abbrev pub is_follower : Role → Bool
is_follower follower = true
is_follower _ = false

abbrev pub is_observer : Role → Bool
is_observer observer = true
is_observer _ = false

-- One committed entry: its handler is fired, and its topic, if it has one, is mapped to its index.
-- `false` is a failure to put to the topic's index map; a failure to fire the handler is only logged.
unfoldable pub map_entry : ℕ → LogEntry → Exec Bool
map_entry i entry = do
  fired ←
      if entry.is_handler
      then try_call (λ n. record n { handler_entries = entry.payload ∷ n.handler_entries })
      else pure true
  if is_empty entry.topic_name
      then pure true
      else try_call (λ n. record n { index_maps = (entry.topic_name, i) ∷ n.index_maps })

-- The loop of invoke_handler_and_map_topic_index over `left` entries from `i` on; `none` is -1. The
-- `i` of the code is an unsigned int.
map_committed : ℕ → ℕ → ServerState → Exec (Option ServerState)
map_committed zero i s = pure (some s)
map_committed (suc left) i s =
    let rest =
      map_committed left ((i + 1) % 2 ^ 32) (record s { last_checked_committed_entry = i }) in
    try_get (λ n. Woof.read n.log i) >>= λ found. elim found [
      | none ↦ pure none
      | some entry ↦ map_entry i entry >>= λ mapped. if mapped then rest else pure none
    ]

-- How many rounds there are. From a commit index of 2^32 - 1 on, the test never ends the loop: a read
-- fails, of a number past the newest entry, or, once `i` has wrapped, of one that the log holds no more.
abbrev pub map_rounds : ℕ → ℕ → ℕ
map_rounds first commit_index =
    if ltb commit_index (2 ^ 32 - 1) then commit_index + 1 - first else 2 ^ 33

-- invoke_handler_and_map_topic_index
unfoldable pub invoke_handler_and_map_topic_index : ServerState → Exec (Option ServerState)
unfolding map_committed
invoke_handler_and_map_topic_index s =
    let first = (s.last_checked_committed_entry + 1) % 2 ^ 32 in
    map_committed (map_rounds first s.commit_index) first s

-- a heartbeat now, and a timeout checker, with the clean-up of the place
unfoldable pub start_timeout : (Node → Node) → ServerState → Exec (Unit {0})
start_timeout clean s = do
  now ← get_milliseconds
  must clean (put_heartbeat (record { term = s.current_term; timestamp = now }))
  timeout ← random_timeout s
  must clean (put_timeout timeout)

-- the state after the request's term has been seen
unfoldable pub entered : AppendRequest → ServerState → ServerState
entered request s =
    let same_term = record s { role = follower; current_leader = request.leader_woof } in
    if ltb s.current_term request.term
    then record same_term { current_term = request.term; voted_for = [] }
    else same_term

-- Lines 99 to 146: an observer enters a higher term; any other server falls back to follower at a
-- higher term, or where it was not one.
unfoldable pub enter_term : AppendRequest → ServerState → Exec ServerState
enter_term request s =
    if is_observer s.role
    then (if ltb s.current_term request.term
        then (do
          let s' = record s { current_term = request.term; current_leader = request.leader_woof }
          must release (put_state s')
          pure s')
        else pure s)
    else if ltb s.current_term request.term
        || ((request.term == s.current_term) && not (is_follower s.role))
    then (do
      let s' = entered request s
      must release (put_state s')
      start_timeout release s'
      pure s')
    else pure s

-- member_id(…) < members on C integers: -1 is below every number of members.
unfoldable pub below_members : Option ℕ → ℕ → Bool
below_members none members = true
below_members (some m_id) members = ltb m_id members

abbrev pub config_of : EntryKind → ConfigStatus → ConfigStatus
config_of plain c = c
config_of joint_entry c = joint
config_of new_entry c = stable

-- the state that uses the configuration of log entry `seq`
abbrev pub configured : ServerState → EntryKind → ℕ → ℕ → (ℕ → Text) → ServerState
configured s kind seq members member_woofs = record s {
  members = members;
  last_config_seqno = seq;
  current_config = config_of kind s.current_config;
  member_woofs = member_woofs;
}

-- Lines 243 to 268: an observer starts as follower.
unfoldable pub promote : ServerState → Exec ServerState
promote s =
    if is_observer s.role && below_members (member_id s.woof_name s.member_woofs) s.members
    then (do let s' = record s { role = follower }; start_timeout release_both s'; pure s')
    else pure s

unfoldable pub adopt : EntryKind → ℕ → ServerState → Decoded → Exec ServerState
adopt kind seq s (decoded members member_woofs len) = do
  s' ← promote (configured s kind seq members member_woofs)
  must release_both (put_state s')
  pure s'
adopt kind seq s refused = stop release_both
adopt kind seq s null_token = λ n. (crash, n)
adopt kind seq s beyond = λ n. (crash, n)

abbrev pub adopt_kind : EntryKind → Text → ℕ → ServerState → Exec ServerState
adopt_kind plain payload seq s = pure s
adopt_kind joint_entry payload seq s = adopt joint_entry seq s (decode_config payload)
adopt_kind new_entry payload seq s = adopt new_entry seq s (decode_config payload)

-- Lines 224 to 285: a config entry takes effect as soon as it is in the log.
unfoldable pub adopt_config : LogEntry → ℕ → ServerState → Exec ServerState
adopt_config entry seq s = adopt_kind entry.is_config entry.payload seq s

-- the loop over the request's entries
unfoldable pub append_all : List LogEntry → ServerState → Exec ServerState
append_all [] s = pure s
append_all (entry ∷ entries) s = gets (λ n. n.log.seq_no) >>= λ seq.
    must release_both (put_entry entry)
    >> (adopt_config entry seq s >>= λ s'. append_all entries s')

-- Lines 191 to 204: the entries after prev_log_index are dropped, whatever they are.
unfoldable pub drop_conflicts : AppendRequest → ℕ → ServerState → Exec ServerState
drop_conflicts request last s =
    if ltb request.prev_log_index last
    then (do
      must_step release (λ n. elim (Woof.truncate n.log request.prev_log_index) [
        | none ↦ none
        | some log ↦ some (record n { log = log })
      ])
      pure (record s {
        commit_index =
            if ltb request.prev_log_index s.commit_index
            then request.prev_log_index
            else s.commit_index;
      }))
    else pure s

-- the commit index after the committed entries were mapped; `none` is a failure to map them
unfoldable pub commit_mapped : AppendRequest → ℕ → Option ServerState → Exec (Unit {0})
commit_mapped request last none = stop release
commit_mapped request last (some s) = must release (
    put_state (record s {
      commit_index = (if ltb last request.leader_commit then last else request.leader_commit);
    }))

-- Lines 301 to 324: committed entries are mapped, then the commit index moves.
unfoldable pub advance_commit : AppendRequest → ℕ → ServerState → Exec (Unit {0})
advance_commit request last s =
    if ltb s.commit_index request.leader_commit
    then (invoke_handler_and_map_topic_index s >>= λ mapped. commit_mapped request last mapped)
    else pure tt

abbrev pub reply : AppendRequest → ServerState → ℕ → ℕ → Bool → ℕ → AppendResult
reply request s seq_no term success last = record {
  server_woof = s.woof_name;
  term = term;
  success = success;
  last_entry_seq = last;
  seqno = seq_no;
  ack_seq = request.ack_seq;
}

-- Lines 190 to 324: the log matches at prev_log_index.
unfoldable pub replace_tail : AppendRequest → ℕ → ℕ → ServerState → Exec AppendResult
replace_tail request seq_no last s = do
  s1 ← drop_conflicts request last s
  lock_log
  s2 ← append_all request.entries s1
  last' ← must_get release_both (λ n. some (Woof.latest_seqno n.log))
  unlock_log
  advance_commit request last' s2
  pure (reply request s seq_no request.term true last')

-- the entry before the new ones has the term that the leader says
unfoldable pub prev_matches : AppendRequest → Exec Bool
prev_matches request = if request.prev_log_index == 0 then pure true else do
  entry ← must_get release (λ n. Woof.read n.log request.prev_log_index)
  pure (entry.term == request.prev_log_term)

-- The log must hold the entry before the new ones: `last` is its newest sequence number.
unfoldable pub check_prev : AppendRequest → ℕ → ℕ → ServerState → Exec AppendResult
check_prev request seq_no last s =
    if ltb last request.prev_log_index
    then pure (reply request s seq_no request.term false last)
    else do
      matches ← prev_matches request
      if matches
          then replace_tail request seq_no last s
          else pure (reply request s seq_no request.term false (request.prev_log_index - 1))

-- Lines 147 to 326: a request of the current leader.
unfoldable pub accept : AppendRequest → ℕ → ServerState → Exec AppendResult
accept request seq_no s = do
  now ← get_milliseconds
  must release (put_heartbeat (record { term = s.current_term; timestamp = now }))
  last ← latest_or_minus_one
  check_prev request seq_no last s

-- the critical section of h_append_entries for a leader in the configuration
unfoldable pub handle_append : AppendRequest → ℕ → ServerState → Exec AppendResult
handle_append request seq_no s =
    if ltb request.term s.current_term
    then (do
      last ← must_get release (λ n. some (Woof.latest_seqno n.log))
      pure (reply request s seq_no s.current_term false last))
    else if (request.term == s.current_term) && is_leader s.role
    then stop release
    else do s' ← enter_term request s; accept request seq_no s'

-- h_append_entries. A request from outside the configuration gets no answer.
unfoldable pub h_append_entries : AppendRequest → ℕ → Exec (Unit {0})
h_append_entries request seq_no = do
  lock_server
  s ← must_get release (λ n. newest n.states)
  if not_member (member_id request.leader_woof s.member_woofs) s.members then unlock_server else do
    result ← handle_append request seq_no s
    unlock_server
    sent ← try_call (send (append_result request.leader_woof result))
    pure tt
