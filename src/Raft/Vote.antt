-- ===== src/Raft/Vote.antt =====
-- apps/raft/h_request_vote.c
pub mod Safety
pub mod Grant
pub mod Answer
use cspot.Base.{
  ℕ, ◌+◌, ◌%◌, List, [], ◌∷◌, Option, none, some, Bool, true, false, if◌then◌else◌, ltb, ◌==◌, ◌&&◌,
  ◌||◌, Text, same, is_empty,
}
use cspot.Woof
use cspot.Raft.State.{
  Node, ServerState, Role, follower, shutdown, VoteRequest, VoteResult, LogEntry, Heartbeat,
  vote_result,
}
use cspot.Raft.Exec.{
  Exec, done, exit, ◌>>=◌, ◌>>◌, pure, gets, lock_server, unlock_server, release, must, must_get,
  try_call, newest, put_state, put_heartbeat, put_timeout, send, get_milliseconds, random_timeout,
}
use cspot.Raft.Config.{member_id, not_member}

-- the state of a server that falls back to follower at a higher term
abbrev pub fallen_back : ServerState → ℕ → Text → ServerState
fallen_back s term leader_woof = record s {
  current_term = term;
  role = follower;
  current_leader = leader_woof;
  voted_for = [];
}

-- a new heartbeat and a new timeout checker after a fall back
unfoldable pub restart_timeout : ServerState → Exec (Unit {0})
restart_timeout s = do
  now ← get_milliseconds
  must release (put_heartbeat (record { term = s.current_term; timestamp = now }))
  timeout ← random_timeout s
  must release (put_timeout timeout)

-- `if (request->term > server_state.current_term)`
unfoldable pub fall_back : VoteRequest → ServerState → Exec ServerState
fall_back request s =
    if ltb s.current_term request.term
    then (do
      let s' = fallen_back s request.term request.candidate_woof
      must release (put_state s')
      restart_timeout s'
      pure s')
    else pure s

-- The newest entry of the log with its number; number 0, and the zero term, for an empty log.
unfoldable pub last_entry : Exec (ℕ × ℕ)
last_entry = do
  latest ← must_get release (λ n. some (Woof.latest_seqno n.log))
  if latest == 0
      then pure (0, 0)
      else do entry ← must_get release (λ n. Woof.read n.log latest); pure (latest, entry.term)

-- Whether the server's log is ahead of the candidate's.
unfoldable pub is_ahead : ℕ → ℕ → VoteRequest → Bool
is_ahead latest term request =
    ltb 0 latest
    && (ltb request.last_log_term term
        || ((term == request.last_log_term) && ltb request.last_log_index latest))

abbrev pub answer : VoteRequest → ℕ → Bool → Text → VoteResult
answer request term granted granter = record {
  term = term;
  granted = granted;
  candidate_vote_pool_seqno = request.candidate_vote_pool_seqno;
  granter = granter;
}

-- the vote once the request's term is not behind the server's
unfoldable pub cast_vote : VoteRequest → ServerState → Exec VoteResult
cast_vote request s =
    if is_empty s.voted_for || same s.voted_for request.candidate_woof
    then (do
      (latest, term) ← last_entry
      if is_ahead latest term request then pure (answer request s.current_term false []) else do
        must release (put_state (record s { voted_for = request.candidate_woof }))
        pure (answer request s.current_term true s.woof_name))
    else pure (answer request s.current_term false [])

-- the critical section of h_request_vote
unfoldable pub decide_vote : VoteRequest → ServerState → Exec VoteResult
decide_vote request s =
    if not_member (member_id request.candidate_woof s.member_woofs) s.members
    then pure (answer request 0 false [])
    else if ltb request.term s.current_term
    then pure (answer request s.current_term false [])
    else do s' ← fall_back request s; cast_vote request s'

is_shutdown : Role → Bool
is_shutdown shutdown = true
is_shutdown _ = false

-- h_request_vote. A failure to return the result is only logged.
unfoldable pub h_request_vote : VoteRequest → Exec (Unit {0})
unfolding is_shutdown
h_request_vote request = do
  lock_server
  s ← must_get release (λ n. newest n.states)
  if is_shutdown s.role then unlock_server else do
    result ← decide_vote request s
    unlock_server
    sent ← try_call (send (vote_result request.candidate_woof result))
    pure tt
