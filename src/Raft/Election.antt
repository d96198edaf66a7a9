-- ===== src/Raft/Election.antt =====
-- apps/raft/h_timeout_checker.c and apps/raft/h_count_vote.c
pub mod Safety
pub mod Empty
pub mod Majority
use cspot.Base.{
  ℕ, zero, suc, ◌+◌, ◌-◌, ◌/◌, [], ◌∷◌, none, some, Bool, true, false, if◌then◌else◌, ltb, ◌==◌,
  ◌&&◌, ◌||◌, Text, codes, contains, add64, sub64, length,
}
use cspot.Woof
use cspot.Woof.Read.{element}
use cspot.Raft.State.{
  Node, ServerState, Role, leader, candidate, observer, shutdown, VoteRequest, VoteResult,
  vote_request,
}
use cspot.Raft.Exec.{
  Exec, ◌>>=◌, ◌>>◌, pure, lock_server, unlock_server, release, must, must_get, try_call, newest,
  put_state, put_heartbeat, put_timeout, send, get_milliseconds, random_timeout,
}
use cspot.Raft.Append.{is_leader}

-- experiment_cheat: only the named hosts may start the first election.
unfoldable pub experiment_cheat : Text → ℕ → Bool
experiment_cheat woof_name term =
    if ltb 0 term
    then true
    else if contains (codes "128.111.45.140") woof_name
        || contains (codes "128.111.45.119") woof_name
    then false
    else contains (codes "128.111.45") woof_name

-- no clean-up: the lock has been released
abbrev pub released : Node → Node
released n = n

abbrev pub ballot : ServerState → ℕ → ℕ → ℕ → VoteRequest
ballot s vote_pool_seqno last_log_index last_log_term = record {
  term = s.current_term;
  candidate_woof = s.woof_name;
  candidate_vote_pool_seqno = vote_pool_seqno;
  last_log_index = last_log_index;
  last_log_term = last_log_term;
}

-- request_vote for the `left` members from index `i` on. A failure is only logged.
request_votes : ℕ → ℕ → ServerState → VoteRequest → Exec (Unit {0})
request_votes zero i s request = pure tt
request_votes (suc left) i s request =
    try_call (send (vote_request (s.member_woofs i) request)) >>= λ sent.
    request_votes left (i + 1) s request

abbrev pub as_candidate : ServerState → ServerState
as_candidate s = record s {
  current_term = add64 s.current_term 1;
  role = candidate;
  current_leader = s.woof_name;
  voted_for = [];
}

-- Lines 138 to 186: after the lock has been released, a heartbeat, and the members are asked.
unfoldable pub ask_members : ServerState → Exec (Unit {0})
unfolding request_votes
ask_members s = do
  now ← get_milliseconds
  must released (put_heartbeat (record { term = add64 s.current_term 1; timestamp = now }))
  vote_pool_seqno ← must_get released (λ n. some (length n.vote_results))
  latest_log_entry ← must_get released (λ n. some (Woof.latest_seqno n.log))
  last_log_entry ← must_get released (λ n. Woof.read n.log latest_log_entry)
  request_votes s.members 0 s
      (ballot (as_candidate s) vote_pool_seqno latest_log_entry last_log_entry.term)

-- Lines 116 to 186: the timeout has passed. The new timeout value is returned.
unfoldable pub start_election : ServerState → Exec ℕ
start_election s = do
  timeout ← random_timeout s
  must release (put_state (as_candidate s))
  unlock_server
  ask_members s
  pure timeout

-- a leader, an observer or a server that is shut down has no timeout
unfoldable pub has_timeout : Role → Bool
has_timeout leader = false
has_timeout observer = false
has_timeout shutdown = false
has_timeout _ = true

-- Lines 102 to 198 of h_timeout_checker.
unfoldable pub check_timeout : ℕ → ServerState → Exec (Unit {0})
check_timeout timeout_value s = do
  heartbeat ← must_get release (λ n. newest n.heartbeats)
  now ← get_milliseconds
  next ←
      if ltb timeout_value (sub64 now heartbeat.timestamp)
        && experiment_cheat s.woof_name s.current_term
      then start_election s
      else do unlock_server; pure timeout_value
  must released (put_timeout next)

-- h_timeout_checker
unfoldable pub h_timeout_checker : ℕ → Exec (Unit {0})
h_timeout_checker timeout_value = do
  lock_server
  s ← must_get release (λ n. newest n.states)
  if has_timeout s.role then check_timeout timeout_value s else unlock_server

-- RAFT_WOOF_HISTORY_SIZE_SHORT, the size of the vote result WooF
abbrev pub history_size_short : ℕ
history_size_short = 256

abbrev pub counts : VoteResult → ℕ → Bool
counts vote term = vote.granted && (vote.term == term)

-- the loop over the `left` votes from `vote_seq` on, until `majority` is passed
count_votes : ℕ → ℕ → ℕ → ℕ → ℕ → Exec ℕ
count_votes zero vote_seq term majority granted_votes = pure granted_votes
count_votes (suc left) vote_seq term majority granted_votes =
    let counted = count_votes left (vote_seq + 1) term majority (granted_votes + 1) in
    let skipped = count_votes left (vote_seq + 1) term majority granted_votes in
    must_get release (λ n. element history_size_short n.vote_results vote_seq) >>= λ vote.
    if counts vote term
    then (if ltb majority (granted_votes + 1) then pure (granted_votes + 1) else counted)
    else skipped

-- the first half of start_routines: h_replicate_entries is queued
unfoldable pub queue_replicate : ServerState → Exec (Unit {0})
queue_replicate s = do
  last ← must_get release (λ n. some (newest n.replicate_args))
  replicate ← elim last [
    | none ↦ pure 0
    | some arg ↦ must_get release (λ n. some arg.last_seen_result_seqno)
  ]
  started ← try_call (λ n. record n {
    replicate_args =
        record { term = s.current_term; last_seen_result_seqno = replicate } ∷ n.replicate_args;
  })
  pure tt

-- the second half: h_forward_put_result is queued
unfoldable pub queue_forward : ServerState → Exec (Unit {0})
queue_forward s = do
  last ← must_get release (λ n. some (newest n.forward_args))
  forwarded ← elim last [
    | none ↦ pure 0
    | some arg ↦ must_get release (λ n. some arg.last_forwarded_put_result)
  ]
  forwarding ← try_call (λ n. record n {
    forward_args =
        record { term = s.current_term; last_forwarded_put_result = forwarded } ∷ n.forward_args;
  })
  pure tt

-- start_routines. Its `seq` is 32 bits wide, so that the test for a failed WooFPut never holds:
-- only the failure to read the last arguments is seen.
unfoldable pub start_routines : ServerState → Exec (Unit {0})
start_routines s = do queue_replicate s; queue_forward s

abbrev pub as_leader : ServerState → ℕ → ℕ → ServerState
as_leader s term last_log_entry_seqno = record s {
  current_term = term;
  role = leader;
  current_leader = s.woof_name;
  voted_for = s.woof_name;
  next_index = λ _. add64 last_log_entry_seqno 1;
  match_index = λ _. 0;
  last_sent_timestamp = λ _. 0;
  last_sent_request_seq = λ _. 0;
  acked_request_seq = λ _. 0;
}

-- Lines 123 to 160: the server becomes leader of the vote's term.
unfoldable pub become_leader : ℕ → ServerState → Exec (Unit {0})
become_leader term s = do
  last ← must_get release (λ n. some (Woof.latest_seqno n.log))
  must release (put_state (as_leader s term last))
  start_routines (as_leader s term last)
  unlock_server

-- Lines 97 to 161: the votes put since the election began are counted.
unfoldable pub tally : VoteResult → ℕ → ServerState → Exec (Unit {0})
unfolding count_votes
tally result seq_no s = do
  let first = result.candidate_vote_pool_seqno + 1
  granted_votes ←
      count_votes (seq_no - first) first result.term (s.members / 2)
        (if result.granted then 1 else 0)
  if ltb (s.members / 2) granted_votes then become_leader result.term s else unlock_server

-- h_count_vote
unfoldable pub h_count_vote : VoteResult → ℕ → Exec (Unit {0})
h_count_vote result seq_no = do
  lock_server
  s ← must_get release (λ n. newest n.states)
  if result.term == 0
      then (do must release (put_state (record s { role = shutdown })); unlock_server)
      else if ltb result.term s.current_term
          || ((result.term == s.current_term) && is_leader s.role)
      then unlock_server
      else tally result seq_no s
