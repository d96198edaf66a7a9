-- ===== src/Raft/Samples.antt =====
-- Replicas and requests for the tests.
use cspot.Base.{ℕ, zero, suc, ◌+◌, [], ◌∷◌, false, Text, codes}
use cspot.Woof.{Woof, create}
use cspot.Raft.State.{Node, Env, ServerState, follower, stable, LogEntry, plain, VoteRequest}

abbrev pub alice : Text
alice = codes "a"

abbrev pub bob : Text
bob = codes "b"

-- a and b, and nobody else
abbrev pub members_ab : ℕ → Text
members_ab zero = alice
members_ab (suc zero) = bob
members_ab (suc (suc i)) = []

abbrev pub state : ServerState
state = record {
  woof_name = alice;
  role = follower;
  current_term = 1;
  voted_for = [];
  current_leader = [];
  timeout_min = 10;
  timeout_max = 20;
  members = 2;
  observers = 0;
  member_woofs = members_ab;
  current_config = stable;
  last_config_seqno = 0;
  commit_index = 0;
  next_index = λ _. 1;
  match_index = λ _. 0;
  last_sent_timestamp = λ _. 0;
  last_sent_request_seq = λ _. 0;
  acked_request_seq = λ _. 0;
  last_checked_committed_entry = 0;
}

abbrev pub blank_entry : LogEntry
blank_entry = record {
  term = 0;
  topic_name = [];
  payload = [];
  is_config = plain;
  is_handler = false;
  ts_created = 0;
  ts_written = 0;
}

abbrev pub empty_log : Woof LogEntry
empty_log = create 8 blank_entry

-- an environment in which every call succeeds
abbrev pub sound : Env
sound = record {
  fails = λ _. false;
  clock = λ n. n + 1000;
  random = λ _. 3;
  remote = λ _. 1;
  lock_fails = λ _. false;
  unlock_fails = λ _. false;
  log_lock_fails = λ _. false;
  log_unlock_fails = λ _. false;
  stack = state;
}

abbrev pub replica : ServerState → Woof LogEntry → Node
replica s log = record {
  env = sound;
  calls = 0;
  server_lock = false;
  log_lock = false;
  states = s ∷ [];
  log = log;
  heartbeats = [];
  timeout_checkers = [];
  vote_results = [];
  append_results = [];
  put_requests = [];
  put_results = [];
  put_args = [];
  replicate_args = [];
  forward_args = [];
  handler_entries = [];
  index_maps = [];
  sent = [];
}

abbrev pub ballot_b : VoteRequest
ballot_b = record {
  term = 2;
  candidate_woof = bob;
  candidate_vote_pool_seqno = 0;
  last_log_index = 0;
  last_log_term = 0;
}
