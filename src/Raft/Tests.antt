-- ===== src/Raft/Tests.antt =====
-- Runs of the Raft handlers, and the theorems about them at concrete replicas.
use cspot.Base.{codes, ◌≤◌, ◌<◌, refl, arith, [], ◌∷◌, true, ◌≡◌, same, is_empty}
use cspot.Woof.{Woof, create, append, latest_seqno}
use cspot.Woof.History.{Shows, create-Shows, append-Shows}
use cspot.Raft.State.{
  new_entry, Node, ServerState, leader, candidate, LogEntry, VoteResult, AppendRequest,
  AppendResult,
}
use cspot.Raft.Exec.{exit}
use cspot.Raft.Ballot.{Keeps, current}
use cspot.Raft.Vote.{
  h_request_vote, decide_vote, fall_back, restart_timeout, cast_vote, last_entry, is_ahead,
}
use cspot.Raft.Config.{
  decode_config, decode_tokens, tokens, tokens_from, strtol, strtol_signed, strtol_from,
  decode_members, not_member, member_id,
}
use cspot.Raft.Vote.Grant.{Granted}
use cspot.Raft.Vote.Answer.{h_request_vote-Granted}
use cspot.Raft.Append.{
  h_append_entries, accept, check_prev, prev_matches, replace_tail, drop_conflicts, append_all,
  adopt_config, advance_commit,
}
use cspot.Raft.Append.Replace.{Answers, accept-Answers}
use cspot.Raft.Append.Safety.{Fit, h_append_entries-Keeps}
use cspot.Raft.Election.Safety.{h_timeout_checker-Keeps}
use cspot.Raft.Election.Empty.{h_timeout_checker-empty}
use cspot.Raft.Election.{
  h_timeout_checker, has_timeout, experiment_cheat, h_count_vote, tally, become_leader,
  start_routines, queue_replicate, queue_forward,
}
use cspot.Woof.Read.{element}
use cspot.Raft.ClientPut.{h_client_put}
use cspot.Raft.Commit.{
  update_commit_index, indices, sort_indices, insert_index, comp_index, leave_joint,
}
use cspot.Raft.Commit.Majority.{at_least, update_commit_index-Majority}
use cspot.Raft.Election.Majority.{votes_for, h_count_vote-Majority}
use cspot.Raft.Run.{stay, step, client_put, one_vote_per_term}
use cspot.Raft.Samples.{alice, bob, state, blank_entry, empty_log, replica, ballot_b}

abbrev granted_b : VoteResult
granted_b = record { term = 2; granted = true; candidate_vote_pool_seqno = 0; granter = alice }

h_request_vote-Granted_example :
    (bob ≡ bob)
    × Granted ballot_b granted_b empty_log
        (h_request_vote ballot_b (replica state empty_log)).1.states
unfolding h_request_vote decide_vote not_member member_id same fall_back restart_timeout cast_vote
    is_empty last_entry latest_seqno create is_ahead
h_request_vote-Granted_example =
    h_request_vote-Granted ballot_b state (replica state empty_log) bob granted_b refl refl refl

-- after the vote for bob
abbrev voted : Node
voted = (h_request_vote ballot_b (replica state empty_log)).1

abbrev state_b : ServerState
state_b = record state { current_term = 2; voted_for = bob; current_leader = bob }

abbrev voted_and_put : Node
voted_and_put = (h_client_put 0 voted).1

one_vote_per_term_example : bob ≡ bob
unfolding h_request_vote decide_vote not_member member_id same fall_back restart_timeout cast_vote
    is_empty last_entry latest_seqno create is_ahead h_client_put
one_vote_per_term_example =
    one_vote_per_term (replica state empty_log) voted_and_put state state_b ballot_b ballot_b bob
      bob granted_b granted_b refl refl refl (step state_b refl (client_put 0) stay) refl refl refl
      (λ e. absurd (ground arith)) refl

-- bob's first entry, in term 2
abbrev first_entry : AppendRequest
first_entry = record {
  term = 2;
  leader_woof = bob;
  entries = record blank_entry { term = 2 } ∷ [];
  prev_log_index = 0;
  prev_log_term = 0;
  leader_commit = 0;
  ack_seq = 0;
}

-- an entry with the configuration of one member, b
abbrev config_request : AppendRequest
config_request = record first_entry {
  entries = record blank_entry { is_config = new_entry; payload = codes "1;b;" } ∷ [];
}

config_fits : Fit config_request.entries
unfolding decode_config decode_tokens tokens tokens_from is_empty strtol strtol_signed strtol_from
    decode_members
config_fits = (λ _ e. absurd (ground arith), tt)

h_append_entries-Keeps_example :
    Keeps state
      (current state (h_append_entries config_request 1 (replica state empty_log)).1.states)
h_append_entries-Keeps_example =
    h_append_entries-Keeps config_request 1 state (replica state empty_log) config_fits refl

h_timeout_checker-Keeps_example :
    Keeps state (current state (h_timeout_checker 10 (replica state empty_log)).1.states)
h_timeout_checker-Keeps_example =
    h_timeout_checker-Keeps 10 state (replica state empty_log) refl (omega arith)

-- a replica that has not heard from a leader since the clock began
abbrev lonely : Node
lonely = record (replica state empty_log) { heartbeats = record { term = 1; timestamp = 0 } ∷ [] }

h_timeout_checker-empty_example :
    ((h_timeout_checker 10 lonely).0 ≡ exit)
    × ((h_timeout_checker 10 lonely).1.timeout_checkers ≡ [])
unfolding create experiment_cheat has_timeout
h_timeout_checker-empty_example =
    h_timeout_checker-empty 10 state lonely (record { term = 1; timestamp = 0 }) refl refl refl refl
      refl refl

abbrev term_1 : LogEntry
term_1 = record blank_entry { term = 1 }

abbrev log_1 : Woof LogEntry
log_1 = append empty_log term_1

one_entry : Shows log_1 (term_1 ∷ [])
one_entry =
    append-Shows empty_log [] (create-Shows 8 blank_entry (omega arith) (omega arith)) (omega arith)
      term_1

-- one entry after the entry of term 1
abbrev second_entry : AppendRequest
second_entry = record first_entry {
  entries = record blank_entry { term = 2 } ∷ [];
  prev_log_index = 1;
  prev_log_term = 1;
}

abbrev accepted : AppendResult
accepted = record {
  server_woof = alice;
  term = 2;
  success = true;
  last_entry_seq = 2;
  seqno = 1;
  ack_seq = 0;
}

accept-Answers_example :
    Answers second_entry
      (term_1 ∷ [])
      (replica state_b log_1)
      (accept second_entry 1 state_b (replica state_b log_1)).1
      accepted
unfolding accept check_prev append create prev_matches cspot.Woof.read cspot.Woof.read_at
    cspot.Woof.get_earliest latest_seqno replace_tail drop_conflicts append_all adopt_config
    advance_commit
accept-Answers_example =
    accept-Answers second_entry 1 state_b (replica state_b log_1) (term_1 ∷ []) accepted one_entry
      (omega arith) (λ e. absurd (omega arith)) (omega arith) refl refl

-- a leader in term 1 that knows the entry of term 1 to be at both members
abbrev leading : ServerState
leading = record state { role = leader; match_index = λ _. 1 }

update_commit_index-Majority_example :
    (0 < 1) × (1 < at_least 1 (indices 2 0 leading.match_index)) × (term_1.term ≡ 1)
unfolding update_commit_index sort_indices indices insert_index comp_index cspot.Woof.read
    cspot.Woof.read_at cspot.Woof.get_earliest append create latest_seqno leave_joint
update_commit_index-Majority_example =
    update_commit_index-Majority leading (record leading { commit_index = 1 })
      (replica leading log_1) term_1 (λ i h. omega arith) refl (λ e. absurd (omega arith)) refl

abbrev candidate_a : ServerState
candidate_a = record state { role = candidate; current_term = 2 }

-- a candidate for term 2 whose second vote has come in
abbrev elected : Node
elected = record (replica candidate_a empty_log) { vote_results = granted_b ∷ granted_b ∷ [] }

h_count_vote-Majority_example :
    (1 < votes_for granted_b 2 candidate_a elected.vote_results)
    × ((current candidate_a (h_count_vote granted_b 2 elected).1.states).current_term ≡ 2)
    × (2 ≤ 2)
unfolding h_count_vote tally element become_leader start_routines queue_replicate queue_forward
h_count_vote-Majority_example =
    h_count_vote-Majority granted_b 2 candidate_a elected refl (λ e. absurd (ground arith)) refl
