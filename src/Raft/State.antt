-- ===== src/Raft/State.antt =====
-- The structures of apps/raft/include/raft.h, and what one replica holds in its WooFs.
use cspot.Base.{ℕ, List, Bool, Text}
use cspot.Woof.{Woof}

-- RAFT_LEADER .. RAFT_SHUTDOWN
pub data Role : Type 0 where
  leader follower candidate observer shutdown : Role

-- RAFT_CONFIG_STATUS_STABLE, RAFT_CONFIG_STATUS_JOINT
pub data ConfigStatus : Type 0 where
  stable joint : ConfigStatus

-- RAFT_CONFIG_ENTRY_NOT, RAFT_CONFIG_ENTRY_JOINT, RAFT_CONFIG_ENTRY_NEW
pub data EntryKind : Type 0 where
  plain joint_entry new_entry : EntryKind

abbrev pub max_members : ℕ
max_members = 8

abbrev pub max_observers : ℕ
max_observers = 2

abbrev pub max_entries_per_request : ℕ
max_entries_per_request = 64

-- RAFT_LOG_ENTRY
pub record LogEntry : Type 0 where
  pub term : ℕ
  pub topic_name : Text
  pub payload : Text
  pub is_config : EntryKind
  pub is_handler : Bool
  pub ts_created : ℕ
  pub ts_written : ℕ

-- RAFT_SERVER_STATE; the arrays are functions of the member's index.
pub record ServerState : Type 0 where
  pub woof_name : Text
  pub role : Role
  pub current_term : ℕ
  pub voted_for : Text
  pub current_leader : Text
  pub timeout_min : ℕ
  pub timeout_max : ℕ
  pub members : ℕ
  pub observers : ℕ
  pub member_woofs : ℕ → Text
  pub current_config : ConfigStatus
  pub last_config_seqno : ℕ
  pub commit_index : ℕ
  pub next_index : ℕ → ℕ
  pub match_index : ℕ → ℕ
  pub last_sent_timestamp : ℕ → ℕ
  pub last_sent_request_seq : ℕ → ℕ
  pub acked_request_seq : ℕ → ℕ
  pub last_checked_committed_entry : ℕ

-- RAFT_HEARTBEAT
pub record Heartbeat : Type 0 where
  pub term : ℕ
  pub timestamp : ℕ

-- RAFT_REQUEST_VOTE_ARG
pub record VoteRequest : Type 0 where
  pub term : ℕ
  pub candidate_woof : Text
  pub candidate_vote_pool_seqno : ℕ
  pub last_log_index : ℕ
  pub last_log_term : ℕ

-- RAFT_REQUEST_VOTE_RESULT
pub record VoteResult : Type 0 where
  pub term : ℕ
  pub granted : Bool
  pub candidate_vote_pool_seqno : ℕ
  pub granter : Text

-- RAFT_APPEND_ENTRIES_ARG with the `num_entries` entries that follow it
pub record AppendRequest : Type 0 where
  pub term : ℕ
  pub leader_woof : Text
  pub entries : List LogEntry
  pub prev_log_index : ℕ
  pub prev_log_term : ℕ
  pub leader_commit : ℕ
  pub ack_seq : ℕ

-- RAFT_APPEND_ENTRIES_RESULT
pub record AppendResult : Type 0 where
  pub server_woof : Text
  pub term : ℕ
  pub success : Bool
  pub last_entry_seq : ℕ
  pub seqno : ℕ
  pub ack_seq : ℕ

-- RAFT_CLIENT_PUT_REQUEST
pub record PutRequest : Type 0 where
  pub payload : Text
  pub is_handler : Bool
  pub extra_woof : Text
  pub extra_seqno : ℕ
  pub topic_name : Text
  pub callback_woof : Text
  pub callback_handler : Text
  pub ts_created : ℕ

-- RAFT_CLIENT_PUT_RESULT
pub record PutResult : Type 0 where
  pub source : Text
  pub redirected_target : Text
  pub redirected_seqno : ℕ
  pub index : ℕ
  pub term : ℕ
  pub extra_woof : Text
  pub extra_seqno : ℕ

-- RAFT_REPLICATE_ENTRIES_ARG, without `last_ts`, which is only written
pub record ReplicateArg : Type 0 where
  pub term : ℕ
  pub last_seen_result_seqno : ℕ

-- RAFT_FORWARD_PUT_RESULT_ARG
pub record ForwardArg : Type 0 where
  pub term : ℕ
  pub last_forwarded_put_result : ℕ

-- A WooFPut to another replica's namespace, "target/woof", with the handler it fires there, or to a client's
-- WooF with the client's handler, which may be empty.
pub data Message : Type 0 where
  vote_request : Text → VoteRequest → Message
  vote_result : Text → VoteResult → Message
  append_request : Text → AppendRequest → Message
  append_result : Text → AppendResult → Message
  put_request : Text → PutRequest → Message
  put_callback : Text → Text → PutResult → Message

-- What the replica does not decide: whether the nth call into CSPOT fails, whether the put of a lock or of
-- an unlock after the nth call fails, what the nth reading of
-- the clock is, the nth number of rand(), the sequence number that another
-- replica's WooF gives, and what the stack holds where a wrong address is put.
pub record Env : Type 0 where
  pub fails : ℕ → Bool
  pub clock : ℕ → ℕ
  pub random : ℕ → ℕ
  pub remote : ℕ → ℕ
  pub lock_fails : ℕ → Bool
  pub unlock_fails : ℕ → Bool
  pub log_lock_fails : ℕ → Bool
  pub log_unlock_fails : ℕ → Bool
  pub stack : ServerState

-- The replica's WooFs. All but the log are only appended to: each is the list of its elements,
-- newest first. `server_lock` and `log_lock` say whether the lock is held.
pub record Node : Type 0 where
  pub env : Env
  pub calls : ℕ
  pub server_lock : Bool
  pub log_lock : Bool
  pub states : List ServerState
  pub log : Woof LogEntry
  pub heartbeats : List Heartbeat
  pub timeout_checkers : List ℕ
  pub vote_results : List VoteResult
  pub append_results : List AppendResult
  pub put_requests : List PutRequest
  pub put_results : List PutResult
  pub put_args : List ℕ
  pub replicate_args : List ReplicateArg
  pub forward_args : List ForwardArg
  pub handler_entries : List Text
  pub index_maps : List (Text × ℕ)
  pub sent : List Message

-- RAFT_CONFIG_CHANGE_ARG
pub record ConfigChange : Type 0 where
  pub members : ℕ
  pub member_woofs : ℕ → Text
  pub observe : Bool
  pub observer_woof : Text

-- RAFT_CONFIG_CHANGE_RESULT
pub record ConfigResult : Type 0 where
  pub redirected : Bool
  pub success : Bool
  pub current_leader : Text
