-- ===== src/Dht/State.antt =====
-- The structures of apps/dht/include/dht.h, and what one node holds in its WooFs.
use cspot.Base.{ℕ, List, Bool, Option, Text}
use cspot.Dht.Ring.{Hash}

-- DHT_SUCCESSOR_LIST_R
abbrev pub successor_list_r : ℕ
successor_list_r = 3

-- SHA_DIGEST_LENGTH * 8
abbrev pub finger_count : ℕ
finger_count = 160

-- DHT_CACHE_SIZE
abbrev pub cache_size : ℕ
cache_size = 32

-- char replicas[DHT_REPLICA_NUMBER][DHT_NAME_LENGTH]
abbrev pub Replicas : Type 0
Replicas = ℕ → Text

-- DHT_NODE_INFO, without the name, which is only printed; a leader_id of -1, which d_daemon stores
-- while the replicas have no leader, is left out
pub record NodeInfo : Type 0 where
  pub hash : Hash
  pub addr : Text
  pub replicas : Replicas
  pub replica_id : ℕ
  pub leader_id : ℕ

-- DHT_PREDECESSOR_INFO and DHT_FINGER_INFO, which have the same fields
pub record Peer : Type 0 where
  pub hash : Hash
  pub replicas : Replicas
  pub leader : ℕ

-- DHT_SUCCESSOR_INFO, its arrays as functions of the place in the successor list
pub record SuccessorInfo : Type 0 where
  pub hash : ℕ → Hash
  pub replicas : ℕ → Replicas
  pub leader : ℕ → ℕ

-- DHT_ACTION_NONE .. DHT_ACTION_PUBLISH
pub data FindAction : Type 0 where
  no_action find_node join fix_finger register_topic subscribe publish : FindAction

-- DHT_FIND_SUCCESSOR_ARG, without `ts_found`, which is only written
pub record FindArg : Type 0 where
  pub key : Text
  pub hashed_key : Hash
  pub action : FindAction
  pub action_namespace : Text
  pub action_seqno : ℕ
  pub callback_namespace : Text
  pub ts_created : ℕ

-- DHT_JOIN_ARG; the node is the successor found, the replier the node that answers
pub record JoinArg : Type 0 where
  pub node : Peer
  pub replier : Peer
  pub serialized_config : Text

-- DHT_FIX_FINGER_CALLBACK_ARG
pub record FixFingerResult : Type 0 where
  pub finger_index : ℕ
  pub node : Peer

-- DHT_GET_PREDECESSOR_ARG, without the callback's handler, which is always h_stabilize_callback
pub record GetPredecessorArg : Type 0 where
  pub callback_woof : Text

-- DHT_STABILIZE_CALLBACK_ARG
pub record StabilizeResult : Type 0 where
  pub predecessor : Peer
  pub successor_leader_id : ℕ

-- DHT_NOTIFY_ARG, without the callback's handler, which is always h_notify_callback
pub record NotifyArg : Type 0 where
  pub node : Peer
  pub callback_woof : Text

-- DHT_TOPIC_CACHE; `none` is the leader -1, an entry that has been invalidated
pub record TopicCache : Type 0 where
  pub topic_name : Text
  pub node_replicas : Replicas
  pub node_leader : Option ℕ

-- DHT_TOPIC_REGISTRY
pub record TopicRegistry : Type 0 where
  pub topic_name : Text
  pub topic_replicas : Replicas
  pub last_leader : ℕ

-- DHT_REGISTRY_CACHE
pub record RegistryCache : Type 0 where
  pub topic_name : Text
  pub registry : TopicRegistry
  pub registry_woof : Text
  pub invalidated : Bool

-- what deserialize_dht_config makes of a configuration, and DHT_DAEMON_ARG without the times, which
-- start at 0
pub record DaemonArg : Type 0 where
  pub stabilize_freq : ℕ
  pub chk_predecessor_freq : ℕ
  pub fix_finger_freq : ℕ
  pub update_leader_freq : ℕ
  pub daemon_wakeup_freq : ℕ

-- A put that starts a handler in another namespace, which comes first, or in the node's own, where
-- there is none, or one through a Raft log. Where the element was copied from a third namespace, its
-- address and number stand for it.
pub data Message : Type 0 where
  find_node_result : Text → Text → Peer → Message
  join_callback : Text → JoinArg → Message
  fix_finger_callback : Text → FixFingerResult → Message
  register_topic_at : Text → (Text × ℕ) → Message
  subscribe_at : Text → (Text × ℕ) → Message
  publish_data : Text → FindArg → Peer → ℕ → Message
  find_successor : Text → FindArg → Message
  get_predecessor : Text → GetPredecessorArg → Message
  stabilize_callback : Text → StabilizeResult → Message
  notify : Text → NotifyArg → Message
  notify_callback : Text → SuccessorInfo → Message
  set_successor : Text → SuccessorInfo → Message
  try_replicas : Message
  notify_self : NotifyArg → Message
  daemon : DaemonArg → Message
  find_routine publish_data_routine publish_trigger_routine : Message

-- Whether the nth call into CSPOT fails, and what the nth reading of the clock is.
pub record Env : Type 0 where
  pub fails : ℕ → Bool
  pub clock : ℕ → ℕ

-- The node's WooFs, each the list of its elements, newest first; one WooF for each finger.
pub record Node : Type 0 where
  pub env : Env
  pub calls : ℕ
  pub node_infos : List NodeInfo
  pub predecessors : List Peer
  pub successors : List SuccessorInfo
  pub fingers : ℕ → List Peer
  pub finger_results : List FixFingerResult
  pub find_requests : List FindArg
  pub find_routines : List ℕ
  pub topic_caches : List TopicCache
  pub registry_caches : List RegistryCache
  pub sent : List Message
