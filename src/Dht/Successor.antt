-- ===== src/Dht/Successor.antt =====
-- The handlers of apps/dht that set the successor list: r_set_successor.c, h_shift_successor.c,
-- h_join_callback.c, and dht_start_daemon of dht.c.
use cspot.Base.{ℕ, zero, suc, ◌+◌, ◌-◌, if◌then◌else◌, Text, update}
use cspot.Dht.Ring.{memcmp, is_eq}
use cspot.Dht.State.{
  NodeInfo, Peer, SuccessorInfo, JoinArg, DaemonArg, set_successor, daemon, find_routine,
  publish_data_routine, publish_trigger_routine, successor_list_r,
}
use cspot.Dht.Exec.{Exec, ◌>>=◌, ◌>>◌, must, must_get, newest, send, put_successor}
use cspot.Dht.Find.{no_peer, successor_peer}

-- The place `i` of the successor list is given to a peer.
abbrev pub set_place : ℕ → Peer → SuccessorInfo → SuccessorInfo
set_place i p s = record {
  hash = update s.hash i p.hash;
  replicas = update s.replicas i p.replicas;
  leader = update s.leader i p.leader;
}

-- get_latest_node_info, get_latest_predecessor_info and get_latest_successor_info
abbrev pub node_info : Exec NodeInfo
node_info = must_get (λ n. newest n.node_infos)

abbrev pub predecessor_info : Exec Peer
predecessor_info = must_get (λ n. newest n.predecessors)

abbrev pub successor_info : Exec SuccessorInfo
successor_info = must_get (λ n. newest n.successors)

-- raft_put_handler of r_set_successor at the leader of the node's replicas
abbrev pub raft_set_successor : NodeInfo → SuccessorInfo → Exec (Unit {0})
raft_set_successor node successor =
    must (send (set_successor (node.replicas node.leader_id) successor))

-- r_set_successor
unfoldable pub r_set_successor : SuccessorInfo → Exec (Unit {0})
r_set_successor arg = node_info >>= λ node. must (put_successor arg)

-- The loop of h_shift_successor over `left` places from `i` on.
pub shift_from : ℕ → ℕ → SuccessorInfo → SuccessorInfo
shift_from zero i s = s
shift_from (suc left) i s = shift_from left (i + 1) (set_place i (successor_peer s (i + 1)) s)

unfoldable pub shifted : SuccessorInfo → SuccessorInfo
unfolding shift_from
shifted s = set_place (successor_list_r - 1) no_peer (shift_from (successor_list_r - 1) 0 s)

-- h_shift_successor
unfoldable pub h_shift_successor : Exec (Unit {0})
h_shift_successor = do
  node ← node_info
  successor ← successor_info
  put ← must (put_successor (shifted successor))
  raft_set_successor node (shifted successor)

-- dht_start_daemon, with dht_start_app_server, whose result is not given where it succeeds
unfoldable pub dht_start_daemon : DaemonArg → Exec (Unit {0})
dht_start_daemon arg =
    must (send (daemon arg))
    >> must (send find_routine)
    >> must (send publish_data_routine)
    >> must (send publish_trigger_routine)

-- the successor list with which h_join_callback starts
unfoldable pub joined : NodeInfo → JoinArg → SuccessorInfo → SuccessorInfo
joined node arg successor =
    if is_eq (memcmp node.hash arg.node.hash)
    then set_place 0 arg.replier successor
    else set_place 0 arg.node successor

-- h_join_callback; `deserialize_dht_config` is sscanf of five numbers
unfoldable pub h_join_callback : (Text → DaemonArg) → JoinArg → Exec (Unit {0})
h_join_callback deserialize_dht_config arg = do
  cast ← must (λ n. n)
  node ← node_info
  successor ← successor_info
  set ← raft_set_successor node (joined node arg successor)
  dht_start_daemon (deserialize_dht_config arg.serialized_config)
