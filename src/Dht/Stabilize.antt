-- ===== src/Dht/Stabilize.antt =====
-- apps/dht/d_stabilize.c, h_get_predecessor.c, h_stabilize_callback.c and d_check_predecessor.c
pub mod Closer
pub mod Messages
use cspot.Base.{
  ℕ, List, [], ◌∷◌, ◌++◌, Option, none, some, Bool, true, false, not, if◌then◌else◌, ◌&&◌, ◌||◌,
  ◌==◌, Text, codes, update,
}
use cspot.Dht.Ring.{Hash, zero_hash, is_empty_hash, in_range, memcmp, is_eq}
use cspot.Dht.State.{
  Node, NodeInfo, Peer, SuccessorInfo, GetPredecessorArg, StabilizeResult, NotifyArg, Message,
  get_predecessor, stabilize_callback, notify, try_replicas, notify_self,
}
use cspot.Dht.Exec.{
  Exec, ◌>>=◌, ◌>>◌, pure, try_call, must, must_get, newest, send, put_predecessor,
}
use cspot.Dht.Find.{no_peer, peer_addr, successor_addr}
use cspot.Dht.Successor.{set_place, node_info, predecessor_info, successor_info, raft_set_successor}

-- the node as DHT_NOTIFY_ARG has it, which has the replica's own number for the leader's
abbrev pub notifier : NodeInfo → Peer
notifier node = record { hash = node.hash; replicas = node.replicas; leader = node.replica_id }

-- r_try_replicas is put where the call before it has failed.
abbrev pub or_try_replicas : Bool → Exec (Unit {0})
or_try_replicas sent = if sent then pure tt else must (send try_replicas)

-- where the successor is the node itself and it has a predecessor
abbrev pub has_other : Peer → SuccessorInfo → Bool
has_other predecessor successor =
    not (is_empty_hash predecessor.hash) && not (is_eq (memcmp (successor.hash 0) predecessor.hash))

unfoldable pub stabilize_alone : NodeInfo → Peer → SuccessorInfo → Exec (Unit {0})
stabilize_alone node predecessor successor =
    (if has_other predecessor successor
      then raft_set_successor node (set_place 0 predecessor successor)
      else pure tt)
    >> must (send (notify_self (record { node = notifier node; callback_woof = [] })))

-- where the successor is another node
unfoldable pub ask_successor : NodeInfo → SuccessorInfo → Exec (Unit {0})
ask_successor node successor =
    try_call (
      send (
        get_predecessor (successor_addr successor 0)
          (record { callback_woof = node.addr ++ codes "/dht_stabilize_callback.woof" })))
    >>= or_try_replicas

-- d_stabilize
unfoldable pub d_stabilize : Exec (Unit {0})
d_stabilize = do
  node ← node_info
  predecessor ← predecessor_info
  successor ← successor_info
  if is_eq (memcmp (successor.hash 0) node.hash)
      then stabilize_alone node predecessor successor
      else if is_empty_hash (successor.hash 0)
      then raft_set_successor node (set_place 0 (notifier node) successor)
      else ask_successor node successor

-- h_get_predecessor. The two calls in between take the callback's address and namespace from its URI.
unfoldable pub h_get_predecessor : GetPredecessorArg → Exec (Unit {0})
h_get_predecessor arg = do
  node ← node_info
  predecessor ← predecessor_info
  address ← must (λ n. n)
  namespace ← must (λ n. n)
  must (
      send (
        stabilize_callback arg.callback_woof (record {
          predecessor = if is_empty_hash predecessor.hash then no_peer else predecessor;
          successor_leader_id = node.leader_id;
        })))

-- whether the successor's predecessor is between the node and the successor
abbrev pub is_closer : NodeInfo → StabilizeResult → SuccessorInfo → Bool
is_closer node result successor =
    not (is_empty_hash result.predecessor.hash)
    && in_range result.predecessor.hash node.hash (successor.hash 0)

-- the successor list after the answer
unfoldable pub stabilized : NodeInfo → StabilizeResult → SuccessorInfo → SuccessorInfo
stabilized node result successor =
    if is_closer node result successor
    then (if is_eq (memcmp (successor.hash 0) result.predecessor.hash)
        then successor
        else set_place 0 result.predecessor successor)
    else record successor { leader = update successor.leader 0 result.successor_leader_id }

-- whether it is put
unfoldable pub is_changed : NodeInfo → StabilizeResult → SuccessorInfo → Bool
is_changed node result successor =
    if is_closer node result successor
    then not (is_eq (memcmp (successor.hash 0) result.predecessor.hash))
    else not (successor.leader 0 == result.successor_leader_id)

abbrev pub notify_successor : NodeInfo → SuccessorInfo → Exec (Unit {0})
notify_successor node successor =
    try_call (
      send (
        notify (successor_addr successor 0) (record {
          node = notifier node;
          callback_woof = node.addr ++ codes "/dht_notify_callback.woof";
        })))
    >>= or_try_replicas

-- h_stabilize_callback from its test on
unfoldable pub adopt_answer : StabilizeResult → NodeInfo → SuccessorInfo → Exec (Unit {0})
adopt_answer result node successor =
    (if is_changed node result successor
      then raft_set_successor node (stabilized node result successor)
      else pure tt)
    >> notify_successor node (stabilized node result successor)

-- h_stabilize_callback
unfoldable pub h_stabilize_callback : StabilizeResult → Exec (Unit {0})
h_stabilize_callback result = do
  cast ← must (λ n. n)
  node ← node_info
  successor ← successor_info
  adopt_answer result node successor

-- d_check_predecessor; the put has no handler and an empty argument
unfoldable pub d_check_predecessor : Exec (Unit {0})
d_check_predecessor = do
  node ← node_info
  predecessor ← predecessor_info
  if is_empty_hash predecessor.hash
      then pure tt
      else do works ← try_call (λ n. n); if works then pure tt else must (put_predecessor no_peer)
