-- ===== src/Dht/Init.antt =====
-- dht_init of apps/dht/dht_utils.c: the first state of a node.
pub mod Fingers
use cspot.Base.{
  ℕ, zero, suc, ◌+◌, List, [], ◌∷◌, Bool, true, false, if◌then◌else◌, Text, same, ◌==◌,
}
use cspot.Dht.Ring.{Hash}
use cspot.Dht.State.{Node, NodeInfo, Replicas, SuccessorInfo, finger_count}
use cspot.Dht.Exec.{Exec, ◌>>=◌, pure, try_call, put_predecessor, put_successor, put_finger}
use cspot.Dht.Find.{no_peer}
use cspot.Dht.Notify.{no_successors}
use cspot.Dht.Successor.{set_place}

-- DHT_REPLICA_NUMBER
abbrev pub replica_number : ℕ
replica_number = 5

-- The loop over `left` replicas from `i` on; the end where the address is none of them.
abbrev pub find_replica : ℕ → ℕ → Text → Replicas → ℕ
find_replica zero i node_addr node_replicas = i
find_replica (suc left) i node_addr node_replicas =
    if same node_addr (node_replicas i)
    then i
    else find_replica left (i + 1) node_addr node_replicas

-- A call, and what follows where it succeeds; `false` is -1.
abbrev pub and_then : Exec Bool → Exec Bool → Exec Bool
and_then first next = first >>= λ ok. if ok then next else pure false

abbrev pub put_node_info : NodeInfo → Node → Node
put_node_info node n = record n { node_infos = node ∷ n.node_infos }

-- The loop over `left` fingers from `i` on.
unfoldable pub init_fingers : ℕ → ℕ → Exec Bool
init_fingers zero i = pure true
init_fingers (suc left) i = and_then (try_call (put_finger i no_peer)) (init_fingers left (i + 1))

abbrev pub first_info : Hash → Text → Replicas → ℕ → NodeInfo
first_info node_hash node_addr node_replicas i = record {
  hash = node_hash;
  addr = node_addr;
  replicas = node_replicas;
  replica_id = i;
  leader_id = i;
}

-- the successor is the node itself
abbrev pub first_successors : Hash → Replicas → SuccessorInfo
first_successors node_hash node_replicas =
    set_place 0 (record { hash = node_hash; replicas = node_replicas; leader = 0 }) no_successors

-- dht_init, once the replica is found
unfoldable pub init_woofs : NodeInfo → Exec Bool
init_woofs node = and_then (try_call (put_node_info node)) (
    and_then (try_call (put_predecessor no_peer)) (
      and_then (try_call (put_successor (first_successors node.hash node.replicas)))
        (init_fingers finger_count 1)))

-- dht_init
unfoldable pub dht_init : Hash → Text → Replicas → Exec Bool
dht_init node_hash node_addr node_replicas =
    let i = find_replica replica_number 0 node_addr node_replicas in
    if i == replica_number
    then pure false
    else init_woofs (first_info node_hash node_addr node_replicas i)
