-- ===== src/Dht/Find.antt =====
-- apps/dht/h_find_successor.c, and invalidate_fingers of apps/dht/dht_utils.c
pub mod Fingers
pub mod Messages
pub mod Forward
use cspot.Base.{
  ℕ, zero, suc, ◌+◌, ◌-◌, List, [], ◌∷◌, Option, none, some, Bool, true, false, not, if◌then◌else◌,
  ◌&&◌, ◌||◌, Text, is_empty, length,
}
use cspot.Woof.Read.{element}
use cspot.Dht.Ring.{Hash, zero_hash, is_empty_hash, in_range, memcmp, is_eq}
use cspot.Dht.State.{
  Node, NodeInfo, Peer, SuccessorInfo, FindAction, no_action, find_node, join, fix_finger,
  register_topic, subscribe, publish, FindArg, Message, find_node_result, join_callback,
  fix_finger_callback, register_topic_at, subscribe_at, publish_data, find_successor, try_replicas,
  successor_list_r, finger_count,
}
use cspot.Dht.Exec.{
  Exec, ◌>>=◌, ◌>>◌, pure, try_call, try_get, must, must_get, newest, send, put_finger, put_request,
  get_milliseconds,
}

abbrev pub no_peer : Peer
no_peer = record { hash = zero_hash; replicas = λ _. []; leader = 0 }

-- predecessor_addr and finger_addr
abbrev pub peer_addr : Peer → Text
peer_addr p = p.replicas p.leader

-- successor_addr
abbrev pub successor_addr : SuccessorInfo → ℕ → Text
successor_addr s r = s.replicas r (s.leader r)

-- the `r`th entry of the successor list
abbrev pub successor_peer : SuccessorInfo → ℕ → Peer
successor_peer s r = record { hash = s.hash r; replicas = s.replicas r; leader = s.leader r }

abbrev pub self_peer : NodeInfo → Peer
self_peer node = record { hash = node.hash; replicas = node.replicas; leader = node.leader_id }

-- The loop of invalidate_fingers over `left` fingers, the one of index `left` last. A failure is only
-- logged.
unfoldable pub invalidate_from : ℕ → ℕ → Hash → Exec (Unit {0})
invalidate_from zero i hash = pure tt
invalidate_from (suc left) i hash =
    let rest = invalidate_from left (i + 1) hash in
    try_get (λ n. newest (n.fingers i)) >>= λ found. elim found [
      | none ↦ rest
      | some finger ↦
          if is_eq (memcmp finger.hash hash)
          then (try_call (put_finger i no_peer) >>= λ _. rest)
          else rest
    ]

-- invalidate_fingers, and h_invalidate_fingers, which has the same loop
unfoldable pub invalidate_fingers : Hash → Exec (Unit {0})
unfolding invalidate_from
invalidate_fingers hash = invalidate_from finger_count 1 hash

-- a call that reads in another namespace, and then one that puts
abbrev pub get_then_send : Message → Exec Bool
get_then_send m = try_call (λ n. n) >>= λ got. if got then try_call (send m) else pure false

-- The switch over the action: the answer of successor `i`, and whether it has been put.
abbrev pub answer_by : FindAction → FindArg → NodeInfo → SuccessorInfo → ℕ → Exec Bool
answer_by no_action arg node successor i = pure true
answer_by find_node arg node successor i =
    try_call (send (find_node_result arg.callback_namespace arg.key (successor_peer successor i)))
answer_by join arg node successor i = try_call (
    send (
      join_callback arg.callback_namespace (record {
        node = successor_peer successor i;
        replier = self_peer node;
        serialized_config = arg.action_namespace;
      })))
answer_by fix_finger arg node successor i = try_call (
    send (
      fix_finger_callback arg.callback_namespace
        (record { finger_index = arg.action_seqno; node = successor_peer successor i })))
answer_by register_topic arg node successor i =
    get_then_send
      (register_topic_at (successor_addr successor i) (arg.action_namespace, arg.action_seqno))
answer_by subscribe arg node successor i =
    get_then_send
      (subscribe_at (successor_addr successor i) (arg.action_namespace, arg.action_seqno))
answer_by publish arg node successor i = get_milliseconds >>= λ now.
    try_call (send (publish_data arg.callback_namespace arg (successor_peer successor i) now))

unfoldable pub answer : FindArg → NodeInfo → SuccessorInfo → ℕ → Exec Bool
answer arg node successor i = answer_by arg.action arg node successor i

-- the hash before that of successor `i`
abbrev pub prev_hash : NodeInfo → SuccessorInfo → ℕ → Hash
prev_hash node successor zero = node.hash
prev_hash node successor (suc i) = successor.hash i

-- whether the key is in (prev, successor i]
abbrev pub covers : FindArg → NodeInfo → SuccessorInfo → ℕ → Bool
covers arg node successor i =
    in_range arg.hashed_key (prev_hash node successor i) (successor.hash i)
    || is_eq (memcmp arg.hashed_key (successor.hash i))

-- The loop over `left` successors from `i` on; whether one has answered.
pub answer_from : ℕ → ℕ → FindArg → NodeInfo → SuccessorInfo → Exec Bool
answer_from zero i arg node successor = pure false
answer_from (suc left) i arg node successor =
    let rest = answer_from left (i + 1) arg node successor in
    if is_empty_hash (successor.hash i)
    then pure false
    else if covers arg node successor i
    then (answer arg node successor i >>= λ answered. if answered then pure true else rest)
    else rest

-- The loop over the fingers from `i` down; whether the thread has returned.
pub forward_fingers : ℕ → FindArg → NodeInfo → Exec Bool
forward_fingers zero arg node = pure false
forward_fingers (suc i) arg node =
    let rest = forward_fingers i arg node in
    try_get (λ n. newest (n.fingers (suc i))) >>= λ found. elim found [
      | none ↦ pure true
      | some finger ↦
          if is_empty_hash finger.hash
            || not (in_range finger.hash node.hash arg.hashed_key)
            || is_empty (peer_addr finger)
          then rest
          else (try_call (send (find_successor (peer_addr finger) arg)) >>= λ sent.
              if sent then pure true else (invalidate_fingers finger.hash >> rest))
    ]

-- The loop over `left` successors from `i` on; whether the thread has returned.
pub forward_successors : ℕ → ℕ → FindArg → NodeInfo → SuccessorInfo → Exec Bool
forward_successors zero i arg node successor = pure false
forward_successors (suc left) i arg node successor =
    let rest = forward_successors left (i + 1) arg node successor in
    if not (is_empty_hash (successor.hash i))
      && in_range (successor.hash i) node.hash arg.hashed_key
    then (try_call (send (find_successor (successor_addr successor i) arg)) >>= λ sent.
        if sent
        then pure true
        else (try_call (send try_replicas) >>= λ tried. if tried then rest else pure true))
    else rest

-- What is done where the thread has not returned.
abbrev pub or_else : Exec Bool → Exec (Unit {0}) → Exec (Unit {0})
or_else tried next = tried >>= λ returned. if returned then pure tt else next

-- resolve_thread
unfoldable pub resolve_thread : FindArg → NodeInfo → SuccessorInfo → Exec (Unit {0})
unfolding answer_from forward_fingers forward_successors
resolve_thread arg node successor = or_else (answer_from successor_list_r 0 arg node successor) (
    or_else (forward_fingers finger_count arg node) (
      or_else (forward_successors successor_list_r 0 arg node successor)
        (try_call (put_request arg) >>= λ _. pure tt)))

-- DHT_HISTORY_LENGTH_EXTRA_LONG, the size of the request WooF
abbrev pub history_length_extra_long : ℕ
history_length_extra_long = 32768

-- The loop over `left` requests from `i` on. Each thread is run where it is created, if it is.
pub resolve_all : ℕ → ℕ → NodeInfo → SuccessorInfo → Exec (Unit {0})
resolve_all zero i node successor = pure tt
resolve_all (suc left) i node successor =
    must_get (λ n. element history_length_extra_long n.find_requests i) >>= λ arg.
    must (λ n. n) >> resolve_thread arg node successor >> resolve_all left (i + 1) node successor

-- h_find_successor, from request `last_seqno` + 1 on
unfoldable pub h_find_successor : ℕ → Exec (Unit {0})
unfolding resolve_all
h_find_successor last_seqno = do
  node ← must_get (λ n. newest n.node_infos)
  successor ← must_get (λ n. newest n.successors)
  latest_seq ← must_get (λ n. some (length n.find_requests))
  resolve_all (latest_seq - last_seqno) (last_seqno + 1) node successor
  must (λ n. record n { find_routines = latest_seq ∷ n.find_routines })
