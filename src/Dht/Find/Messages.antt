-- ===== src/Dht/Find/Messages.antt =====
-- The messages that resolve_thread sends.
use cspot.Base.{
  ℕ, zero, suc, ◌+◌, ◌%◌, ◌<◌, ◌≤◌, ◌≡◌, ◌⊎◌, refl, inl, inr, List, Option, none, some, Bool, true,
  false, Bool-cases, if◌then◌else◌,
}
use cspot.Dht.Ring.{Hash, is_empty_hash}
use cspot.Dht.Ring.Value.{value, ring}
use cspot.Dht.Ring.Next.{IsHash, IsNext, half_open-IsNext, ahead}
use cspot.Dht.State.{
  Node, NodeInfo, Peer, SuccessorInfo, FindArg, FindAction, no_action, find_node, join, fix_finger,
  register_topic, subscribe, publish, Message, find_node_result, join_callback, fix_finger_callback,
  register_topic_at, subscribe_at, publish_data, find_successor, try_replicas,
}
use cspot.Dht.Exec.{
  Exec, pure, try_call, called, send, try_call_rule, bind_rule, Adds, more, newest,
}
use cspot.Dht.Find.{
  peer_addr, successor_peer, successor_addr, self_peer, prev_hash, covers, answer, answer_by,
  get_then_send, answer_from, no_peer,
}
use cspot.Dht.Find.Fingers.{AllFingers}

-- the message that answers a request by successor `i`, at a time
abbrev pub answer_message : FindAction → FindArg → NodeInfo → SuccessorInfo → ℕ → ℕ → Option Message
answer_message no_action arg node successor i now = none
answer_message find_node arg node successor i now =
    some (find_node_result arg.callback_namespace arg.key (successor_peer successor i))
answer_message join arg node successor i now = some (
    join_callback arg.callback_namespace (record {
      node = successor_peer successor i;
      replier = self_peer node;
      serialized_config = arg.action_namespace;
    }))
answer_message fix_finger arg node successor i now = some (
    fix_finger_callback arg.callback_namespace
      (record { finger_index = arg.action_seqno; node = successor_peer successor i }))
answer_message register_topic arg node successor i now =
    some (register_topic_at (successor_addr successor i) (arg.action_namespace, arg.action_seqno))
answer_message subscribe arg node successor i now =
    some (subscribe_at (successor_addr successor i) (arg.action_namespace, arg.action_seqno))
answer_message publish arg node successor i now =
    some (publish_data arg.callback_namespace arg (successor_peer successor i) now)

-- Each entry of the successor list of a node, as far as they are set, is the first member after the
-- one before it, and the first after the node.
abbrev pub Follows : (Hash → Type 0) → NodeInfo → SuccessorInfo → Type 0
Follows Member node successor =
    (i : ℕ)
    → is_empty_hash (successor.hash i) ≡ false
    → IsNext Member ((value (prev_hash node successor i) + 1) % ring) (successor.hash i)

module _ (Member : Hash → Type 0) (arg : FindArg) (node : NodeInfo) (successor : SuccessorInfo)
    (start : Node) where
  -- nearer to the key than the node, on the way ahead
  abbrev pub Nearer : Hash → Type 0
  Nearer hash =
      ahead (value hash) (value arg.hashed_key) < ahead (value node.hash) (value arg.hashed_key)

  -- A message names the first node from the key on, passes the request on to a node that is nearer to
  -- the key, a finger of the node at the start or an entry of its successor list, or asks for another
  -- replica of the successor.
  pub data Resolves (m : Message) : Type 0 where
    answers :
        (i now : ℕ)
        → IsNext Member (value arg.hashed_key) (successor.hash i)
        → answer_message arg.action arg node successor i now ≡ some m
        → Resolves m
    to_finger :
        (i : ℕ) (finger : Peer)
        → 0 < i
        → i ≤ 160
        → newest (start.fingers i) ≡ some finger
        → is_empty_hash finger.hash ≡ false
        → Nearer finger.hash
        → m ≡ find_successor (peer_addr finger) arg
        → Resolves m
    to_successor :
        (i : ℕ)
        → is_empty_hash (successor.hash i) ≡ false
        → Nearer (successor.hash i)
        → m ≡ find_successor (successor_addr successor i) arg
        → Resolves m
    tries : m ≡ try_replicas → Resolves m

  abbrev pub Grows : List Message → List Message → Type 0
  Grows old new = Adds Resolves old new

  -- The successor list is the part of a ring of 20-byte hashes that follows on the node.
  pub record InRing : Type 0 where
    pub hashes : (q : Hash) → Member q → IsHash q
    pub here : IsHash node.hash
    pub keyed : IsHash arg.hashed_key
    pub lists : (i : ℕ) → IsHash (successor.hash i)
    pub follows : Follows Member node successor

  module _ (g : InRing) (old : List Message) where
    -- a finger of the start that is still there, or one that was invalidated
    abbrev pub Held : ℕ → Peer → Type 0
    Held i p = IsHash p.hash × ((newest (start.fingers i) ≡ some p) ⊎ (p ≡ no_peer))

    -- the messages since a point in time, and the finger table
    abbrev pub Inv : Node → Type 0
    Inv n = Grows old n.sent × AllFingers Held n

    prev-IsHash : (i : ℕ) → IsHash (prev_hash node successor i)
    prev-IsHash zero = g.here
    prev-IsHash (suc i) = g.lists i

    covers-IsNext :
        (i : ℕ)
        → is_empty_hash (successor.hash i) ≡ false
        → covers arg node successor i ≡ true
        → IsNext Member (value arg.hashed_key) (successor.hash i)
    covers-IsNext i full c =
        half_open-IsNext Member (prev_hash node successor i) arg.hashed_key (successor.hash i)
          g.hashes (prev-IsHash i) g.keyed c (g.follows i full)

    try_send-Inv : (m : Message) (n : Node) → Resolves m → Inv n → Inv (try_call (send m) n).1
    try_send-Inv m n r (grown, table) = elim (Bool-cases (n.env.fails n.calls)) [
      | inl k ↦ rw k (grown, table)
      | inr k ↦ rw k (more r grown, table)
    ]

    get_then_send-Inv : (m : Message) (n : Node) → Resolves m → Inv n → Inv (get_then_send m n).1
    get_then_send-Inv m n r inv =
        try_call_rule n (λ r. Inv r.1) (λ n. n)
          (λ got. if got then try_call (send m) else pure false) inv
          (try_send-Inv m (called n) r inv)

    answer_by-Inv :
        (a : FindAction) (i : ℕ) (n : Node)
        → ((now : ℕ) (m : Message)
            → answer_message a arg node successor i now ≡ some m
            → Resolves m)
        → Inv n
        → Inv (answer_by a arg node successor i n).1
    answer_by-Inv no_action i n r inv = inv
    answer_by-Inv find_node i n r inv = try_send-Inv _ n (r 0 _ refl) inv
    answer_by-Inv join i n r inv = try_send-Inv _ n (r 0 _ refl) inv
    answer_by-Inv fix_finger i n r inv = try_send-Inv _ n (r 0 _ refl) inv
    answer_by-Inv register_topic i n r inv = get_then_send-Inv _ n (r 0 _ refl) inv
    answer_by-Inv subscribe i n r inv = get_then_send-Inv _ n (r 0 _ refl) inv
    answer_by-Inv publish i n r inv = try_send-Inv _ (called n) (r (n.env.clock n.calls) _ refl) inv

    answer-Inv :
        (i : ℕ) (n : Node)
        → IsNext Member (value arg.hashed_key) (successor.hash i)
        → Inv n
        → Inv (answer arg node successor i n).1
    unfolding answer
    answer-Inv i n next inv = answer_by-Inv arg.action i n (λ now m e. answers i now next e) inv

    pub answer_from-Inv :
        (left i : ℕ) (n : Node) → Inv n → Inv (answer_from left i arg node successor n).1
    unfolding answer_from
    answer_from-Inv zero i n inv = inv
    answer_from-Inv (suc left) i n inv =
        let rest : Exec Bool = answer_from left (i + 1) arg node successor in
        elim (Bool-cases (is_empty_hash (successor.hash i))) [
          | inl e ↦ rw e inv
          | inr full ↦ elim (Bool-cases (covers arg node successor i)) [
            | inr c ↦ rw (full, c) (answer_from-Inv left (i + 1) n inv)
            | inl c ↦
                rw (full, c)
                  (let after : Inv (answer arg node successor i n).1 =
                      answer-Inv i n (covers-IsNext i full c) inv in
                    bind_rule (answer arg node successor i)
                      (λ answered. if answered then pure true else rest) n (λ r. Inv r.1)
                      (λ b e. elim (Bool-cases b) [
                        | inl b_true ↦ rw b_true after
                        | inr b_false ↦ rw b_false (answer_from-Inv left (i + 1) _ after)
                      ])
                      after after)
          ]
        ]
