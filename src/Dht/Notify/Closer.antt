-- ===== src/Dht/Notify/Closer.antt =====
-- What h_notify does to the predecessor.
use cspot.Base.{◌<◌, ◌≡◌, ◌⊎◌, ◌∙◌, sym, refl, inl, inr, List, ◌∷◌, some, true, arith, Bool-cases}
use cspot.Dht.Ring.{is_empty_hash, memcmp, is_eq}
use cspot.Dht.Ring.Value.{value, memcmp-compare}
use cspot.Dht.Ring.Next.{IsHash, ahead, in_range-ahead}
use cspot.Dht.State.{Node, NodeInfo, Peer, SuccessorInfo, NotifyArg}
use cspot.Dht.Exec.{
  Result, ◌>>=◌, called, newest, put_predecessor, must_rule, must_get_rule, must_known_rule,
}
use cspot.Dht.Successor.{node_info, predecessor_info, successor_info}
use cspot.Dht.Notify.{takes, call_back, take_predecessor, h_notify}

-- The predecessors are as before, or there is a new one: where there was none, or it was the node
-- itself, or the new one is nearer to the node.
pub data Moves (node : NodeInfo) (old candidate : Peer) (before after : List Peer) : Type 0 where
  stays : after ≡ before → Moves node old candidate before after
  moves :
      after ≡ candidate ∷ before
      → (is_empty_hash old.hash ≡ true)
        ⊎ ((value old.hash ≡ value node.hash)
            ⊎ (ahead (value candidate.hash) (value node.hash)
                < ahead (value old.hash) (value node.hash)))
      → Moves node old candidate before after

predecessors-call_back :
    (arg : NotifyArg) (node : NodeInfo) (successor : SuccessorInfo) (n : Node)
    → (call_back arg node successor n).1.predecessors ≡ n.predecessors
unfolding call_back
predecessors-call_back arg node successor n = ground arith

takes-because :
    (node : NodeInfo) (old candidate : Peer)
    → IsHash node.hash
    → IsHash old.hash
    → IsHash candidate.hash
    → takes node old candidate ≡ true
    → (is_empty_hash old.hash ≡ true)
      ⊎ ((value old.hash ≡ value node.hash)
          ⊎ (ahead (value candidate.hash) (value node.hash)
              < ahead (value old.hash) (value node.hash)))
unfolding takes
takes-because node old candidate a b c t = elim (Bool-cases (is_empty_hash old.hash)) [
  | inl none_yet ↦ inl none_yet
  | inr known ↦ elim (Bool-cases (is_eq (memcmp old.hash node.hash))) [
    | inl self ↦
        inr (inl (ground (arith, self, memcmp-compare old.hash node.hash b.0 a.0 (b.1 ∙ sym a.1))))
    | inr other ↦
        inr (inr (in_range-ahead candidate.hash old.hash node.hash c b a (rw (known, other) at t)))
  ]
]

take_predecessor-Moves :
    (arg : NotifyArg) (node : NodeInfo) (old : Peer) (successor : SuccessorInfo) (n : Node)
    → IsHash node.hash
    → IsHash old.hash
    → IsHash arg.node.hash
    → Moves node old arg.node n.predecessors
        (take_predecessor arg node old successor n).1.predecessors
unfolding take_predecessor
take_predecessor-Moves arg node old successor n a b c =
    elim (Bool-cases (takes node old arg.node)) [
      | inr t ↦ rw t (stays (predecessors-call_back arg node successor n))
      | inl t ↦ elim (Bool-cases (is_eq (memcmp old.hash arg.node.hash))) [
        | inl same ↦ rw (t, same) (stays refl)
        | inr new ↦
            rw (t, new)
              (must_rule n (λ r. Moves node old arg.node n.predecessors r.1.predecessors)
                (put_predecessor arg.node) (λ _. call_back arg node successor) (stays refl)
                (moves (predecessors-call_back arg node successor _)
                  (takes-because node old arg.node a b c t)))
      ]
    ]

-- Whichever calls fail, h_notify keeps the predecessor or puts the notifying node in its place, and the
-- latter only where there was no predecessor, or it was the node itself, or the notifying node is
-- nearer behind the node; all hashes have 20 bytes.
pub h_notify-Moves :
    (arg : NotifyArg) (node : NodeInfo) (old : Peer) (n : Node)
    → newest n.node_infos ≡ some node
    → newest n.predecessors ≡ some old
    → IsHash node.hash
    → IsHash old.hash
    → IsHash arg.node.hash
    → Moves node old arg.node n.predecessors (h_notify arg n).1.predecessors
unfolding h_notify
h_notify-Moves arg node old n own was a b c =
    let Q : Result (Unit {0}) × Node → Type 0 =
      λ r. Moves node old arg.node n.predecessors r.1.predecessors in
    must_rule n Q (λ m. m)
      (λ _. node_info >>= λ node. predecessor_info >>= λ old.
        successor_info >>= λ successor. take_predecessor arg node old successor)
      (stays refl)
      (must_known_rule (called n) Q (λ m. newest m.node_infos) node
        (λ node. predecessor_info >>= λ old.
          successor_info >>= λ successor. take_predecessor arg node old successor)
        own (stays refl)
        (must_known_rule (called (called n)) Q (λ m. newest m.predecessors) old
          (λ old. successor_info >>= λ successor. take_predecessor arg node old successor) was
          (stays refl)
          (must_get_rule (called (called (called n))) Q (λ m. newest m.successors)
            (λ successor. take_predecessor arg node old successor) (stays refl)
            λ successor e. take_predecessor-Moves arg node old successor _ a b c)))
