-- ===== src/Dht/Init/Fingers.antt =====
-- The fingers of a new node, and of a node after any run of the handlers of fingers.
use cspot.Base.{
  ℕ, zero, suc, ◌+◌, ◌<◌, ◌≡◌, ap, sym, refl, List, ◌∷◌, some, Bool, true, false, arith, Bool-cases,
  inl, inr, if◌then◌else◌, Text, ◌==◌,
}
use cspot.Dht.Ring.{Hash, zero_hash}
use cspot.Dht.State.{Node, NodeInfo, Peer, Replicas}
use cspot.Dht.Exec.{
  Exec, Result, done, pure, newest, called, put_finger, try_call, put_predecessor, put_successor,
  try_call_rule,
}
use cspot.Dht.Find.{no_peer}
use cspot.Dht.Find.Fingers.{some_injective}
use cspot.Dht.Finger.Right.{AllRight}
use cspot.Dht.Init.{
  init_fingers, init_woofs, dht_init, first_info, find_replica, and_then, put_node_info,
  first_successors,
}

-- What a successful start has made of the node: its fingers from 1 on are empty.
abbrev Emptied : ℕ → Node → Type 0
Emptied k n =
    (j : ℕ) → 0 < j → j < k → (p : Peer) → newest (n.fingers j) ≡ some p → p.hash ≡ zero_hash

put_finger-Emptied : (i : ℕ) (n : Node) → Emptied i n → Emptied (i + 1) (put_finger i no_peer n)
put_finger-Emptied i n empty j pos low p found = elim (Bool-cases (i == j)) [
  | inl e ↦
      let hit : some no_peer ≡ some p = rw e at found in
      sym (ap (λ (q : Peer). q.hash) (some_injective hit))
  | inr e ↦ empty j pos (ground (arith, e)) p (rw e at found)
]

-- What holds at a successful end.
abbrev pub OnSuccess : (Node → Type 0) → Result Bool × Node → Type 0
OnSuccess G r = r.0 ≡ done true → G r.1

and_then-OnSuccess :
    (G : Node → Type 0) (f : Node → Node) (next : Exec Bool) (n : Node)
    → OnSuccess G (next (f (called n)))
    → OnSuccess G (and_then (try_call f) next n)
and_then-OnSuccess G f next n after =
    try_call_rule n (λ r. OnSuccess G r) f (λ ok. if ok then next else pure false)
      (λ e. absurd (ground (arith, e))) after

-- The fingers below an index are empty, and the node's description is as it was.
abbrev Starts : ℕ → List NodeInfo → Node → Type 0
Starts k infos n = Emptied k n × (n.node_infos ≡ infos)

init_fingers-Starts :
    (left i k : ℕ) (infos : List NodeInfo) (n : Node)
    → left + i ≡ k
    → Starts i infos n
    → OnSuccess (λ m. Starts k infos m) (init_fingers left i n)
unfolding init_fingers
init_fingers-Starts zero i k infos n sum (empty, kept) =
    λ e. ((λ j pos low p found. empty j pos (omega (arith, low, sum)) p found), kept)
init_fingers-Starts (suc left) i k infos n sum (empty, kept) =
    and_then-OnSuccess (λ m. Starts k infos m) (put_finger i no_peer) (init_fingers left (i + 1)) n
      (init_fingers-Starts left (i + 1) k infos (put_finger i no_peer (called n))
        (omega (arith, sum)) (put_finger-Emptied i (called n) empty, kept))

-- A node of a ring, whose fingers are right or empty.
abbrev pub Ready : (Hash → Type 0) → NodeInfo → Node → Type 0
Ready Member node n = (newest n.node_infos ≡ some node) × AllRight Member node n

init_woofs-Ready :
    (Member : Hash → Type 0) (node : NodeInfo) (n : Node)
    → OnSuccess (λ m. Ready Member node m) (init_woofs node n)
unfolding init_woofs
init_woofs-Ready Member node n e =
    let infos : List NodeInfo = node ∷ n.node_infos in
    let fingers : Exec Bool = init_fingers 160 1 in
    let put : Node → Node = put_successor (first_successors node.hash node.replicas) in
    let successors : Exec Bool = and_then (try_call put) fingers in
    let predecessor : Exec Bool = and_then (try_call (put_predecessor no_peer)) successors in
    let n1 : Node = put_node_info node (called n) in
    let n2 : Node = put_predecessor no_peer (called n1) in
    let n3 : Node = put (called n2) in
    let after : Starts 161 infos (init_woofs node n).1 =
      and_then-OnSuccess (λ m. Starts 161 infos m) (put_node_info node) predecessor n
        (and_then-OnSuccess (λ m. Starts 161 infos m) (put_predecessor no_peer) successors n1
          (and_then-OnSuccess (λ m. Starts 161 infos m) put fingers n2
            (init_fingers-Starts 160 1 161 infos n3 (omega arith)
              ((λ j pos low p found. absurd (omega (arith, pos, low))), refl))))
        e in
    (ap newest after.1, λ k pos top p found. inr (after.0 k pos (omega (arith, top)) p found))

-- Where dht_init succeeds, the newest description of the node has the given hash, and each finger is
-- empty, so that the finger table is right for any ring.
pub dht_init-Ready :
    (Member : Hash → Type 0) (node_hash : Hash) (node_addr : Text) (node_replicas : Replicas)
    (n : Node)
    → (dht_init node_hash node_addr node_replicas n).0 ≡ done true
    → Ready Member
        (first_info node_hash node_addr node_replicas (find_replica 5 0 node_addr node_replicas))
        (dht_init node_hash node_addr node_replicas n).1
unfolding dht_init
dht_init-Ready Member node_hash node_addr node_replicas n =
    elim (Bool-cases (find_replica 5 0 node_addr node_replicas == 5)) [
      | inl none_found ↦ rw none_found (λ e. absurd (ground (arith, e)))
      | inr found ↦ rw found (
          init_woofs-Ready Member
            (first_info node_hash node_addr node_replicas
              (find_replica 5 0 node_addr node_replicas))
            n)
    ]
