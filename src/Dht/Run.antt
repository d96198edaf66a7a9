-- ===== src/Dht/Run.antt =====
-- Runs of the handlers of a node that write its fingers, from dht_init on. What other handlers do in
-- between, to other WooFs, is a step too.
use mathlib.Core.Path.{subst}
use cspot.Base.{ℕ, List, ap, ◌≡◌, ◌∙◌, sym, some, true, Text}
use cspot.Dht.Ring.{Hash}
use cspot.Dht.Ring.Next.{IsHash}
use cspot.Dht.State.{Node, NodeInfo, Peer, Replicas, FixFingerResult}
use cspot.Dht.Exec.{done, newest}
use cspot.Dht.Finger.{d_fix_finger, h_fix_finger_callback, h_invalidate_fingers}
use cspot.Dht.Finger.Right.{
  Right, AllRight, d_fix_finger-AllRight, h_fix_finger_callback-AllRight,
  h_invalidate_fingers-AllRight,
}
use cspot.Dht.Init.{dht_init, first_info, find_replica}
use cspot.Dht.Init.Fingers.{dht_init-Ready}

-- The finger table depends on the description of the node by its hash only.
AllRight-hash :
    (Member : Hash → Type 0) (a b : NodeInfo) (n : Node)
    → a.hash ≡ b.hash
    → AllRight Member a n
    → AllRight Member b n
AllRight-hash Member a b n e all = subst (λ h. AllRight Member (record b { hash = h }) n) e all

module _ (Member : Hash → Type 0) (node : NodeInfo) (key_of : Text → ℕ → Text) where
  -- One handler. d_fix_finger reads a description with the node's hash, and a callback brings the
  -- finger that is right for its index.
  pub data FingerStep (n : Node) : Node → Type 0 where
    fix :
        (own : NodeInfo)
        → newest n.node_infos ≡ some own
        → own.hash ≡ node.hash
        → FingerStep n (d_fix_finger key_of n).1
    callback :
        (arg : FixFingerResult)
        → Right Member node arg.finger_index arg.node
        → FingerStep n (h_fix_finger_callback arg n).1
    invalidate : (finger_hash : Hash) → FingerStep n (h_invalidate_fingers finger_hash n).1
    other : (n' : Node) → n'.fingers ≡ n.fingers → FingerStep n n'

  pub data FingerRun : Node → Node → Type 0 where
    stay : {n : Node} → FingerRun n n
    step : {n m n' : Node} → FingerStep n m → FingerRun m n' → FingerRun n n'

  module _ (hashes : (q : Hash) → Member q → IsHash q) (here : IsHash node.hash) where
    FingerStep-AllRight :
        {n n' : Node} → FingerStep n n' → AllRight Member node n → AllRight Member node n'
    FingerStep-AllRight {n} (fix own e h) all =
        AllRight-hash Member own node (d_fix_finger key_of n).1 h (
          d_fix_finger-AllRight Member own hashes (subst IsHash (sym h) here) key_of n e
            (AllRight-hash Member node own n (sym h) all))
    FingerStep-AllRight {n} (callback arg right) all =
        h_fix_finger_callback-AllRight Member node arg n all right
    FingerStep-AllRight {n} (invalidate finger_hash) all =
        h_invalidate_fingers-AllRight Member node finger_hash n all
    FingerStep-AllRight {n} (other n' e) all = λ k pos top p found.
        all k pos top p (ap (λ (f : ℕ → List Peer). newest (f k)) (sym e) ∙ found)

    FingerRun-AllRight :
        {n n' : Node} → FingerRun n n' → AllRight Member node n → AllRight Member node n'
    FingerRun-AllRight stay all = all
    FingerRun-AllRight (step one rest) all = FingerRun-AllRight rest (FingerStep-AllRight one all)

-- After dht_init has succeeded, over any run of the handlers of fingers with right callbacks, in any
-- order and with any failing calls, each finger of the node is the first node of the ring from the
-- start of its index on, or empty.
pub dht_init-FingerRun :
    (Member : Hash → Type 0) (key_of : Text → ℕ → Text) (node_hash : Hash) (node_addr : Text)
    (node_replicas : Replicas) (n n' : Node)
    → ((q : Hash) → Member q → IsHash q)
    → IsHash node_hash
    → (dht_init node_hash node_addr node_replicas n).0 ≡ done true
    → FingerRun Member
        (first_info node_hash node_addr node_replicas (find_replica 5 0 node_addr node_replicas))
        key_of
        (dht_init node_hash node_addr node_replicas n).1
        n'
    → AllRight Member
        (first_info node_hash node_addr node_replicas (find_replica 5 0 node_addr node_replicas))
        n'
dht_init-FingerRun Member key_of node_hash node_addr node_replicas n n' hashes here ok run =
    FingerRun-AllRight Member
      (first_info node_hash node_addr node_replicas (find_replica 5 0 node_addr node_replicas))
      key_of hashes here run (dht_init-Ready Member node_hash node_addr node_replicas n ok).1
