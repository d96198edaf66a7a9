-- ===== src/Dht/Finger/Right.antt =====
-- The finger table through d_fix_finger, h_fix_finger_callback and h_invalidate_fingers.
use cspot.Base.{
  ℕ, zero, suc, ◌+◌, ◌-◌, ◌≤◌, ◌<◌, ◌≡◌, ◌⊎◌, ◌∙◌, sym, refl, inl, inr, some, true, arith,
  Bool-cases, ltb, Text, length, ◌==◌,
}
use cspot.Dht.Ring.{Hash, zero_hash, get_finger_id}
use cspot.Dht.Ring.Value.{value}
use cspot.Dht.Ring.Next.{IsHash, IsNext}
use cspot.Dht.State.{Node, NodeInfo, Peer, FixFingerResult}
use cspot.Dht.Exec.{
  ◌>>=◌, must, called, newest, put_finger, must_rule, must_get_rule, must_get, pure, bind_rule,
}
use cspot.Dht.Find.{invalidate_from, invalidate_fingers}
use cspot.Dht.Find.Fingers.{some_injective, put_finger-AllFingers, invalidate_from-AllFingers}
use cspot.Dht.Finger.{
  next_index, is_covered, ask_finger, fix_after, fix_from, d_fix_finger, last_index,
  h_fix_finger_callback, h_invalidate_fingers,
}
use cspot.Dht.Finger.Copy.{is_covered-IsNext}

module _ (Member : Hash → Type 0) (node : NodeInfo) where
  -- A finger is the first node from the start of its index on, or has been invalidated.
  abbrev pub Right : ℕ → Peer → Type 0
  Right k p = IsNext Member (value (get_finger_id node.hash k)) p.hash ⊎ (p.hash ≡ zero_hash)

  abbrev pub AllRight : Node → Type 0
  AllRight n = (k : ℕ) → 0 < k → k ≤ 160 → (p : Peer) → newest (n.fingers k) ≡ some p → Right k p

  module _ (hashes : (q : Hash) → Member q → IsHash q) (here : IsHash node.hash) where
    copy-Right :
        (i : ℕ) (finger : Peer)
        → 1 < i
        → i ≤ 160
        → is_covered node i finger ≡ true
        → Right (i - 1) finger
        → Right i finger
    copy-Right i finger two top covered (inl next) =
        inl (is_covered-IsNext Member node i finger hashes here two top covered next)
    copy-Right i finger two top covered (inr empty) = inr empty

    module _ (key_of : Text → ℕ → Text) where
      ask_finger-AllRight :
          (i : ℕ) (n : Node) → AllRight n → AllRight (ask_finger key_of node i n).1
      ask_finger-AllRight i n all = elim (Bool-cases (n.env.fails n.calls)) [
        | inl k ↦ rw k all
        | inr k ↦ rw k all
      ]

      fix_from-AllRight :
          (fuel i : ℕ) (n : Node)
          → 0 < i
          → i ≤ 160
          → AllRight n
          → AllRight (fix_from key_of fuel i node n).1
      unfolding fix_from
      fix_from-AllRight zero i n pos top all = all
      fix_from-AllRight (suc fuel) i n pos top all = elim (Bool-cases (ltb 1 i)) [
        | inr first ↦ rw first (ask_finger-AllRight i n all)
        | inl later ↦ rw later (
            must_get_rule n (λ r. AllRight r.1) (λ m. newest (m.fingers (i - 1)))
              (fix_after key_of (fix_from key_of fuel (next_index i) node) i node) all
              λ finger e. elim (Bool-cases (is_covered node i finger)) [
                | inr apart ↦ rw apart (ask_finger-AllRight i (called n) all)
                | inl covered ↦ rw covered (
                    must_rule (called n) (λ r. AllRight r.1) (put_finger i finger)
                      (λ _. fix_from key_of fuel (next_index i) node) all
                      (fix_from-AllRight fuel (next_index i) _ (ground arith) (ground arith) (
                        put_finger-AllFingers Right i finger (called (called n)) all (
                          copy-Right i finger (ground arith) top covered
                            (all (i - 1) (ground arith) (omega arith) finger e)))))
              ])
      ]

      last_index-AllRight : (n : Node) → AllRight n → AllRight (last_index n).1
      unfolding last_index
      last_index-AllRight n all =
          let read : AllRight
              ((must_get (λ n. newest n.finger_results) >>= λ result. pure result.finger_index)
                (called n)).1 =
            must_get_rule (called n) (λ r. AllRight r.1) (λ n. newest n.finger_results)
              (λ result. pure result.finger_index) all (λ b e. all) in
          elim (Bool-cases (n.env.fails n.calls)) [
            | inl k ↦ rw k read
            | inr k ↦ elim (Bool-cases (length n.finger_results == 0)) [
              | inl z ↦ rw (k, z) all
              | inr z ↦ rw (k, z) read
            ]
          ]

      -- d_fix_finger keeps the finger table right, whichever calls fail, where the hash of the node and
      -- of the members of the ring have 20 bytes.
      pub d_fix_finger-AllRight :
          (n : Node)
          → newest n.node_infos ≡ some node
          → AllRight n
          → AllRight (d_fix_finger key_of n).1
      unfolding d_fix_finger
      d_fix_finger-AllRight n own all =
          must_get_rule n (λ r. AllRight r.1) (λ m. newest m.node_infos)
            (λ node. last_index >>= λ i. fix_from key_of 160 (next_index i) node) all
            λ other e.
              let same : node ≡ other = some_injective (sym own ∙ e) in
              rw (← same) (
                bind_rule last_index (λ i. fix_from key_of 160 (next_index i) node) (called n)
                  (λ r. AllRight r.1)
                  (λ i e.
                    fix_from-AllRight 160 (next_index i) _ (ground arith) (ground arith)
                      (last_index-AllRight (called n) all))
                  (last_index-AllRight (called n) all) (last_index-AllRight (called n) all))

  -- A callback with the right finger keeps the table right.
  pub h_fix_finger_callback-AllRight :
      (arg : FixFingerResult) (n : Node)
      → AllRight n
      → Right arg.finger_index arg.node
      → AllRight (h_fix_finger_callback arg n).1
  unfolding h_fix_finger_callback
  h_fix_finger_callback-AllRight arg n all right =
      must_rule n (λ r. AllRight r.1) (λ m. m) (λ _. must (put_finger arg.finger_index arg.node))
        all
        (elim (Bool-cases (n.env.fails (n.calls + 1))) [
          | inl k ↦ rw k all
          | inr k ↦
              rw k (
                put_finger-AllFingers Right arg.finger_index arg.node (called (called n)) all right)
        ])

  -- So does the removal of a peer that does not answer.
  pub h_invalidate_fingers-AllRight :
      (finger_hash : Hash) (n : Node) → AllRight n → AllRight (h_invalidate_fingers finger_hash n).1
  unfolding h_invalidate_fingers invalidate_fingers
  h_invalidate_fingers-AllRight finger_hash n all =
      must_rule n (λ r. AllRight r.1) (λ m. m) (λ _. invalidate_from 160 1 finger_hash) all
        (invalidate_from-AllFingers Right 160 1 finger_hash (called n) (λ k. inr refl) all)
