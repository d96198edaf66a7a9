-- ===== src/Dht/Stabilize/Closer.antt =====
-- What h_stabilize_callback does to the successor.
use cspot.Base.{
  ℕ, ◌+◌, ◌%◌, ◌≤◌, ◌<◌, ◌≡◌, ◌⊎◌, ◌∙◌, ap, sym, inl, inr, true, false, ◌&&◌, ◌||◌, arith,
  Bool-cases, ◌==◌, ltb,
}
use cspot.Dht.Ring.{Hash, in_range, is_empty_hash, memcmp, is_eq}
use cspot.Dht.Ring.Value.{value, ring, distance, memcmp-compare, in_range-distance}
use cspot.Dht.Ring.Next.{IsHash, IsNext, below}
use cspot.Dht.State.{NodeInfo, SuccessorInfo, StabilizeResult}
use cspot.Dht.Stabilize.{stabilized}

-- The nearer of two candidates, by in_range, is the first from the next number on if one of them is.
nearer_number :
    (n p s q : ℕ)
    → n < ring
    → p < ring
    → s < ring
    → q < ring
    → (ltb 0 (distance n p) && ((n == s) || ltb (distance n p) (distance n s))) ≡ false
    → distance ((n + 1) % ring) p ≤ distance ((n + 1) % ring) q
    → distance ((n + 1) % ring) s ≤ distance ((n + 1) % ring) q
nearer_number n p s q a b c d e h = ground arith

no_nearer :
    (n p s : ℕ)
    → n < ring
    → p < ring
    → s < ring
    → (ltb 0 (distance n p) && ((n == s) || ltb (distance n p) (distance n s))) ≡ true
    → distance ((n + 1) % ring) p < distance ((n + 1) % ring) s
no_nearer n p s a b c e = ground arith

module _ (node : NodeInfo) (result : StabilizeResult) (successor : SuccessorInfo)
    (here : IsHash node.hash) (known : IsHash (successor.hash 0))
    (told : IsHash result.predecessor.hash) where
  -- If the successor, or the node that the successor has told of, is the first member after the node,
  -- then so is the successor that h_stabilize_callback goes on with; both are members.
  pub stabilized-IsNext :
      (Member : Hash → Type 0)
      → ((q : Hash) → Member q → IsHash q)
      → Member (successor.hash 0)
      → Member result.predecessor.hash
      → is_empty_hash result.predecessor.hash ≡ false
      → IsNext Member ((value node.hash + 1) % ring) (successor.hash 0)
        ⊎ IsNext Member ((value node.hash + 1) % ring) result.predecessor.hash
      → IsNext Member ((value node.hash + 1) % ring) ((stabilized node result successor).hash 0)
  unfolding stabilized
  stabilized-IsNext Member hashes s_in p_in full next =
      let test : in_range result.predecessor.hash node.hash (successor.hash 0) ≡ (
          ltb 0 (distance (value node.hash) (value result.predecessor.hash))
          && ((value node.hash == value (successor.hash 0))
              || ltb (distance (value node.hash) (value result.predecessor.hash))
                  (distance (value node.hash) (value (successor.hash 0))))) =
        in_range-distance result.predecessor.hash node.hash (successor.hash 0) told.0 here.0 known.0
          told.1 here.1 known.1 in
      elim (Bool-cases (in_range result.predecessor.hash node.hash (successor.hash 0))) [
        | inr apart ↦
            rw (full, apart)
              (elim next [
                | inl right ↦ right
                | inr right ↦ record {
                  is_member = s_in;
                  first = λ q m.
                      nearer_number (value node.hash) (value result.predecessor.hash)
                        (value (successor.hash 0)) (value q) (below node.hash here)
                        (below result.predecessor.hash told) (below (successor.hash 0) known)
                        (below q (hashes q m)) (sym test ∙ apart) (right.first q m);
                }
              ])
        | inl between ↦
            let nearer : distance ((value node.hash + 1) % ring) (value result.predecessor.hash)
                < distance ((value node.hash + 1) % ring) (value (successor.hash 0)) =
              no_nearer (value node.hash) (value result.predecessor.hash) (value (successor.hash 0))
                (below node.hash here) (below result.predecessor.hash told)
                (below (successor.hash 0) known) (sym test ∙ between) in
            elim next [
              | inl right ↦ absurd (omega (arith, nearer, right.first result.predecessor.hash p_in))
              | inr right ↦
                  elim (Bool-cases (is_eq (memcmp (successor.hash 0) result.predecessor.hash))) [
                    | inr other ↦ rw (full, between, other) right
                    | inl equal ↦
                        let values : value (successor.hash 0) ≡ value result.predecessor.hash =
                          ground (
                            arith,
                            equal,
                            memcmp-compare (successor.hash 0) result.predecessor.hash known.0 told.0
                                (known.1 ∙ sym told.1),
                          ) in
                        absurd (
                          omega (
                            arith,
                            nearer,
                            ap (λ k. distance ((value node.hash + 1) % ring) k) values,
                          ))
                  ]
            ]
      ]
