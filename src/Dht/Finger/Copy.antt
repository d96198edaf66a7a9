-- ===== src/Dht/Finger/Copy.antt =====
-- The fingers that d_fix_finger copies.
use native.Mathlib.Nat.{pow-le-pow_right, one-le-pow}
use cspot.Base.{
  ℕ, suc, ◌+◌, ◌-◌, ◌*◌, ◌%◌, ◌^◌, ◌≤◌, ◌<◌, ◌≡◌, ◌≢◌, ◌∙◌, sym, true, false, arith, ap,
}
use cspot.Dht.Ring.{Hash, get_finger_id, memcmp, is_eq}
use cspot.Dht.Ring.Value.{value, ring, distance, memcmp-compare}
use cspot.Dht.Ring.Finger.{get_finger_id-value}
use cspot.Dht.Ring.Next.{IsHash, IsNext, in_range-IsNext, below}
use cspot.Dht.State.{NodeInfo, Peer}
use cspot.Dht.Finger.{is_covered}

two_pow-suc : (n : ℕ) → 2 ^ suc n ≡ 2 * 2 ^ n
two_pow-suc n = grind arith

power_step :
    (n i : ℕ) {x y : ℕ}
    → n < ring
    → 1 < i
    → i ≤ 160
    → x ≡ (n + 2 ^ (i - 1)) % ring
    → y ≡ (n + 2 ^ (i - 1 - 1)) % ring
    → (n ≢ y) × (distance n y ≤ distance n x)
power_step n i h two top ex ey =
    let double : 2 ^ (i - 1) ≡ 2 * 2 ^ (i - 1 - 1) =
      ap (λ (m : ℕ). 2 ^ m) {x = i - 1} {y = suc (i - 1 - 1)} (omega arith)
      ∙ two_pow-suc (i - 1 - 1) in
    let low : 0 < 2 ^ (i - 1 - 1) = one-le-pow (i - 1 - 1) 2 (omega arith) in
    let high : 2 ^ (i - 1) ≤ 2 ^ 159 =
      pow-le-pow_right {n = 2} (omega arith) {i = i - 1} {j = 159} (omega arith) in
    (
      λ same. absurd (omega (arith, h, ey, same, double, low, high)),
      omega (arith, h, ex, ey, double, low, high),
    )

-- In a ring of hashes, a finger that is the first node from the start of index `i - 1` on and that
-- d_fix_finger copies to index `i` is the first node from the start of index `i` on.
pub is_covered-IsNext :
    (Member : Hash → Type 0) (node : NodeInfo) (i : ℕ) (finger : Peer)
    → ((q : Hash) → Member q → IsHash q)
    → IsHash node.hash
    → 1 < i
    → i ≤ 160
    → is_covered node i finger ≡ true
    → IsNext Member (value (get_finger_id node.hash (i - 1))) finger.hash
    → IsNext Member (value (get_finger_id node.hash i)) finger.hash
is_covered-IsNext Member node i finger hashes here two top covered next =
    let (x_at, x_apart, x_length, x_bytes) =
      get_finger_id-value node.hash i here.0 here.1 (omega arith) top in
    let (y_at, _, y_length, y_bytes) =
      get_finger_id-value node.hash (i - 1) here.0 here.1 (omega arith) (omega arith) in
    let (apart, nearer) = power_step (value node.hash) i (below node.hash here) two top x_at y_at in
    let other : is_eq (memcmp (get_finger_id node.hash i) node.hash) ≡ false =
      rw
        (memcmp-compare (get_finger_id node.hash i) node.hash x_bytes here.0
          (x_length ∙ sym here.1))
        (ground (arith, x_apart)) in
    in_range-IsNext Member node.hash (get_finger_id node.hash i) finger.hash
      (value (get_finger_id node.hash (i - 1))) hashes here (x_bytes, x_length)
      (below (get_finger_id node.hash (i - 1)) (y_bytes, y_length)) apart nearer
      (ground (arith, covered, other)) next
