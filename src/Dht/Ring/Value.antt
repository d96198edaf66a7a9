-- ===== src/Dht/Ring/Value.antt =====
-- Hashes as numbers.
use Prim.Native.Nat.{compare}
use cspot.Base.{
  ℕ, suc, ◌+◌, ◌-◌, ◌*◌, ◌%◌, ◌^◌, ◌≤◌, ◌<◌, ◌≡◌, ◌∙◌, refl, sym, ap, [], ◌∷◌, arith, ltb, ◌==◌,
  ◌&&◌, ◌||◌, length,
}
use cspot.Dht.Ring.{Hash, memcmp, in_range}

-- all bytes are below 256
abbrev pub Bytes : Hash → Type 0
Bytes [] = Unit
Bytes (b ∷ bs) = (b < 256) × Bytes bs

abbrev pub value : Hash → ℕ
value [] = 0
value (b ∷ bs) = b * 256 ^ length bs + value bs

mul_le : (a b k : ℕ) → a ≤ b → a * k ≤ b * k
mul_le a b k h = grind arith

-- Leading digits decide.
digits-lt : (b c x y k : ℕ) → b < c → x < k → b * k + x < c * k + y
digits-lt b c x y k h p = grind (arith, mul_le (b + 1) c k (omega arith))

pub pow_suc : (n : ℕ) → 256 ^ suc n ≡ 256 * 256 ^ n
pow_suc n = grind arith

pub value-lt : (bs : Hash) → Bytes bs → value bs < 256 ^ length bs
value-lt [] h = omega arith
value-lt (b ∷ bs) (p, q) =
    let top : (b + 1) * 256 ^ length bs ≤ 256 * 256 ^ length bs =
      mul_le (b + 1) 256 (256 ^ length bs) (omega arith) in
    grind (arith, top, value-lt bs q, pow_suc (length bs))

-- memcmp orders hashes of one length as numbers.
pub memcmp-compare :
    (a b : Hash)
    → Bytes a
    → Bytes b
    → length a ≡ length b
    → memcmp a b ≡ compare (value a) (value b)
unfolding memcmp
memcmp-compare [] [] p q e = refl
memcmp-compare [] (c ∷ cs) p q e = absurd (omega arith)
memcmp-compare (b ∷ bs) [] p q e = absurd (omega arith)
memcmp-compare (b ∷ bs) (c ∷ cs) (p, ps) (q, qs) e = ground (
  arith,
  memcmp-compare bs cs ps qs,
  digits-lt b c (value bs) (value cs) (256 ^ length bs),
  digits-lt c b (value cs) (value bs) (256 ^ length bs),
  value-lt bs ps,
  value-lt cs qs,
  ap (λ (n : ℕ). 256 ^ n) {x = length bs} {y = length cs},
)

-- the number of hashes, 2^160
abbrev pub ring : ℕ
ring = 256 ^ 20

-- how far it is from one number to another, in the direction of growing hashes
abbrev pub distance : ℕ → ℕ → ℕ
distance a b = (b + ring - a) % ring

-- On hashes, in_range says that n is met on the way from lower to upper, a whole turn where these are
-- the same, and is neither of the two.
pub in_range-distance :
    (n lower upper : Hash)
    → Bytes n
    → Bytes lower
    → Bytes upper
    → length n ≡ 20
    → length lower ≡ 20
    → length upper ≡ 20
    → in_range n lower upper ≡ (
        ltb 0 (distance (value lower) (value n))
        && ((value lower == value upper)
            || ltb (distance (value lower) (value n)) (distance (value lower) (value upper))))
unfolding in_range
in_range-distance n lower upper p q r a b c =
    rw
      (
        memcmp-compare lower upper q r (b ∙ sym c),
        memcmp-compare lower n q p (b ∙ sym a),
        memcmp-compare n upper p r (a ∙ sym c),
      )
      (ground (arith, below n p a, below lower q b, below upper r c))
  where
    below : (h : Hash) → Bytes h → length h ≡ 20 → value h < ring
    below h p e = rw e at (value-lt h p)
