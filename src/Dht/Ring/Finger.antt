-- ===== src/Dht/Ring/Finger.antt =====
-- get_finger_id as addition modulo 2^160.
use native.Mathlib.Decide.{dec_lt}
use native.Mathlib.Nat.{pow-le-pow_right, one-le-pow, mul_comm, mul_assoc}
use native.Mathlib.Numerals.{towards_suc}
use mathlib.Core.Path.{◌≡⟨◌⟩◌, ◌∎}
use cspot.Base.{
  ℕ, zero, suc, ◌+◌, ◌-◌, ◌*◌, ◌/◌, ◌%◌, ◌^◌, ◌≤◌, ◌<◌, ◌≡◌, ◌≢◌, ◌∙◌, refl, sym, ap, [], ◌∷◌,
  arith, if◌then◌else◌, ltb, ltb-false, ltb-true, ==_refl, ◌==◌, length, Bool-cases, inl, inr,
}
use cspot.Dht.Ring.{Hash, add_byte, add_power, get_finger_id}
use cspot.Dht.Ring.Value.{Bytes, value, value-lt, pow_suc, ring}

-- what get_finger_id adds to the last `len` bytes
abbrev added : ℕ → ℕ → ℕ
added shift len = if ltb (shift / 8) len then 256 ^ (shift / 8) * 2 ^ (shift % 8) else 0

-- what get_finger_id adds to the byte `place` places from the end
abbrev digit : ℕ → ℕ → ℕ
digit shift place = if place == shift / 8 then 2 ^ (shift % 8) else 0

added-suc : (shift len : ℕ) → added shift (suc len) ≡ added shift len + digit shift len * 256 ^ len
added-suc shift len = elim (dec_lt (shift / 8) len) [
  | yes p ↦ ground arith
  | no p ↦ elim (Bool-cases (len == shift / 8)) [
    | inl e ↦
        let here : shift / 8 ≡ len = ground (arith, e) in
        rw
          (here, ltb-true len (suc len) (omega arith), ltb-false len len (omega arith), ==_refl len)
          (omega (arith, mul_comm (256 ^ len) (2 ^ (shift % 8))))
    | inr e ↦ ground (arith, e)
  ]
]

digit-le : (shift place : ℕ) → digit shift place ≤ 128
digit-le shift place =
    ground (arith, pow-le-pow_right {n = 2} (omega arith) {i = shift % 8} {j = 7} (omega arith))

add_byte_lem :
    (shift place carry b : ℕ)
    → carry ≤ 1
    → b < 256
    → ((add_byte shift place carry b).0 + 256 * (add_byte shift place carry b).1
        ≡ b + carry + digit shift place)
      × ((add_byte shift place carry b).0 < 256)
      × ((add_byte shift place carry b).1 ≤ 1)
add_byte_lem shift place carry b p q =
    let small : digit shift place ≤ 128 = digit-le shift place in
    elim (Bool-cases (place == shift / 8)) [ inl e ↦ ground (arith, e) | inr e ↦ ground (arith, e) ]

record Sum (shift : ℕ) (bs : Hash) (r : Hash × ℕ) : Type 0 where
  total : value r.0 + r.1 * 256 ^ length bs ≡ value bs + added shift (length bs)
  same_length : length r.0 ≡ length bs
  bytes : Bytes r.0
  carry : r.1 ≤ 1

-- one more place of a sum
add_digits :
    (p q d c' b c w v v' a a' : ℕ)
    → d + 256 * c' ≡ b + c + w
    → v + c * p ≡ v' + a
    → a' ≡ a + w * p
    → q ≡ 256 * p
    → d * p + v + c' * q ≡ b * p + v' + a'
add_digits p q d c' b c w v v' a a' e f g h =
    grind (arith, ap (λ (n : ℕ). n * p) e, ap (λ (n : ℕ). c' * n) h, f, g)

add_power-Sum : (shift : ℕ) (bs : Hash) → Bytes bs → Sum shift bs (add_power shift bs)
unfolding add_power
add_power-Sum shift [] p = record {
  total = ground arith;
  same_length = refl;
  bytes = tt;
  carry = omega arith;
}
add_power-Sum shift (b ∷ bs) (p, q) =
    let rest : Sum shift bs (add_power shift bs) = add_power-Sum shift bs q in
    let (sum, small, bit) = add_byte_lem shift (length bs) (add_power shift bs).1 b rest.carry p in
    record {
      total = rw rest.same_length (
          add_digits (256 ^ length bs) (256 ^ suc (length bs)) _ _ b _ (digit shift (length bs)) _
            (value bs) _ _ sum rest.total (added-suc shift (length bs)) (pow_suc (length bs)));
      same_length = ap suc rest.same_length;
      bytes = (small, rest.bytes);
      carry = bit;
    }

two_pow-add8 : (x : ℕ) → 2 ^ (x + 8) ≡ 256 * 2 ^ x
two_pow-add8 x = simp towards_suc (omega arith)

pow_split : (q r : ℕ) → 256 ^ q * 2 ^ r ≡ 2 ^ (8 * q + r)
pow_split zero r = omega (arith, ap (λ (n : ℕ). 2 ^ n) {x = 8 * 0 + r} {y = r} (omega arith))
pow_split (suc q) r =
    256 ^ suc q * 2 ^ r
    ≡⟨ ap (λ (n : ℕ). n * 2 ^ r) (pow_suc q)
      ∙ mul_assoc 256 (256 ^ q) (2 ^ r)
      ∙ ap (λ (n : ℕ). 256 * n) (pow_split q r) ⟩
      256 * 2 ^ (8 * q + r)
    ≡⟨ sym (two_pow-add8 (8 * q + r)) ⟩ 2 ^ (8 * q + r + 8)
    ≡⟨ ap (λ (n : ℕ). 2 ^ n) (omega arith) ⟩ 2 ^ (8 * suc q + r) ∎

-- For a finger from 1 to 160, get_finger_id adds 2^(i-1) to the hash modulo 2^160, and the result,
-- 20 bytes again, is another hash.
pub get_finger_id-value :
    (n : Hash) (i : ℕ)
    → Bytes n
    → length n ≡ 20
    → 0 < i
    → i ≤ 160
    → (value (get_finger_id n i) ≡ (value n + 2 ^ (i - 1)) % ring)
      × (value (get_finger_id n i) ≢ value n)
      × (length (get_finger_id n i) ≡ 20)
      × Bytes (get_finger_id n i)
unfolding get_finger_id
get_finger_id-value n i p e h k = (
  omega (arith, total, below, start),
  λ same. absurd (omega (arith, total, below, start, same, low, high)),
  sum.same_length ∙ e,
  sum.bytes,
)
  where
    sum : Sum (i - 1) n (add_power (i - 1) n)
    sum = add_power-Sum (i - 1) n p

    power : added (i - 1) 20 ≡ 2 ^ (i - 1)
    power =
        rw (ltb-true ((i - 1) / 8) 20 (omega arith))
          (pow_split ((i - 1) / 8) ((i - 1) % 8) ∙ ap (λ (m : ℕ). 2 ^ m) (omega arith))

    total : value (add_power (i - 1) n).0 + (add_power (i - 1) n).1 * ring ≡ value n + 2 ^ (i - 1)
    total = rw (e, power) at sum.total

    below : value (add_power (i - 1) n).0 < ring
    below = rw (sum.same_length ∙ e) at (value-lt (add_power (i - 1) n).0 sum.bytes)

    start : value n < ring
    start = rw e at (value-lt n p)

    low : 0 < 2 ^ (i - 1)
    low = one-le-pow (i - 1) 2 (omega arith)

    high : 2 ^ (i - 1) ≤ 2 ^ 159
    high = pow-le-pow_right {n = 2} (omega arith) {i = i - 1} {j = 159} (omega arith)
