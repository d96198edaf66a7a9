-- ===== src/Cmq/Receive/Values.antt =====
-- Numbers and blocks of bytes on a stream.
use cspot.Base.{ℕ, ◌^◌, ◌<◌, ◌≡◌, ap, refl, List, [], ◌∷◌, ◌++◌, arith, take, drop, length}
use cspot.Cmq.Packet.{low_bytes, long_bytes}
use cspot.Cmq.Receive.{value}

module _ {ℓ} {A : Type ℓ} where
  pub take-append : (xs ys : List A) → take (length xs) (xs ++ ys) ≡ xs
  take-append [] ys = refl
  take-append (x ∷ xs) ys = ap (λ r. x ∷ r) (take-append xs ys)

  pub drop-append : (xs ys : List A) → drop (length xs) (xs ++ ys) ≡ ys
  drop-append [] ys = refl
  drop-append (x ∷ xs) ys = drop-append xs ys

  pub take-length : (xs : List A) → take (length xs) xs ≡ xs
  take-length [] = refl
  take-length (x ∷ xs) = ap (λ r. x ∷ r) (take-length xs)

pub length-long_bytes : (v : ℕ) → length (long_bytes v) ≡ 8
unfolding long_bytes low_bytes
length-long_bytes v = refl

-- What is read is what was written.
pub value-long_bytes : (v : ℕ) → v < 2 ^ 64 → value (long_bytes v) ≡ v
unfolding long_bytes low_bytes value
value-long_bytes v h = omega arith
