-- ===== src/Dht/Ring.antt =====
-- The ring of hashes: memcmp, is_empty and in_range of apps/dht/dht_utils.c, and get_finger_id of
-- apps/dht/d_fix_finger.c. A hash is its bytes, the most significant first.
pub mod Value
pub mod Next
pub mod Finger
use Prim.Native.Nat.{compare, Ordering}
use cspot.Base.{
  ℕ, zero, suc, ◌+◌, ◌-◌, ◌/◌, ◌%◌, ◌^◌, List, [], ◌∷◌, Bool, true, false, if◌then◌else◌, ltb, leb,
  ◌==◌, ◌&&◌, ◌||◌, length, replicate,
}

abbrev pub Hash : Type 0
Hash = List ℕ

-- SHA_DIGEST_LENGTH
abbrev pub digest_length : ℕ
digest_length = 20

-- memcmp on arrays of the same length: the order of the first bytes that differ
unfoldable pub memcmp : Hash → Hash → Ordering
memcmp [] [] = Ordering.eq
memcmp [] (c ∷ cs) = Ordering.eq
memcmp (b ∷ bs) [] = Ordering.eq
memcmp (b ∷ bs) (c ∷ cs) = elim (compare b c) [
  | Ordering.lt ↦ Ordering.lt
  | Ordering.eq ↦ memcmp bs cs
  | Ordering.gt ↦ Ordering.gt
]

abbrev pub is_lt : Ordering → Bool
is_lt Ordering.lt = true
is_lt _ = false

abbrev pub is_eq : Ordering → Bool
is_eq Ordering.eq = true
is_eq _ = false

abbrev pub zero_hash : Hash
zero_hash = replicate digest_length 0

-- is_empty
unfoldable pub is_empty_hash : Hash → Bool
unfolding memcmp
is_empty_hash hash = is_eq (memcmp hash zero_hash)

-- in_range: n in (lower, upper)
unfoldable pub in_range : Hash → Hash → Hash → Bool
unfolding memcmp
in_range n lower upper =
    if is_lt (memcmp lower upper)
    then is_lt (memcmp lower n) && is_lt (memcmp n upper)
    else is_lt (memcmp lower n) || is_lt (memcmp n upper)

-- One byte of get_finger_id, `place` places from the end: the byte of the sum and the carry.
abbrev pub add_byte : ℕ → ℕ → ℕ → ℕ → ℕ × ℕ
add_byte shift place carry b =
    let d = (if place == shift / 8 then (carry + 2 ^ (shift % 8)) % 256 else carry) in
    ((d + b) % 256, if leb (256 - d) b then 1 else 0)

-- the loop of get_finger_id, which goes from the last byte to the first
pub add_power : ℕ → Hash → Hash × ℕ
add_power shift [] = ([], 0)
add_power shift (b ∷ bs) =
    let (ds, carry) = add_power shift bs in
    let (d, carry') = add_byte shift (length bs) carry b in (d ∷ ds, carry')

-- get_finger_id: n + 2^(i-1)
unfoldable pub get_finger_id : Hash → ℕ → Hash
unfolding add_power
get_finger_id n i = (add_power (i - 1) n).0
