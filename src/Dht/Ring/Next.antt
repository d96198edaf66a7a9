-- ===== src/Dht/Ring/Next.antt =====
-- What it is for a node of the ring to be a key's successor, and how in_range finds it.
use cspot.Base.{
  ℕ, ◌+◌, ◌%◌, ◌≤◌, ◌<◌, ◌≡◌, ◌≢◌, ◌⊎◌, ◌∙◌, refl, sym, true, arith, ltb, ◌==◌, ◌||◌, length,
  if◌then◌else◌, Bool-cases, ltb→lt, inl, inr,
}
use cspot.Dht.Ring.{Hash, in_range, memcmp, is_eq, is_empty_hash, zero_hash}
use cspot.Dht.Ring.Value.{Bytes, value, ring, distance, value-lt, in_range-distance, memcmp-compare}

-- a hash of 20 bytes
abbrev pub IsHash : Hash → Type 0
IsHash h = Bytes h × (length h ≡ 20)

-- The first of the members that is met from a number on.
pub record IsNext (Member : Hash → Type 0) (k : ℕ) (h : Hash) : Type 0 where
  pub is_member : Member h
  pub first : (q : Hash) → Member q → distance k (value h) ≤ distance k (value q)

pub below : (h : Hash) → IsHash h → value h < ring
below h (p, e) = rw e at (value-lt h p)

-- From a number on the way to a node, the node stays the nearest.
closer :
    (n x y f q : ℕ)
    → n < ring
    → x < ring
    → y < ring
    → f < ring
    → q < ring
    → distance n y ≤ distance n x
    → ((n ≡ f) × (n ≢ y)) ⊎ (distance n x < distance n f)
    → distance y f ≤ distance y q
    → distance x f ≤ distance x q
closer n x y f q a b c d e h g k = ground arith

-- A node that is next after `y` and not before `x` is next after `x`, where in_range tells so, seen from
-- a node from which `y` is not after `x`.
pub in_range-IsNext :
    (Member : Hash → Type 0) (n x f : Hash) (y : ℕ)
    → ((q : Hash) → Member q → IsHash q)
    → IsHash n
    → IsHash x
    → y < ring
    → value n ≢ y
    → distance (value n) y ≤ distance (value n) (value x)
    → in_range x n f ≡ true
    → IsNext Member y f
    → IsNext Member (value x) f
in_range-IsNext Member n x f y hashes a b c apart nearer covered next = record {
  is_member = next.is_member;
  first = λ q m.
      let d : IsHash f = hashes f next.is_member in
      closer (value n) (value x) y (value f) (value q) (below n a) (below x b) c (below f d)
        (below q (hashes q m)) nearer (test d) (next.first q m);
}
  where
    test :
        IsHash f
        → ((value n ≡ value f) × (value n ≢ y))
          ⊎ (distance (value n) (value x) < distance (value n) (value f))
    test d = ground (arith, apart, sym (in_range-distance x n f b.0 a.0 d.0 b.1 a.1 d.1) ∙ covered)

-- how far a key is ahead of a node, a whole turn from the key itself
abbrev pub ahead : ℕ → ℕ → ℕ
ahead a b = if a == b then ring else distance a b

-- A node that in_range finds between another and a key is strictly nearer to the key.
pub in_range-ahead :
    (p n k : Hash)
    → IsHash p
    → IsHash n
    → IsHash k
    → in_range p n k ≡ true
    → ahead (value p) (value k) < ahead (value n) (value k)
in_range-ahead p n k a b c e = ground (
  arith,
  below p a,
  below n b,
  below k c,
  sym (in_range-distance p n k a.0 b.0 c.0 a.1 b.1 c.1) ∙ e,
)

-- The node after another is the first from a key on, where in_range finds the key between the two or
-- the key is that node's hash.
pub half_open-IsNext :
    (Member : Hash → Type 0) (p k s : Hash)
    → ((q : Hash) → Member q → IsHash q)
    → IsHash p
    → IsHash k
    → (in_range k p s || is_eq (memcmp k s)) ≡ true
    → IsNext Member ((value p + 1) % ring) s
    → IsNext Member (value k) s
half_open-IsNext Member p k s hashes a b found next = elim (Bool-cases (in_range k p s)) [
  | inl between ↦
      let apart : ltb 0 (distance (value p) (value k)) ≡ true =
        ground (arith, sym (in_range-distance k p s b.0 a.0 c.0 b.1 a.1 c.1) ∙ between) in
      in_range-IsNext Member p k s ((value p + 1) % ring) hashes a b (omega arith)
        (omega (arith, below p a)) (omega (arith, below p a, below k b, ltb→lt _ _ apart)) between
        next
  | inr outside ↦
      let equal : is_eq (memcmp k s) ≡ true = ground (arith, found, outside) in
      let values : value k ≡ value s =
        ground (arith, equal, memcmp-compare k s b.0 c.0 (b.1 ∙ sym c.1)) in
      record { is_member = next.is_member; first = λ q m. omega (arith, values, below k b) }
]
  where
    c : IsHash s
    c = hashes s next.is_member

-- Seen from a node, a node that in_range finds before another is nearer.
pub in_range-nearer :
    (p n k : Hash)
    → IsHash p
    → IsHash n
    → IsHash k
    → in_range p n k ≡ true
    → ahead (value n) (value p) < ahead (value n) (value k)
in_range-nearer p n k a b c e = ground (
  arith,
  below p a,
  below n b,
  below k c,
  sym (in_range-distance p n k a.0 b.0 c.0 a.1 b.1 c.1) ∙ e,
)

pub is_empty_hash-zero : is_empty_hash zero_hash ≡ true
unfolding is_empty_hash memcmp
is_empty_hash-zero = refl
