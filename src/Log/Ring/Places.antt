-- ===== src/Log/Ring/Places.antt =====
-- The places of a ring, counted back from one of them.
use cspot.Base.{
  ℕ, zero, suc, ◌+◌, ◌-◌, ◌%◌, ◌^◌, ◌<◌, ◌≡◌, ◌≢◌, refl, List, [], ◌∷◌, some, arith, if◌then◌else◌,
  ◌==◌, leb, length, take, get_elem?,
}
use cspot.Log.Ring.{Log, step_back}

-- the k-th place before `i`, for k < size
abbrev pub back : ℕ → ℕ → ℕ → ℕ
back size i k = if leb k i then i - k else i + size - k

abbrev pub next_place : ℕ → ℕ → ℕ
next_place size i = if i + 1 == size then 0 else i + 1

pub back-zero : (size i : ℕ) → back size i 0 ≡ i
back-zero size i = ground arith

pub mod-next : (size i : ℕ) → i < size → (i + 1) % size ≡ next_place size i
mod-next size i low = grind arith

pub step_back-back :
    (log : Log) (i k : ℕ)
    → i < log.size
    → log.size < 2 ^ 64
    → suc k < log.size
    → step_back log (back log.size i k) ≡ back log.size i (suc k)
step_back-back log i k low small more = ground arith

pub back-next_place :
    (size i k : ℕ) → i < size → suc k < size → back size (next_place size i) (suc k) ≡ back size i k
back-next_place size i k low more = ground arith

pub back-ne-next_place :
    (size i k : ℕ) → i < size → suc k < size → next_place size i ≢ back size i k
back-ne-next_place size i k low more e = ground (arith, e)

module _ {ℓ} {A : Type ℓ} where
  pub get_elem?-take :
      (n : ℕ) (xs : List A) (k : ℕ) (x : A)
      → get_elem? (take n xs) k ≡ some x
      → (k < n) × (get_elem? xs k ≡ some x)
  get_elem?-take zero xs k x e = absurd (ground (arith, e))
  get_elem?-take (suc n) [] k x e = absurd (ground (arith, e))
  get_elem?-take (suc n) (y ∷ ys) zero x e = (omega arith, e)
  get_elem?-take (suc n) (y ∷ ys) (suc k) x e =
      let (low, found) = get_elem?-take n ys k x e in (omega (arith, low), found)

  pub length-take :
      (n : ℕ) (xs : List A) → length (take n xs) ≡ (if leb (length xs) n then length xs else n)
  length-take zero [] = refl
  length-take zero (x ∷ xs) = ground arith
  length-take (suc n) [] = ground arith
  length-take (suc n) (x ∷ xs) = ground (arith, length-take n xs)
