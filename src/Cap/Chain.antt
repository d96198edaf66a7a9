-- ===== src/Cap/Chain.antt =====
-- The capabilities that descend from a secret.
use cspot.Base.{ℕ, zero, suc, ◌/◌, ◌≤◌, ◌≡◌, List, arith, inl, inr, Bool-cases, ◌==◌}
use cspot.Cap.{Capability, principal, halved}

module _ (hmac : ℕ → List ℕ → ℕ) (secret : ℕ) where
  -- the principal capability, and each one permission lower than the one before
  unfoldable pub chain : ℕ → Capability
  chain zero = principal hmac secret
  chain (suc k) = halved hmac (chain k)

-- the permissions of the k-th of them
abbrev pub rights : ℕ → ℕ
rights zero = 63
rights (suc k) = rights k / 2

pub rights-le : (k j : ℕ) → k ≤ j → rights j ≤ rights k
rights-le zero zero h = omega arith
rights-le (suc k) zero h = absurd (omega (arith, h))
rights-le k (suc j) h = elim (Bool-cases (k == suc j)) [
  | inl same ↦ let e : k ≡ suc j = ground (arith, same) in rw e (omega arith)
  | inr apart ↦ omega (arith, rights-le k j (ground (arith, apart, h)))
]
