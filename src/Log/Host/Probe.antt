-- ===== src/Log/Host/Probe.antt =====
-- The places that are probed, in order, and how many of them are taken.
use cspot.Base.{
  ℕ, zero, suc, ◌+◌, ◌%◌, ◌<◌, ◌≡◌, ◌≢◌, refl, ◌⊎◌, inl, inr, some, arith, Bool-cases, ◌==◌,
}
use cspot.Log.Host.{HostList, find_empty}

-- the k-th place from `home` on
abbrev pub place : ℕ → ℕ → ℕ
place home k = (home + k) % 100

-- Every place before the k-th is taken.
abbrev pub Taken : HostList → ℕ → ℕ → Type 0
Taken hl home k = (j : ℕ) → j < k → (hl.hash (place home j)).host_id ≢ 0

-- What find_empty does where it starts at a place: it finds the first that is empty, or all places are
-- taken.
pub find_empty-Taken :
    (hl : HostList) (home : ℕ)
    → hl.hash_size ≡ 100
    → (fuel k : ℕ) → Taken hl home k
    → ((m : ℕ) × (find_empty fuel hl (place home k) ≡ some (place home m))
        × ((hl.hash (place home m)).host_id ≡ 0)
        × (m < k + fuel)
        × Taken hl home m)
      ⊎ Taken hl home (k + fuel)
unfolding find_empty
find_empty-Taken hl home size zero k taken = inr (λ j low. taken j (omega (arith, low)))
find_empty-Taken hl home size (suc fuel) k taken =
    elim (Bool-cases ((hl.hash (place home k)).host_id == 0)) [
      | inl e ↦ inl (k, rw e refl, ground (arith, e), omega arith, taken)
      | inr e ↦
          let step : (place home k + 1) % hl.hash_size ≡ place home (suc k) =
            rw size (omega arith) in
          let taken' : Taken hl home (suc k) = λ j low. elim (Bool-cases (j == k)) [
            | inl same ↦ let q : j ≡ k = ground (arith, same) in rw q (ground (arith, e))
            | inr apart ↦ taken j (ground (arith, apart, low))
          ] in
          elim (find_empty-Taken hl home size fuel (suc k) taken') [
            | inl (m, found, empty, low, before) ↦
                inl (m, rw (e, step) found, empty, omega (arith, low), before)
            | inr all ↦ inr (λ j low. all j (omega (arith, low)))
          ]
    ]
