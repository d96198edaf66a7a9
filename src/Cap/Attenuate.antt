-- ===== src/Cap/Attenuate.antt =====
-- WooFCapAttenuate of a capability that descends from a secret.
use Prim.Native.Nat.{bit_and}
use cspot.Base.{
  ◌⊎◌, ap₂, ℕ, zero, suc, ◌/◌, ◌≤◌, ◌<◌, ◌≡◌, ◌∙◌, ap, sym, refl, inl, inr, List, some, false,
  arith, Bool-cases, ◌==◌, ltb,
}
use cspot.Cap.{Capability, lowered, lower_from, highest_from, woof_cap_attenuate}
use cspot.Cap.Chain.{chain, rights}

module _ (hmac : ℕ → List ℕ → ℕ) (secret : ℕ) where
  -- From the k-th on, the last capability of the chain that has the permission.
  abbrev pub Weakest : ℕ → ℕ → Capability → Type 0
  Weakest k perm c =
      (j : ℕ) × (c ≡ chain hmac secret j)
      × (k ≤ j)
      × (j ≤ 6)
      × (perm ≤ rights j)
      × (j < 6 → rights (suc j) < perm)

  lower_step :
      (k fuel p perm : ℕ)
      → k < 6
      → p ≡ suc (rights (suc k))
      → lowered hmac (chain hmac secret k) p ≡ chain hmac secret (suc k)
      → (perm ≤ rights (suc k)
          → Weakest (suc k) perm (lower_from hmac fuel perm (p / 2) (chain hmac secret (suc k))))
      → perm ≤ rights k
      → Weakest k perm (lower_from hmac (suc fuel) perm p (chain hmac secret k))
  unfolding lower_from
  lower_step k fuel p perm low at lower below permitted = elim (Bool-cases (ltb perm p)) [
    | inl e ↦
        let (j, found, after, last, has, least) = below (ground (arith, e, at)) in
        rw (e, lower) (j, found, omega (arith, after), last, has, least)
    | inr e ↦ rw e (k, refl, omega arith, omega (arith, low), permitted, λ _. ground (arith, e, at))
  ]

  -- The second loop, from each of the capabilities on.
  lower_six :
      (fuel perm : ℕ)
      → perm ≤ rights 6
      → Weakest 6 perm (lower_from hmac (suc fuel) perm 0 (chain hmac secret 6))
  unfolding lower_from
  lower_six fuel perm permitted =
      let e : ltb perm 0 ≡ false = ground arith in
      rw e (6, refl, omega arith, omega arith, permitted, λ h. absurd (omega (arith, h)))

  lower_five :
      (fuel perm : ℕ)
      → perm ≤ rights 5
      → Weakest 5 perm (lower_from hmac (suc (suc fuel)) perm 1 (chain hmac secret 5))
  unfolding chain
  lower_five fuel perm =
      lower_step 5 (suc fuel) 1 perm (omega arith) refl refl (lower_six fuel perm)

  lower_four :
      (fuel perm : ℕ)
      → perm ≤ rights 4
      → Weakest 4 perm (lower_from hmac (suc (suc (suc fuel))) perm 2 (chain hmac secret 4))
  unfolding chain
  lower_four fuel perm =
      lower_step 4 (suc (suc fuel)) 2 perm (omega arith) refl refl (lower_five fuel perm)

  lower_three :
      (fuel perm : ℕ)
      → perm ≤ rights 3
      → Weakest 3 perm (lower_from hmac (suc (suc (suc (suc fuel)))) perm 4 (chain hmac secret 3))
  unfolding chain
  lower_three fuel perm =
      lower_step 3 (suc (suc (suc fuel))) 4 perm (omega arith) refl refl (lower_four fuel perm)

  lower_two :
      (fuel perm : ℕ)
      → perm ≤ rights 2
      → Weakest 2 perm
          (lower_from hmac (suc (suc (suc (suc (suc fuel))))) perm 8 (chain hmac secret 2))
  unfolding chain
  lower_two fuel perm =
      lower_step 2 (suc (suc (suc (suc fuel)))) 8 perm (omega arith) refl refl
        (lower_three fuel perm)

  lower_one :
      (fuel perm : ℕ)
      → perm ≤ rights 1
      → Weakest 1 perm
          (lower_from hmac (suc (suc (suc (suc (suc (suc fuel)))))) perm 16 (chain hmac secret 1))
  unfolding chain
  lower_one fuel perm =
      lower_step 1 (suc (suc (suc (suc (suc fuel))))) 16 perm (omega arith) refl refl
        (lower_two fuel perm)

  lower_zero :
      (fuel perm : ℕ)
      → perm ≤ rights 0
      → Weakest 0 perm (
          lower_from hmac
            (suc (suc (suc (suc (suc (suc (suc fuel)))))))
            perm
            32
            (chain hmac secret 0))
  unfolding chain
  lower_zero fuel perm =
      lower_step 0 (suc (suc (suc (suc (suc (suc fuel)))))) 32 perm (omega arith) refl refl
        (lower_one fuel perm)

  -- WooFCapAttenuate, where its first loop finds where the second has to start.
  attenuate_at :
      (k perm p : ℕ)
      → k ≤ 6
      → highest_from 7 (rights k) 32 ≡ p
      → (chain hmac secret k).permissions ≡ rights k
      → (rights (suc k) < rights k) ⊎ (k ≡ 6)
      → bit_and (rights k) 63 ≡ rights k
      → (perm ≤ rights k → Weakest k perm (lower_from hmac 7 perm p (chain hmac secret k)))
      → perm ≤ rights k
      → (c : Capability) × (woof_cap_attenuate hmac (chain hmac secret k) perm ≡ some c)
        × Weakest k perm c
  unfolding woof_cap_attenuate
  attenuate_at k perm p last start holds falls masked below permitted =
      let may : ltb (chain hmac secret k).permissions perm ≡ false =
        ground (arith, holds, permitted) in
      elim (Bool-cases (perm == (chain hmac secret k).permissions)) [
        | inl same ↦ (
          chain hmac secret k,
          rw (may, same) refl,
          (k, refl, omega arith, last, permitted, λ h. ground (arith, same, holds, falls, h)),
        )
        | inr other ↦
            let c : Capability = chain hmac secret k in
            let bits : bit_and c.permissions 63 ≡ c.permissions =
              ap (λ (n : ℕ). bit_and n 63) holds ∙ masked ∙ sym holds in
            let first : highest_from 7 c.permissions 32 ≡ p =
              ap (λ (n : ℕ). highest_from 7 n 32) holds ∙ start in
            (
              lower_from hmac 7 perm p c,
              rw (may, other)
                  (ap₂
                    (λ (n : ℕ) (b : ℕ).
                      some (lower_from hmac 7 perm n (record c { permissions = b })))
                    first bits),
              below permitted,
            )
      ]

-- WooFCapAttenuate of a capability that descends from a secret, to a permission that is not above its own,
-- returns the last capability of the chain, from this one on, that has the permission.
pub woof_cap_attenuate-Weakest :
    (hmac : ℕ → List ℕ → ℕ) (secret k perm : ℕ)
    → k ≤ 6
    → perm ≤ rights k
    → (c : Capability) × (woof_cap_attenuate hmac (chain hmac secret k) perm ≡ some c)
      × Weakest hmac secret k perm c
unfolding chain highest_from
woof_cap_attenuate-Weakest hmac secret zero perm low =
    attenuate_at hmac secret 0 perm 32 low refl refl (inl (omega arith)) refl
      (lower_zero hmac secret 0 perm)
woof_cap_attenuate-Weakest hmac secret (suc zero) perm low =
    attenuate_at hmac secret 1 perm 16 low refl refl (inl (omega arith)) refl
      (lower_one hmac secret 1 perm)
woof_cap_attenuate-Weakest hmac secret (suc (suc zero)) perm low =
    attenuate_at hmac secret 2 perm 8 low refl refl (inl (omega arith)) refl
      (lower_two hmac secret 2 perm)
woof_cap_attenuate-Weakest hmac secret (suc (suc (suc zero))) perm low =
    attenuate_at hmac secret 3 perm 4 low refl refl (inl (omega arith)) refl
      (lower_three hmac secret 3 perm)
woof_cap_attenuate-Weakest hmac secret (suc (suc (suc (suc zero)))) perm low =
    attenuate_at hmac secret 4 perm 2 low refl refl (inl (omega arith)) refl
      (lower_four hmac secret 4 perm)
woof_cap_attenuate-Weakest hmac secret (suc (suc (suc (suc (suc zero))))) perm low =
    attenuate_at hmac secret 5 perm 1 low refl refl (inl (omega arith)) refl
      (lower_five hmac secret 5 perm)
woof_cap_attenuate-Weakest hmac secret (suc (suc (suc (suc (suc (suc zero)))))) perm low =
    attenuate_at hmac secret 6 perm 0 low refl refl (inr refl) refl (lower_six hmac secret 6 perm)
woof_cap_attenuate-Weakest hmac secret (suc (suc (suc (suc (suc (suc (suc k))))))) perm low =
    absurd (omega (arith, low))
