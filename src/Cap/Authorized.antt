-- ===== src/Cap/Authorized.antt =====
-- What WooFCapAuthorized accepts.
use cspot.Base.{
  ℕ, suc, ◌/◌, ◌≤◌, ◌<◌, ◌≡◌, ◌∙◌, ◌↔◌, ◌⊎◌, ap, sym, refl, inl, inr, List, true, false, arith,
  Bool-cases, ◌==◌, ltb, leb,
}
use cspot.Cap.{Capability, halved, search_from, woof_cap_authorized, cap_bytes}
use cspot.Cap.Chain.{chain, rights, rights-le}

module _ (hmac : ℕ → List ℕ → ℕ) (secret : ℕ) where
  abbrev pub check_of : ℕ → ℕ
  check_of k = (chain hmac secret k).check

  -- The check is that of a capability after the k-th that has the permission.
  abbrev pub Reaches : ℕ → ℕ → ℕ → Type 0
  Reaches k perm check = (j : ℕ) × (k < j) × (j ≤ 6) × (perm ≤ rights j) × (check_of j ≡ check)

  -- what the loop accepts, from the k-th capability on
  abbrev Accepts : ℕ → ℕ → ℕ → ℕ → Capability → Type 0
  Accepts k p perm check c =
      (c.check ≡ check) ↔ (Reaches k perm check ⊎ ((p ≤ perm) × (check_of k ≡ check)))

  search_step :
      (k fuel p perm check : ℕ)
      → k < 6
      → p ≡ suc (rights (suc k))
      → halved hmac (chain hmac secret k) ≡ chain hmac secret (suc k)
      → (chain hmac secret (suc k)).permissions ≡ rights (suc k)
      → Accepts
          (suc k)
          (p / 2)
          perm
          check
          (search_from hmac fuel check perm (p / 2) (chain hmac secret (suc k)))
      → Accepts k p perm check (search_from hmac (suc fuel) check perm p (chain hmac secret k))
  unfolding search_from chain cap_bytes
  search_step k fuel p perm check low at lower holds rest = elim (Bool-cases (ltb perm p)) [
    | inl e ↦
        let has : perm ≤ rights (suc k) = ground (arith, e, at) in
        let able : leb perm (chain hmac secret (suc k)).permissions ≡ true =
          ground (arith, has, holds) in
        elim (Bool-cases (check == check_of (suc k))) [
          | inl same ↦
              let q : check_of (suc k) ≡ check = ground (arith, same) in
              rw (e, lower, same, able)
                ((λ _. inl (suc k, omega arith, omega (arith, low), has, q)), λ _. q)
          | inr other ↦
              rw (e, lower, other)
                (
                  (λ found. elim (rest.0 found) [
                    | inl (j, after, last, enough, q) ↦
                        inl (j, omega (arith, after), last, enough, q)
                    | inr (_, q) ↦ absurd (ground (arith, other, q))
                  ]),
                  λ reached. elim reached [
                    | inl (j, after, last, enough, q) ↦ elim (Bool-cases (j == suc k)) [
                      | inl this ↦
                          let same_j : j ≡ suc k = ground (arith, this) in
                          absurd
                            (ground (arith, other, sym (ap (λ (n : ℕ). check_of n) same_j) ∙ q))
                      | inr later ↦ rest.1 (inl (j, ground (arith, later, after), last, enough, q))
                    ]
                    | inr (above, q) ↦ absurd (ground (arith, e, above))
                  ],
                )
        ]
    | inr e ↦ rw e (
      (λ q. inr (ground (arith, e), q)),
      λ reached. elim reached [
        | inl (j, after, last, enough, q) ↦
            absurd (ground (arith, e, at, enough, rights-le (suc k) j after))
        | inr (_, q) ↦ q
      ],
    )
  ]

  -- The loop, from each of the capabilities on.
  search_six :
      (perm check : ℕ)
      → Accepts 6 0 perm check (search_from hmac 1 check perm 0 (chain hmac secret 6))
  unfolding search_from
  search_six perm check =
      let e : ltb perm 0 ≡ false = ground arith in
      rw e (
        (λ q. inr (omega arith, q)),
        λ reached. elim reached [
          | inl (j, after, last, enough, q) ↦ absurd (omega (arith, after, last))
          | inr (_, q) ↦ q
        ],
      )

  search_five :
      (perm check : ℕ)
      → Accepts 5 1 perm check (search_from hmac 2 check perm 1 (chain hmac secret 5))
  unfolding chain
  search_five perm check =
      search_step 5 1 1 perm check (omega arith) refl refl refl (search_six perm check)

  search_four :
      (perm check : ℕ)
      → Accepts 4 2 perm check (search_from hmac 3 check perm 2 (chain hmac secret 4))
  unfolding chain
  search_four perm check =
      search_step 4 2 2 perm check (omega arith) refl refl refl (search_five perm check)

  search_three :
      (perm check : ℕ)
      → Accepts 3 4 perm check (search_from hmac 4 check perm 4 (chain hmac secret 3))
  unfolding chain
  search_three perm check =
      search_step 3 3 4 perm check (omega arith) refl refl refl (search_four perm check)

  search_two :
      (perm check : ℕ)
      → Accepts 2 8 perm check (search_from hmac 5 check perm 8 (chain hmac secret 2))
  unfolding chain
  search_two perm check =
      search_step 2 4 8 perm check (omega arith) refl refl refl (search_three perm check)

  search_one :
      (perm check : ℕ)
      → Accepts 1 16 perm check (search_from hmac 6 check perm 16 (chain hmac secret 1))
  unfolding chain
  search_one perm check =
      search_step 1 5 16 perm check (omega arith) refl refl refl (search_two perm check)

  search_zero :
      (perm check : ℕ)
      → Accepts 0 32 perm check (search_from hmac 7 check perm 32 (chain hmac secret 0))
  unfolding chain
  search_zero perm check =
      search_step 0 6 32 perm check (omega arith) refl refl refl (search_one perm check)

-- WooFCapAuthorized of a permission of at most 32 accepts exactly the check of a capability of the chain that
-- is below the principal one and has the permission; the principal capability only for the permission 32.
pub woof_cap_authorized_iff :
    (hmac : ℕ → List ℕ → ℕ) (secret : ℕ) (cap : Capability) (perm : ℕ)
    → perm ≤ 32
    → (woof_cap_authorized hmac secret cap perm ≡ true)
      ↔ (Reaches hmac secret 0 perm cap.check ⊎ ((32 ≤ perm) × (secret ≡ cap.check)))
unfolding woof_cap_authorized chain
woof_cap_authorized_iff hmac secret cap perm low =
    let within : ltb 32 perm ≡ false = ground (arith, low) in
    let (sound, complete) = search_zero hmac secret perm cap.check in
    rw within
      ((λ e. sound (ground (arith, e))), λ reached. let q = complete reached in ground (arith, q))
