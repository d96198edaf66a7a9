-- ===== src/Log/Host/Holds.antt =====
-- The hosts that a table holds, and what HostListFind finds.
use mathlib.Core.Path.{subst}
use cspot.Base.{
  ltb, ℕ, zero, suc, ◌+◌, ◌%◌, ◌≤◌, ◌<◌, ◌≡◌, ◌≢◌, ◌∙◌, ap, sym, refl, ◌⊎◌, inl, inr, List, [], ◌∷◌,
  Option, none, some, false, arith, Bool-cases, if◌then◌else◌, ◌==◌, length,
}
use cspot.Log.Host.{HostList, find_from, host_list_find}
use cspot.Log.Host.Probe.{place, Taken}

abbrev pub Has : ℕ → List ℕ → Type 0
Has a [] = ⊥
Has a (x ∷ xs) = (a ≡ x) ⊎ Has a xs

-- how many of the first `n` places are taken
unfoldable pub occupied : HostList → ℕ → ℕ
occupied hl zero = 0
occupied hl (suc n) = occupied hl n + (if (hl.hash n).host_id == 0 then 0 else 1)

-- The host stands at a place that is reached from its home over places that are taken.
abbrev pub Reached : HostList → ℕ → Type 0
Reached hl host_id =
    (d : ℕ) × (d < 100)
    × ((hl.hash (place (host_id % 100) d)).host_id ≡ host_id)
    × Taken hl (host_id % 100) d

-- The table holds the hosts.
pub record Holds (hl : HostList) (ids : List ℕ) : Type 0 where
  pub size : hl.hash_size ≡ 100
  pub counted : hl.count ≡ length ids
  pub fits : length ids < 100
  pub room : occupied hl 100 ≤ length ids
  pub named : (host_id : ℕ) → Has host_id ids → host_id ≢ 0
  pub reached : (host_id : ℕ) → Has host_id ids → Reached hl host_id
  pub only : (i : ℕ) → i < 100 → (hl.hash i).host_id ≢ 0 → Has (hl.hash i).host_id ids

-- NULL exactly for a host that is not held, and otherwise its place
abbrev pub Finds : HostList → List ℕ → ℕ → Option (Option ℕ) → Type 0
Finds hl ids host_id r =
    ((i : ℕ) × (r ≡ some (some i)) × (i < 100) × ((hl.hash i).host_id ≡ host_id) × Has host_id ids)
    ⊎ ((r ≡ some none) × (Has host_id ids → ⊥))

module _ (hl : HostList) (ids : List ℕ) (host_id : ℕ) (holds : Holds hl ids)
    (real : host_id ≢ 0) where
  abbrev home : ℕ
  home = host_id % 100

  -- The host stands at no place before the k-th.
  abbrev Unseen : ℕ → Type 0
  Unseen k = (j : ℕ) → j < k → (hl.hash (place home j)).host_id ≢ host_id

  Unseen-suc :
      (k : ℕ) → Unseen k → ((hl.hash (place home k)).host_id == host_id) ≡ false → Unseen (suc k)
  Unseen-suc k unseen e j low = elim (Bool-cases (j == k)) [
    | inl same ↦ let q : j ≡ k = ground (arith, same) in rw q (ground (arith, e))
    | inr apart ↦ unseen j (ground (arith, apart, low))
  ]

  -- An empty place ends the search.
  Unseen-absent : (k : ℕ) → Unseen k → (hl.hash (place home k)).host_id ≡ 0 → Has host_id ids → ⊥
  Unseen-absent k unseen empty has =
      let (d, low, at, taken) = holds.reached host_id has in
      elim (Bool-cases (ltb d k)) [
        | inl before ↦ unseen d (ground (arith, before)) at
        | inr after ↦ elim (Bool-cases (d == k)) [
          | inl same ↦
              let q : d ≡ k = ground (arith, same) in
              real (sym at ∙ ap (λ (n : ℕ). (hl.hash (place home n)).host_id) q ∙ empty)
          | inr apart ↦ taken k (ground (arith, apart, after)) empty
        ]
      ]

  find_from-Finds :
      (fuel k : ℕ)
      → k + fuel ≡ 100
      → k < 100
      → Unseen k
      → Finds hl ids host_id (find_from fuel hl host_id home (place home k))
  unfolding find_from
  find_from-Finds zero k sum low unseen = absurd (omega (arith, sum, low))
  find_from-Finds (suc fuel) k sum low unseen =
      let step : (place home k + 1) % hl.hash_size ≡ place home (suc k) =
        rw (holds.size) (omega arith) in
      elim (Bool-cases ((hl.hash (place home k)).host_id == host_id)) [
        | inl e ↦
            let at : (hl.hash (place home k)).host_id ≡ host_id = ground (arith, e) in
            inl (
              place home k,
              rw e refl,
              omega arith,
              at,
              subst (λ n. Has n ids) at
                  (holds.only (place home k) (omega arith) (λ z. real (sym at ∙ z))),
            )
        | inr e ↦
            let unseen' : Unseen (suc k) = Unseen-suc k unseen e in
            elim (Bool-cases ((hl.hash (place home k)).host_id == 0)) [
              | inl z ↦ inr (rw (e, z) refl, Unseen-absent k unseen (ground (arith, z)))
              | inr z ↦ elim (Bool-cases (place home (suc k) == home)) [
                | inl w ↦ inr (
                  rw (e, z, step, w) refl,
                  λ has.
                      let (d, d_low, at, taken) = holds.reached host_id has in
                      unseen' d (ground (arith, w, d_low, low)) at,
                )
                | inr w ↦
                    rw (e, z, step, w)
                      (find_from-Finds fuel (suc k) (omega (arith, sum)) (ground (arith, w, low))
                        unseen')
              ]
            ]
      ]

  -- In a table that holds hosts, HostListFind of a host identifier other than 0 ends, and finds a place of
  -- it exactly if the host is among them.
  pub host_list_find-Finds : Finds hl ids host_id (host_list_find hl host_id)
  unfolding host_list_find
  host_list_find-Finds =
      let at : home ≡ place home 0 = omega arith in
      subst (λ n. Finds hl ids host_id (find_from n hl host_id (host_id % n) (host_id % n)))
        (sym holds.size)
        (subst (λ i. Finds hl ids host_id (find_from 100 hl host_id home i)) (sym at)
          (find_from-Finds 100 0 refl (omega arith) (λ j low. absurd (omega (arith, low)))))
