-- ===== src/Log/Host/Add.antt =====
-- What HostListAdd does to a table that holds hosts.
use mathlib.Core.Path.{subst}
use cspot.Base.{
  ℕ, zero, suc, ◌+◌, ◌-◌, ◌%◌, ◌≤◌, ◌<◌, ◌≡◌, ◌≢◌, ◌∙◌, ap, sym, refl, ◌⊎◌, inl, inr, List, [], ◌∷◌,
  Option, some, true, false, arith, Bool-cases, ◌==◌, leb, length, add64, update_self, update_ne,
}
use cspot.Log.Host.{
  HostList, Added, added, full, find_empty, host_list_add, put_host, host_list_create, Host,
}
use cspot.Log.Host.Probe.{place, Taken, find_empty-Taken}
use cspot.Log.Host.Holds.{Has, occupied, Holds}

occupied_all :
    (hl : HostList) (n : ℕ) → ((i : ℕ) → i < n → (hl.hash i).host_id ≢ 0) → occupied hl n ≡ n
unfolding occupied
occupied_all hl zero taken = refl
occupied_all hl (suc n) taken =
    let e : ((hl.hash n).host_id == 0) ≡ false = ground (arith, taken n (omega arith)) in
    rw (e, occupied_all hl n (λ i low. taken i (omega (arith, low)))) (omega arith)

-- A table with room has an empty place.
not-Taken :
    (hl : HostList) (ids : List ℕ) (home : ℕ) → Holds hl ids → home < 100 → Taken hl home 100 → ⊥
not-Taken hl ids home holds low taken =
    let all : (i : ℕ) → i < 100 → (hl.hash i).host_id ≢ 0 = λ i small.
      let at : place home ((i + (100 - home)) % 100) ≡ i = omega (arith, small, low) in
      subst (λ n. (hl.hash n).host_id ≢ 0) at (taken ((i + (100 - home)) % 100) (omega arith)) in
    omega (arith, occupied_all hl 100 all, holds.room, holds.fits)

module _ (hl : HostList) (e host_id : ℕ) (empty : (hl.hash e).host_id ≡ 0)
    (real : host_id ≢ 0) where
  abbrev after : HostList
  after = put_host hl e host_id

  at_self : (after.hash e).host_id ≡ host_id
  at_self = ap (λ (h : Host). h.host_id) (update_self hl.hash e _)

  at_other : (i : ℕ) → e ≢ i → (after.hash i).host_id ≡ (hl.hash i).host_id
  at_other i apart = ap (λ (h : Host). h.host_id) (update_ne hl.hash e i _ apart)

  split : (i : ℕ) → (e ≡ i) ⊎ (e ≢ i)
  split i = elim (Bool-cases (e == i)) [
    | inl same ↦ inl (ground (arith, same))
    | inr apart ↦ inr (ground (arith, apart))
  ]

  -- What was taken still is, and stands where it stood.
  stays : (i : ℕ) → (hl.hash i).host_id ≢ 0 → (after.hash i).host_id ≡ (hl.hash i).host_id
  stays i taken = at_other i (λ q. taken (sym (ap (λ (n : ℕ). (hl.hash n).host_id) q) ∙ empty))

  Taken-after : (home k : ℕ) → Taken hl home k → Taken after home k
  Taken-after home k taken j low z = taken j low (sym (stays (place home j) (taken j low)) ∙ z)

  occupied-before : (n : ℕ) → n ≤ e → occupied after n ≡ occupied hl n
  unfolding occupied
  occupied-before zero low = refl
  occupied-before (suc n) low =
      rw (at_other n (λ q. absurd (omega (arith, q, low))), occupied-before n (omega (arith, low)))
        refl

  occupied-after : (n : ℕ) → e < n → occupied after n ≡ occupied hl n + 1
  unfolding occupied
  occupied-after zero low = absurd (omega (arith, low))
  occupied-after (suc n) low = elim (split n) [
    | inl same ↦
        let was : (hl.hash n).host_id ≡ 0 =
          ap (λ (i : ℕ). (hl.hash i).host_id) (sym same) ∙ empty in
        let now : ((after.hash n).host_id == 0) ≡ false =
          ground (arith, ap (λ (i : ℕ). (after.hash i).host_id) (sym same) ∙ at_self, real) in
        let gone : ((hl.hash n).host_id == 0) ≡ true = ground (arith, was) in
        rw (now, gone, occupied-before n (omega (arith, same))) (omega arith)
    | inr apart ↦ ground (arith, at_other n apart, occupied-after n (ground (arith, apart, low)))
  ]

  -- The table with the host at the first empty place from its home.
  put_host-Holds :
      (ids : List ℕ) (m : ℕ)
      → Holds hl ids
      → length ids + 1 < 100
      → e ≡ place (host_id % 100) m
      → m < 100
      → Taken hl (host_id % 100) m
      → Holds after (host_id ∷ ids)
  put_host-Holds ids m holds fits at low taken = record {
    size = holds.size;
    counted = omega (arith, holds.counted, fits);
    fits = omega (arith, fits);
    room = omega (arith, occupied-after 100 (omega (arith, at)), holds.room);
    named = λ j has. elim has [ inl same ↦ λ z. real (sym same ∙ z) | inr old ↦ holds.named j old ];
    reached = λ j has. elim has [
      | inl same ↦ rw same (
        m,
        low,
        ap (λ (n : ℕ). (after.hash n).host_id) (sym at) ∙ at_self,
        Taken-after (host_id % 100) m taken,
      )
      | inr old ↦
          let (d, d_low, found, before) = holds.reached j old in
          elim (split (place (j % 100) d)) [
            | inl same ↦ absurd (
                holds.named j old
                  (sym found ∙ ap (λ (n : ℕ). (hl.hash n).host_id) (sym same) ∙ empty))
            | inr apart ↦ (
              d,
              d_low,
              at_other (place (j % 100) d) apart ∙ found,
              Taken-after (j % 100) d before,
            )
          ]
    ];
    only = λ i small taken_i. elim (split i) [
      | inl same ↦ inl (ap (λ (n : ℕ). (after.hash n).host_id) (sym same) ∙ at_self)
      | inr apart ↦
          let same : (after.hash i).host_id ≡ (hl.hash i).host_id = at_other i apart in
          inr (subst (λ n. Has n ids) (sym same) (holds.only i small (λ z. taken_i (same ∙ z))))
    ];
  }

-- What the result says of the table.
abbrev pub Adds : List ℕ → ℕ → Option (HostList × Added) → Type 0
Adds ids host_id r = (hl : HostList) × (r ≡ some (hl, added)) × Holds hl (host_id ∷ ids)

-- A host identifier other than 0 is added to a table that holds fewer than 99 hosts: the search for a place
-- ends, and the table then holds this host too.
pub host_list_add-Adds :
    (hl : HostList) (ids : List ℕ) (host_id : ℕ)
    → Holds hl ids
    → length ids + 1 < 100
    → host_id ≢ 0
    → Adds ids host_id (host_list_add hl host_id)
unfolding host_list_add
host_list_add-Adds hl ids host_id holds fits real =
    let room : leb hl.hash_size (add64 hl.count 1) ≡ false =
      ground (arith, holds.size, holds.counted, fits) in
    let at : place (host_id % 100) 0 ≡ host_id % 100 = omega arith in
    elim (find_empty-Taken hl (host_id % 100) holds.size 100 0
      (λ j low. absurd (omega (arith, low)))) [
        | inl (m, found, empty, low, taken) ↦
            let e : ℕ = place (host_id % 100) m in
            let search : find_empty hl.hash_size hl (host_id % hl.hash_size) ≡ some e =
              ap (λ (n : ℕ). find_empty n hl (host_id % n)) holds.size
              ∙ ap (λ (i : ℕ). find_empty 100 hl i) (sym at)
              ∙ found in
            (
              put_host hl e host_id,
              rw (room, search) refl,
              put_host-Holds hl e host_id empty real ids m holds fits refl (omega (arith, low))
                  taken,
            )
        | inr all ↦ absurd (not-Taken hl ids (host_id % 100) holds (omega arith) all)
      ]

-- A table that holds 99 hosts takes no more and stays as it is.
pub host_list_add-full :
    (hl : HostList) (ids : List ℕ) (host_id : ℕ)
    → Holds hl ids
    → 99 ≤ length ids
    → host_list_add hl host_id ≡ some (hl, full)
unfolding host_list_add
host_list_add-full hl ids host_id holds many =
    let room : leb hl.hash_size (add64 hl.count 1) ≡ true =
      ground (arith, holds.size, holds.counted, holds.fits, many) in
    rw room refl

pub host_list_create-Holds : Holds host_list_create []
unfolding occupied
host_list_create-Holds = record {
  size = refl;
  counted = refl;
  fits = omega arith;
  room = omega arith;
  named = λ j has. absurd has;
  reached = λ j has. absurd has;
  only = λ i small taken. absurd (taken refl);
}
