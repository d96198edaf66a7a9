-- ===== src/Log/Ring/Tail.antt =====
-- What LogTail extracts.
use mathlib.Core.Path.{subst}
use cspot.Base.{
  ℕ, zero, suc, ◌+◌, ◌-◌, ◌^◌, ◌≤◌, ◌<◌, ◌≡◌, ◌∙◌, ap, sym, refl, List, [], ◌∷◌, Option, some, true,
  false, arith, inl, inr, Bool-cases, if◌then◌else◌, ◌==◌, leb, ltb, length, take, get_elem?,
}
use cspot.Log.Event.{Event}
use cspot.Log.Ring.{Log, log_add, log_create, log_tail, tail_from, step_back}
use cspot.Log.Ring.Keeps.{Keeps, Logs, log_add-Keeps, log_add-size, log_create-Logs}
use cspot.Log.Ring.Places.{back, step_back-back, back-zero}

-- the events from a number on, in the order of the list
abbrev pub since : ℕ → List Event → List Event
since earliest [] = []
since earliest (e ∷ es) = if ltb e.seq_no earliest then since earliest es else e ∷ since earliest es

abbrev pub reverse_onto {ℓ} : {A : Type ℓ} → List A → List A → List A
reverse_onto [] acc = acc
reverse_onto (x ∷ xs) acc = reverse_onto xs (x ∷ acc)

take_all {ℓ} : {A : Type ℓ} (n : ℕ) (xs : List A) → length xs ≤ n → take n xs ≡ xs
take_all zero [] h = refl
take_all zero (x ∷ xs) h = absurd (omega (arith, h))
take_all (suc n) [] h = refl
take_all (suc n) (x ∷ xs) h = ap (λ r. x ∷ r) (take_all n xs (omega (arith, h)))

log_add-room :
    (log : Log) (evs : List Event) (e : Event)
    → Keeps log evs
    → length evs + 1 < log.size
    → Keeps (log_add log e) (e ∷ evs)
log_add-room log evs e keeps room =
    subst (λ es. Keeps (log_add log e) es) (take_all (log.size - 1) (e ∷ evs) (omega (arith, room)))
      (log_add-Keeps log evs e keeps)

-- Numbers fall by one from `n - 1` on.
abbrev Falls : ℕ → List Event → Type 0
Falls n evs = (k : ℕ) (e : Event) → get_elem? evs k ≡ some e → e.seq_no + suc k ≡ n

Falls-tail : (n : ℕ) (e : Event) (es : List Event) → Falls n (e ∷ es) → Falls e.seq_no es
Falls-tail n e es falls k x found = omega (arith, falls (suc k) x found, falls 0 e refl)

since_none :
    (n earliest : ℕ) (evs : List Event) → Falls n evs → n ≤ earliest → since earliest evs ≡ []
since_none n earliest [] falls low = refl
since_none n earliest (e ∷ es) falls low =
    let old : ltb e.seq_no earliest ≡ true = ground (arith, falls 0 e refl, low) in
    rw old (
      since_none e.seq_no earliest es (Falls-tail n e es falls)
        (omega (arith, falls 0 e refl, low)))

module _ (log : Log) (evs : List Event) (keeps : Keeps log evs) (earliest max_size : ℕ) where
  -- The events `rem` stand from the k-th place before the head on.
  abbrev Remain : ℕ → List Event → Type 0
  Remain k rem =
      (j : ℕ) (e : Event)
      → get_elem? rem j ≡ some e
      → log.ev_array (back log.size log.head (k + j)) ≡ e

  Remain-tail : (k : ℕ) (x : Event) (xs : List Event) → Remain k (x ∷ xs) → Remain (suc k) xs
  Remain-tail k x xs remain j e found =
      ap (λ (n : ℕ). log.ev_array (back log.size log.head n)) (omega arith) ∙ remain (suc j) e found

  -- What the loop returns.
  abbrev Extracts : List Event → Option Log → Type 0
  Extracts found r = (l : Log) × (r ≡ some l) × Keeps l found

  -- A round that takes an event, and where the loop ends after it or goes on.
  round_new :
      (x : Event) (k fuel : ℕ) (lt : Log)
      → log.ev_array (back log.size log.head k) ≡ x
      → ltb x.seq_no earliest ≡ false
      → suc k < log.size
      → suc k < max_size
      → tail_from (suc fuel) log earliest max_size (back log.size log.head k) k lt ≡ (
          if back log.size log.head (suc k) == log.tail
          then some (log_add lt x)
          else tail_from fuel log earliest max_size
              (back log.size log.head (suc k))
              (suc k)
              (log_add lt x))
  unfolding tail_from
  round_new x k fuel lt at new more wide =
      let before : step_back log (back log.size log.head k) ≡ back log.size log.head (suc k) =
        step_back-back log log.head k keeps.head_in keeps.small more in
      let counted : k + 1 ≡ suc k = omega arith in
      let room : leb max_size (suc k) ≡ false = ground (arith, wide) in
      rw (at, new, before, counted, room) refl

  tail_from-Extracts :
      (rem : List Event) (n k fuel : ℕ) (acc : List Event) (lt : Log)
      → Remain k rem
      → Falls n rem
      → k + length rem ≡ length evs
      → 0 < length rem
      → length rem ≤ fuel
      → Keeps lt acc
      → lt.size ≡ max_size
      → length acc ≡ k
      → k + length (since earliest rem) < max_size
      → Extracts
          (reverse_onto (since earliest rem) acc)
          (tail_from fuel log earliest max_size (back log.size log.head k) k lt)
  unfolding tail_from
  tail_from-Extracts [] n k fuel acc lt remain falls sum some_left enough held size count room =
      absurd (omega (arith, some_left))
  tail_from-Extracts (x ∷ xs) n k zero acc lt remain falls sum some_left enough held size count
        room =
      absurd (omega (arith, enough))
  tail_from-Extracts (x ∷ []) n k (suc fuel) acc lt remain falls sum some_left enough held size
        count room =
      let at : log.ev_array (back log.size log.head k) ≡ x =
        ap (λ (n : ℕ). log.ev_array (back log.size log.head n)) (omega arith) ∙ remain 0 x refl in
      elim (Bool-cases (ltb x.seq_no earliest)) [
        | inl old ↦ rw (at, old) (lt, refl, held)
        | inr new ↦
            let wide : suc k < max_size = ground (arith, new, room) in
            let last : (back log.size log.head (suc k) == log.tail) ≡ true =
              ground (arith, keeps.tail_at, sum) in
            subst (λ r. Extracts (reverse_onto (since earliest (x ∷ [])) acc) r)
              (sym (round_new x k fuel lt at new (omega (arith, sum, keeps.fits)) wide))
              (rw (new, last)
                (log_add lt x, refl, log_add-room lt acc x held (omega (arith, wide, count, size))))
      ]
  tail_from-Extracts (x ∷ y ∷ ys) n k (suc fuel) acc lt remain falls sum some_left enough held size
        count room =
      let at : log.ev_array (back log.size log.head k) ≡ x =
        ap (λ (n : ℕ). log.ev_array (back log.size log.head n)) (omega arith) ∙ remain 0 x refl in
      elim (Bool-cases (ltb x.seq_no earliest)) [
        | inl old ↦
            let none_left : since earliest (y ∷ ys) ≡ [] =
              since_none x.seq_no earliest (y ∷ ys) (Falls-tail n x (y ∷ ys) falls)
                (ground (arith, old)) in
            rw (at, old, none_left) (lt, refl, held)
        | inr new ↦
            let found : since earliest (x ∷ y ∷ ys) ≡ x ∷ since earliest (y ∷ ys) = rw new refl in
            let wide : suc k + length (since earliest (y ∷ ys)) < max_size =
              omega (arith, room, ap (λ (es : List Event). length es) found) in
            let inner : (back log.size log.head (suc k) == log.tail) ≡ false =
              ground (arith, keeps.tail_at, sum, keeps.head_in, keeps.fits) in
            subst (λ r. Extracts (reverse_onto (since earliest (x ∷ y ∷ ys)) acc) r)
              (sym (
                round_new x k fuel lt at new (omega (arith, sum, keeps.fits))
                  (omega (arith, wide))))
              (rw (new, inner)
                (tail_from-Extracts (y ∷ ys) x.seq_no (suc k) fuel (x ∷ acc) (log_add lt x)
                  (Remain-tail k x (y ∷ ys) remain) (Falls-tail n x (y ∷ ys) falls)
                  (omega (arith, sum)) (omega arith) (omega (arith, enough))
                  (log_add-room lt acc x held (omega (arith, wide, count, size)))
                  (log_add-size lt x ∙ size) (omega (arith, count)) wide))
      ]

-- LogTail of a log that keeps events, with room for those asked for and one more: a log of exactly the
-- events from the number `earliest` on, in the opposite order.
pub log_tail-since :
    (log : Log) (evs : List Event) (earliest max_size : ℕ)
    → Logs log evs
    → 0 < length evs
    → length (since earliest evs) < max_size
    → max_size < 2 ^ 64
    → (l : Log) × (log_tail log earliest max_size ≡ some (some l))
      × Keeps l (reverse_onto (since earliest evs) [])
unfolding log_tail
log_tail-since log evs earliest max_size (keeps, numbered) nonempty room small =
    let full : (log.head == log.tail) ≡ false =
      ground (arith, keeps.tail_at, keeps.head_in, keeps.fits, nonempty) in
    let (new, unnumbered) = log_create-Logs 0 max_size (omega (arith, room)) small in
    let at : (j : ℕ) (e : Event)
        → get_elem? evs j ≡ some e
        → log.ev_array (back log.size log.head (0 + j)) ≡ e =
      λ j e found.
        ap (λ (n : ℕ). log.ev_array (back log.size log.head n)) (omega arith)
        ∙ keeps.stored j e found in
    let (l, e, held) =
      tail_from-Extracts log evs keeps earliest max_size evs log.seq_no 0 log.size []
        (log_create 0 max_size) at numbered (omega arith) nonempty (omega (arith, keeps.fits)) new
        refl refl (omega (arith, room)) in
    let start : tail_from log.size log earliest max_size log.head 0 (log_create 0 max_size)
        ≡ some l =
      ap (λ (i : ℕ). tail_from log.size log earliest max_size i 0 (log_create 0 max_size))
        (sym (back-zero log.size log.head))
      ∙ e in
    (l, rw (full, start) refl, held)
