-- ===== src/Woof/History.antt =====
-- A log that is only appended to shows exactly its last `history_size` elements.
use native.Mathlib.Nat.{mod_self, add-mod_left, mod-add-mod, mod-eq_of_lt, mod-lt, mod-eq-sub-mod}
use native.Mathlib.Numerals.{add-one}
use native.Mathlib.Decide.{dec_lt}
use cspot.Base.{
  ℕ, zero, suc, ◌+◌, ◌-◌, ◌%◌, ◌^◌, ◌<◌, ◌≡◌, ◌≢◌, ◌∙◌, sym, ap, List, [], ◌∷◌, some, arith, ltb,
  if◌then◌else◌, length, get_elem?, minus_one, add64, update, update_self, update_ne,
}
use cspot.Woof.{Woof, create, append, next_tail}

-- going on by less than the size reaches another index
add-mod-ne : (h m d : ℕ) → 0 < d → d < h → (m + d) % h ≢ m % h
add-mod-ne h m d p q e = elim (dec_lt (m % h + d) h) [
  | yes k ↦ omega (arith, mod-eq_of_lt k, mod-add-mod m h d)
  | no k ↦ omega (
    arith,
    mod-add-mod m h d,
    mod-lt m {m = h} (omega arith),
    mod-eq-sub-mod {n = m % h + d} {m = h} (omega arith),
    mod-eq_of_lt {n = m % h + d - h} {m = h} (omega (arith, mod-lt m {m = h} (omega arith))),
  )
]

module _ {ℓ} {A : Type ℓ} where
  -- `xs` is what was appended, newest first
  pub record Shows (w : Woof A) (xs : List A) : Type ℓ where
    pub pos : 0 < w.history_size
    pub small : w.history_size < 2 ^ 63
    pub seq : w.seq_no ≡ length xs + 1
    pub fits : length xs + 1 < 2 ^ 64
    pub head_at : w.head ≡ length xs % w.history_size
    pub tail_at :
        w.tail
        ≡ (if ltb (length xs) w.history_size then minus_one else (length xs + 1) % w.history_size)
    pub slots :
        (i : ℕ)
        → i < length xs
        → i < w.history_size
        → get_elem? xs i ≡ some (w.buf ((length xs - i) % w.history_size))

  pub create-Shows : (h : ℕ) (blank : A) → 0 < h → h < 2 ^ 63 → Shows (create h blank) []
  unfolding create
  create-Shows h blank p q = record {
    pos = p;
    small = q;
    seq = omega arith;
    fits = omega arith;
    head_at = omega (arith, mod-eq_of_lt {n = 0} {m = h} p);
    tail_at = ground arith;
    slots = λ i k. absurd (omega arith);
  }

  module _ (w : Woof A) (xs : List A) (v : Shows w xs) (room : length xs + 2 < 2 ^ 64) where
    abbrev h : ℕ
    h = w.history_size

    abbrev n : ℕ
    n = length xs

    next_slot : add64 w.head 1 % h ≡ suc n % h
    next_slot = omega (
      arith,
      v.head_at,
      v.small,
      mod-lt n {m = h} v.pos,
      mod-add-mod n h 1,
      ap (λ k. k % h) (add64-small w.head),
      ap (λ k. (k + 1) % h) v.head_at,
      ap (λ k. k % h) (add-one n),
    )
      where
        add64-small : (a : ℕ) → add64 w.head 1 ≡ w.head + 1
        add64-small a = omega (arith, v.head_at, v.small, mod-lt n {m = h} v.pos)

    next_tail_at :
        next_tail h (suc n % h) w.tail ≡ (if ltb (suc n) h then minus_one else (suc n + 1) % h)
    next_tail_at = elim (dec_lt (suc n) h) [
      | yes p ↦ ground (arith, v.tail_at, v.small, mod-eq_of_lt p)
      | no p ↦ elim (dec_lt n h) [
        | yes q ↦
            let e : suc n ≡ h = omega arith in
            ground (
              arith,
              v.tail_at,
              v.small,
              e,
              ap (λ k. k % h) e,
              mod_self h,
              ap (λ k. (k + 1) % h) e,
              add-mod_left h 1,
            )
        | no q ↦ ground (
          arith,
          v.tail_at,
          v.small,
          mod-lt (suc n) {m = h} v.pos,
          mod-add-mod (suc n) h 1,
          ap (λ k. k % h) (add-one n),
          ap (λ k. (k + 1) % h) (v.tail_at),
        )
      ]
    ]

    slot_kept : (j : ℕ) → suc j < h → j < n → suc n % h ≢ (n - j) % h
    slot_kept j p q e =
        add-mod-ne h (n - j) (suc j) (omega arith) p (ap (λ k. k % h) (omega arith) ∙ e)

    next_slots :
        (x : A) (i : ℕ)
        → i < suc n
        → i < h
        → get_elem? (x ∷ xs) i ≡ some (update w.buf (suc n % h) x ((suc n - i) % h))
    next_slots x zero p q =
        ap some (sym (update_self w.buf (suc n % h) x))
        ∙ ap (λ k. some (update w.buf (suc n % h) x (k % h))) (omega arith)
    next_slots x (suc j) p q =
        v.slots j (omega arith) (omega arith)
        ∙ ap some (sym (update_ne w.buf _ _ x (slot_kept j q (omega arith))))
        ∙ ap (λ k. some (update w.buf (suc n % h) x (k % h))) (omega arith)

    -- WooFAppendWithCause on a log that shows a list makes one that shows the list with the new element
    -- in front, where the sequence number stays below 2^64.
    pub append-Shows : (x : A) → Shows (append w x) (x ∷ xs)
    unfolding append
    append-Shows x = record {
      pos = v.pos;
      small = v.small;
      seq = omega (arith, v.seq);
      fits = omega (arith, room);
      head_at = next_slot;
      tail_at = rw next_slot next_tail_at;
      slots = rw next_slot (next_slots x);
    }
