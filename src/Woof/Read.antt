-- ===== src/Woof/Read.antt =====
-- What a client reads from a log that is only appended to.
use native.Mathlib.Nat.{mod-add-mod, mod-eq_of_lt, mod-lt, add-mod_left, add-mod_right}
use native.Mathlib.Decide.{dec_lt}
use cspot.Base.{
  ℕ, zero, suc, ◌+◌, ◌-◌, ◌%◌, ◌≤◌, ◌<◌, ◌≡◌, ◌∙◌, ap, List, Option, none, some, arith, ltb, ◌==◌,
  ◌||◌, if◌then◌else◌, length, get_elem?, sym, if_cong_else, outside-false, lt→ltb, ltb-false,
  ne→==, add64, sub64,
}
use cspot.Woof.{Woof, latest_seqno, get_earliest, read, read_at, last_valid}
use cspot.Woof.History.{Shows}

-- element number `l` of the log, counted from 1, while the last `size` elements are kept
unfoldable pub element {ℓ} : {A : Type ℓ} → ℕ → List A → ℕ → Option A
element size xs l =
    if ltb l (length xs - size + 1) || ltb (length xs) l then none else get_elem? xs (length xs - l)

module _ {ℓ} {A : Type ℓ} where
  module _ {w : Woof A} {xs : List A} (v : Shows w xs) where
    latest_seqno_lem : latest_seqno w ≡ length xs
    unfolding latest_seqno
    latest_seqno_lem = omega (arith, v.seq, v.fits)

    get_earliest_lem : get_earliest w ≡ length xs - w.history_size + 1
    unfolding get_earliest latest_seqno
    get_earliest_lem = elim (dec_lt (length xs) w.history_size) [
      | yes p ↦ ground (arith, v.tail_at, v.head_at, v.seq, v.fits, mod-eq_of_lt p)
      | no p ↦ ground (
        arith,
        v.tail_at,
        v.seq,
        v.fits,
        v.small,
        mod-lt (length xs + 1) {m = w.history_size} v.pos,
      )
    ]

    ndx_lem :
        (l : ℕ)
        → length xs - w.history_size < l
        → l ≤ length xs
        → add64 (last_valid w) (sub64 l (length xs - w.history_size + 1)) % w.history_size
          ≡ l % w.history_size
    ndx_lem l p q = elim (dec_lt (length xs) w.history_size) [
      | yes u ↦ ap (λ k. k % w.history_size) (wide u) ∙ add-mod_left w.history_size l
      | no u ↦
          ap (λ k. k % w.history_size) (narrow u)
          ∙ mod-add-mod (length xs + 1) w.history_size (l - (length xs - w.history_size + 1))
          ∙ ap (λ k. k % w.history_size) (omega arith)
          ∙ add-mod_right l w.history_size
    ]
      where
        wide :
            length xs < w.history_size
            → add64 (last_valid w) (sub64 l (length xs - w.history_size + 1)) ≡ w.history_size + l
        wide u = ground (arith, v.tail_at, v.small, v.fits)

        narrow :
            ¬ (length xs < w.history_size)
            → add64 (last_valid w) (sub64 l (length xs - w.history_size + 1))
              ≡ (length xs + 1) % w.history_size + (l - (length xs - w.history_size + 1))
        narrow u =
            ground
              (arith, v.tail_at, v.small, v.fits, mod-lt (length xs + 1) {m = w.history_size} v.pos)

    slot_lem :
        (l : ℕ)
        → 0 < l
        → (length xs - w.history_size + 1 ≤ l) × (l ≤ length xs)
        → some (w.buf (l % w.history_size)) ≡ get_elem? xs (length xs - l)
    slot_lem l p (lo, hi) =
        ap (λ k. some (w.buf (k % w.history_size))) (omega arith)
        ∙ sym (v.slots (length xs - l) (omega arith) (omega (arith, v.pos)))

    read_at_lem : (l : ℕ) → 0 < l → read_at w l ≡ element w.history_size xs l
    unfolding read_at element
    read_at_lem l p =
        rw (get_earliest_lem, latest_seqno_lem)
          (if_cong_else _ none _ _ λ e.
            let (lo, hi) = outside-false l (length xs - w.history_size + 1) (length xs) e in
            ap (λ k. some (w.buf k)) (ndx_lem l (omega arith) hi) ∙ slot_lem l p (lo, hi))

    read-zero : read w 0 ≡ element w.history_size xs (length xs)
    unfolding read
    read-zero = elim (dec_lt 0 (length xs)) [
      | yes p ↦
          rw (lt→ltb 1 w.seq_no (omega (arith, v.seq)), latest_seqno_lem)
            (read_at_lem (length xs) p)
      | no p ↦ rw (ltb-false 1 w.seq_no (omega (arith, v.seq))) (
          unfold element in
          rw (lt→ltb (length xs) (length xs - w.history_size + 1) (omega (arith, v.pos))))
    ]

    -- WooFReadWithCause on a log that `xs`, newest first, was appended to: it returns exactly the
    -- elements that are among the last `history_size`, number `l` counted from 1, the newest one at
    -- 0, and -1 for any other number and for an empty log.
    pub read_lem : (l : ℕ) → read w l ≡ element w.history_size xs (if l == 0 then length xs else l)
    unfolding read
    read_lem zero = read-zero
    read_lem (suc l) = rw (ne→== (suc l) 0 (omega arith)) (read_at_lem (suc l) (omega arith))
