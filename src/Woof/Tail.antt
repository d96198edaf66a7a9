-- ===== src/Woof/Tail.antt =====
-- WooFReadTail before the log wraps.
use mathlib.Core.Option.{some_inj}
use native.Mathlib.Nat.{mod-eq_of_lt}
use cspot.Base.{
  ℕ, zero, suc, ◌-◌, ◌^◌, ◌<◌, ◌≡◌, ◌∙◌, refl, sym, ap, ap₂, List, [], ◌∷◌, ◌++◌, some, arith,
  length, get_elem?, minus_one,
}
use cspot.Woof.{Woof, read_tail, read_tail_from}
use cspot.Woof.History.{Shows}

module _ {A : Type 0} where
  -- the slots from `ndx` down to 0
  abbrev down_from : Woof A → ℕ → List A
  down_from w zero = w.buf 0 ∷ []
  down_from w (suc ndx) = w.buf (suc ndx) ∷ down_from w ndx

  read_tail_from_lem :
      (w : Woof A) (count ndx : ℕ)
      → w.tail ≡ minus_one
      → w.history_size < 2 ^ 63
      → ndx < w.history_size
      → ndx < count
      → read_tail_from w count ndx ≡ down_from w ndx
  unfolding read_tail_from
  read_tail_from_lem w zero ndx t s p q = elim q [ ]
  read_tail_from_lem w (suc count) zero t s p q = ground (arith)
  read_tail_from_lem w (suc count) (suc ndx) t s p q =
      ground (arith, read_tail_from_lem w count ndx)

  down_from_lem :
      (w : Woof A) (xs : List A)
      → ((i : ℕ) → i < length xs → get_elem? xs i ≡ some (w.buf (length xs - i)))
      → down_from w (length xs) ≡ xs ++ (w.buf 0 ∷ [])
  down_from_lem w [] h = refl
  down_from_lem w (x ∷ xs) h =
      ap₂ ◌∷◌ (sym (some_inj.0 (h 0 (omega arith) ∙ ap (λ k. some (w.buf k)) (omega arith))))
        (down_from_lem w xs λ i p. h (suc i) (omega arith) ∙ ap (λ k. some (w.buf k)) (omega arith))

  -- Asked for more elements than a log that has not wrapped holds, WooFReadTail returns all of them,
  -- newest first, and behind them slot 0, which no element was ever written to.
  pub read_tail-past_end :
      (w : Woof A) (xs : List A) (count : ℕ)
      → Shows w xs
      → length xs < w.history_size
      → length xs < count
      → read_tail w count ≡ xs ++ (w.buf 0 ∷ [])
  unfolding read_tail
  read_tail-past_end w xs count v p q =
      ap (read_tail_from w count) (v.head_at ∙ mod-eq_of_lt p)
      ∙ read_tail_from_lem w count (length xs) (ground (arith, v.tail_at)) v.small p q
      ∙ down_from_lem w xs
          λ i k. v.slots i k (omega arith) ∙ ap (λ j. some (w.buf j)) (mod-eq_of_lt (omega arith))
