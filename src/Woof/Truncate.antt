-- ===== src/Woof/Truncate.antt =====
-- WooFTruncate: right before the log wraps, wrong when it empties the log.
use mathlib.Core.Option.{some_inj}
use mathlib.Core.Path.{subst}
use native.Mathlib.Nat.{mod-eq_of_lt, add-mod_right}
use cspot.Base.{
  ℕ, zero, suc, ◌+◌, ◌-◌, ◌%◌, ◌^◌, ◌≤◌, ◌<◌, ◌≡◌, ◌∙◌, refl, sym, ap, List, [], ◌∷◌, none, some,
  arith, length, get_elem?, drop, length-drop, add64, sub64,
}
use cspot.Woof.{Woof, append, truncate, latest_seqno, get_earliest, read, read_at}
use cspot.Woof.History.{Shows}

get_elem?-drop {ℓ} :
    {A : Type ℓ} (k i : ℕ) (xs : List A) → get_elem? (drop k xs) i ≡ get_elem? xs (k + i)
get_elem?-drop zero i xs = ap (get_elem? xs) {x = i} {y = 0 + i} (omega arith)
get_elem?-drop (suc k) i [] = refl
get_elem?-drop (suc k) i (x ∷ xs) =
    get_elem?-drop k i xs ∙ ap (get_elem? (x ∷ xs)) {x = suc (k + i)} {y = suc k + i} (omega arith)

module _ {A : Type 0} where
  -- Before the log wraps, truncation to a number that it holds drops the newer elements and keeps
  -- the rest of the log.
  pub truncate-Shows :
      (w : Woof A) (xs : List A) (l : ℕ)
      → Shows w xs
      → length xs < w.history_size
      → 0 < l
      → l ≤ length xs
      → (w' : Woof A) × (truncate w l ≡ some w') × Shows w' (drop (length xs - l) xs)
  unfolding truncate latest_seqno
  truncate-Shows w xs l v p q r = (
    record w { head = l; seq_no = l + 1 },
    ground (
      arith,
      v.tail_at,
      v.fits,
      v.small,
      moved,
      mod-eq_of_lt {n = l} {m = w.history_size} (omega arith),
      mod-eq_of_lt {n = 0} {m = w.history_size} v.pos,
      add-mod_right l w.history_size,
    ),
    record {
      pos = v.pos;
      small = v.small;
      seq = omega (arith, length-drop (length xs - l) xs);
      fits = omega (arith, v.fits, length-drop (length xs - l) xs);
      head_at = sym (
          ap (λ k. k % w.history_size) kept
          ∙ mod-eq_of_lt {n = l} {m = w.history_size} (omega arith));
      tail_at = ground (arith, v.tail_at, kept);
      slots = λ i a b.
          get_elem?-drop (length xs - l) i xs
          ∙ v.slots (length xs - l + i) (omega (arith, kept)) (omega (arith, kept))
          ∙ ap (λ k. some (w.buf (k % w.history_size))) (omega (arith, kept));
    },
  )
    where
      moved : sub64 (add64 w.head w.history_size) (sub64 (sub64 w.seq_no 1) l) ≡ l + w.history_size
      moved = omega (arith, v.head_at, v.seq, v.fits, v.small, mod-eq_of_lt p)

      kept : length (drop (length xs - l) xs) ≡ l
      kept = omega (arith, length-drop (length xs - l) xs)

  -- After a truncation to 0 the first element put into a log of three slots or more cannot be read,
  -- by its number or as the newest one.
  pub truncate_zero_loses :
      (w w' : Woof A) (x : A)
      → 2 < w.history_size
      → w.history_size < 2 ^ 63
      → truncate w 0 ≡ some w'
      → (read (append w' x) 1 ≡ none) × (read (append w' x) 0 ≡ none)
  unfolding truncate append read read_at get_earliest latest_seqno
  truncate_zero_loses w w' x p q e =
      subst (λ (u : Woof A). (read (append u x) 1 ≡ none) × (read (append u x) 0 ≡ none))
        (some_inj.0 e) (ground (arith, one), ground (arith, one))
    where
      one : 1 % w.history_size ≡ 1
      one = mod-eq_of_lt {n = 1} {m = w.history_size} (omega arith)
