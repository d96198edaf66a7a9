-- ===== src/Woof/Tests.antt =====
-- Runs of the circular log, and the theorems about it at concrete logs.
use native.Mathlib.Omega.{arith}
use cspot.Base.{ℕ, ◌-◌, ◌≡◌, refl, [], ◌∷◌, ◌++◌, none, some, drop}
use cspot.Woof.{
  Woof, create, append, read, read_at, latest_seqno, get_earliest, truncate, read_tail,
}
use cspot.Woof.History.{Shows, create-Shows, append-Shows}
use cspot.Woof.Read.{element, read_lem}
use cspot.Woof.Tail.{read_tail-past_end}
use cspot.Woof.Truncate.{truncate-Shows, truncate_zero_loses}

abbrev empty : Woof ℕ
empty = create 3 0

abbrev two : Woof ℕ
two = append (append empty 7) 8

abbrev four : Woof ℕ
four = append (append two 9) 10

wraps :
    (read four 0 ≡ some 10) × (read four 1 ≡ none) × (read four 2 ≡ some 8) × (read four 5 ≡ none)
unfolding create append read read_at latest_seqno get_earliest
wraps = (refl, refl, refl, refl)

tail_of_two : read_tail two 5 ≡ 8 ∷ 7 ∷ 0 ∷ []
unfolding create append read_tail
tail_of_two = refl

empty-Shows : Shows empty []
empty-Shows = create-Shows 3 0 (omega arith) (omega arith)

one-Shows : Shows (append empty 7) (7 ∷ [])
one-Shows = append-Shows empty [] empty-Shows (omega arith) 7

append-Shows_example : Shows two (8 ∷ 7 ∷ [])
append-Shows_example = append-Shows (append empty 7) (7 ∷ []) one-Shows (omega arith) 8

two-Shows : Shows two (8 ∷ 7 ∷ [])
two-Shows = append-Shows (append empty 7) (7 ∷ []) one-Shows (omega arith) 8

read_lem_example : read two 1 ≡ element (append (append empty 7) 8).history_size (8 ∷ 7 ∷ []) 1
read_lem_example = read_lem two-Shows 1

truncate-Shows_example :
    (w : Woof ℕ) × (truncate two 1 ≡ some w) × Shows w (drop (2 - 1) (8 ∷ 7 ∷ []))
unfolding create append
truncate-Shows_example =
    truncate-Shows two (8 ∷ 7 ∷ []) 1 two-Shows (omega arith) (omega arith) (omega arith)

emptied : truncate two 0 ≡ some (record two { head = 0; tail = 0; seq_no = 1 })
unfolding truncate
emptied = refl

truncate_zero_loses_example :
    (read (append (record two { head = 0; tail = 0; seq_no = 1 }) 5) 1 ≡ none)
    × (read (append (record two { head = 0; tail = 0; seq_no = 1 }) 5) 0 ≡ none)
unfolding create append
truncate_zero_loses_example =
    truncate_zero_loses two (record two { head = 0; tail = 0; seq_no = 1 }) 5 (omega arith)
      (omega arith) emptied

read_tail-past_end_example : read_tail two 5 ≡ (8 ∷ 7 ∷ []) ++ (two.buf 0 ∷ [])
unfolding create append
read_tail-past_end_example =
    read_tail-past_end two (8 ∷ 7 ∷ []) 5 two-Shows (omega arith) (omega arith)
