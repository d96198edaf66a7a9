-- ===== src/Base/Strings.antt =====
-- C strings as the list of their character codes, without the closing NUL.
use Prim.Native.Nat.{ℕ}
use Prim.Native.Char.{code}
use Prim.Native.String.{String}
use mathlib.Core.Path.{◌≡◌, refl}
use mathlib.Core.Logic.{◌↔◌}
use mathlib.Core.Bool.{Bool, true, false, ◌&&◌, ◌||◌}
use mathlib.Core.List.{List, [], ◌∷◌}
use native.Mathlib.Omega.{arith}
use cspot.Base.Tests.{◌==◌}

abbrev pub Text : Type 0
Text = List ℕ

-- the codes of a literal
abbrev pub codes : String → Text
codes String.[] = []
codes (String.◌∷◌ c s) = code c ∷ codes s

-- strcmp(s, t) == 0
unfoldable pub same : Text → Text → Bool
same [] [] = true
same [] (d ∷ t) = false
same (c ∷ s) [] = false
same (c ∷ s) (d ∷ t) = (c == d) && same s t

-- s[0] == 0
unfoldable pub is_empty : Text → Bool
is_empty [] = true
is_empty (c ∷ s) = false

same_to : (s t : Text) → same s t ≡ true → s ≡ t
unfolding same
same_to [] [] h = refl
same_to [] (d ∷ t) h = ground arith
same_to (c ∷ s) [] h = ground arith
same_to (c ∷ s) (d ∷ t) h = ground (arith, same_to s t)

pub same_refl : (s : Text) → same s s ≡ true
unfolding same
same_refl [] = refl
same_refl (c ∷ s) = ground (arith, same_refl s)

pub same_iff : (s t : Text) → (same s t ≡ true) ↔ (s ≡ t)
same_iff s t = (same_to s t, λ e. rw (← e) (same_refl s))

pub is_empty_iff : (s : Text) → (is_empty s ≡ true) ↔ (s ≡ [])
unfolding is_empty
is_empty_iff [] = ((λ _. refl), (λ _. refl))
is_empty_iff (c ∷ s) = ((λ h. ground arith), (λ h. ground arith))

starts_with : Text → Text → Bool
starts_with [] s = true
starts_with (c ∷ t) [] = false
starts_with (c ∷ t) (d ∷ s) = (c == d) && starts_with t s

-- strstr(s, t) != NULL
unfoldable pub contains : Text → Text → Bool
unfolding starts_with
contains t [] = starts_with t []
contains t (c ∷ s) = starts_with t (c ∷ s) || contains t s
