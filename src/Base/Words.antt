-- ===== src/Base/Words.antt =====
-- `unsigned long` on the 64-bit targets, and arrays as functions of their index.
use Prim.Native.Nat.{ℕ, ◌+◌, ◌-◌, ◌%◌, ◌^◌}
use mathlib.Core.Path.{◌≡◌}
use mathlib.Core.Bool.{true, false}
use mathlib.Core.Logic.{◌≢◌}
use native.Mathlib.Omega.{arith}
use cspot.Base.Tests.{◌==◌, if◌then◌else◌}

abbrev pub word : ℕ
word = 2 ^ 64

-- (unsigned long)-1
abbrev pub minus_one : ℕ
minus_one = 2 ^ 64 - 1

abbrev pub add64 : ℕ → ℕ → ℕ
add64 a b = (a + b) % word

abbrev pub sub64 : ℕ → ℕ → ℕ
sub64 a b = (a + word - b) % word

pub ==_refl : (i : ℕ) → (i == i) ≡ true
==_refl i = ground arith

==_ne : (i j : ℕ) → i ≢ j → (i == j) ≡ false
==_ne i j h = ground arith

abbrev pub update {ℓ} : {A : Type ℓ} → (ℕ → A) → ℕ → A → ℕ → A
update f i v j = if i == j then v else f j

pub update_self {ℓ} : {A : Type ℓ} (f : ℕ → A) (i : ℕ) (v : A) → update f i v i ≡ v
update_self f i v = rw (==_refl i)

pub update_ne {ℓ} : {A : Type ℓ} (f : ℕ → A) (i j : ℕ) (v : A) → i ≢ j → update f i v j ≡ f j
update_ne f i j v h = rw (==_ne i j h)
