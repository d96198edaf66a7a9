-- ===== src/Handler.antt =====
-- Handlers as actions on the state of a namespace. A handler returns, or ends its process by exit(1);
-- what it put before that stays.
use cspot.Base.{◌≡◌, refl, ◌⊎◌, inl, inr}

-- `exit`: the process called exit(1). `crash`: it followed a null pointer.
pub data Result {ℓ} (A : Type ℓ) : Type ℓ where
  done : A → Result A
  exit : Result A
  crash : Result A

-- `N` is the state of the namespace.
abbrev pub Action : Type 0 → Type 0 → Type 0
Action N A = N → Result A × N

abbrev pub continue : {N A B : Type 0} → Result A → (A → Action N B) → Action N B
continue (done a) f n = f a n
continue exit f n = (exit, n)
continue crash f n = (crash, n)

infixl 10 ◌>>=◌ ◌>>◌
abbrev pub ◌>>=◌ : {N A B : Type 0} → Action N A → (A → Action N B) → Action N B
◌>>=◌ m f n = let (r, n') = m n in continue r f n'

abbrev pub ◌>>◌ : {N B : Type 0} → Action N (Unit {0}) → Action N B → Action N B
m >> k = m >>= λ _. k

abbrev pub pure : {N A : Type 0} → A → Action N A
pure a n = (done a, n)

module _ {N A B : Type 0} where
  continue_rule :
      (r : Result A) (f : A → Action N B) (n : N) (Q : Result B × N → Type 0)
      → ((a : A) → r ≡ done a → Q (f a n))
      → Q (exit, n)
      → Q (crash, n)
      → Q (continue r f n)
  continue_rule (done a) f n Q d e c = d a refl
  continue_rule exit f n Q d e c = e
  continue_rule crash f n Q d e c = c

  -- A statement on the end of a sequence holds if it holds wherever the first part ends it, and of
  -- the second part wherever the first returns.
  pub bind_rule :
      (m : Action N A) (f : A → Action N B) (n : N) (Q : Result B × N → Type 0)
      → ((a : A) → (m n).0 ≡ done a → Q (f a (m n).1))
      → Q (exit, (m n).1)
      → Q (crash, (m n).1)
      → Q ((m >>= f) n)
  bind_rule m f n Q d e c = continue_rule (m n).0 f (m n).1 Q d e c

pub Result-cases {ℓ} :
    {A : Type ℓ} (r : Result A) → ((a : A) × (r ≡ done a)) ⊎ ((r ≡ exit) ⊎ (r ≡ crash))
Result-cases (done a) = inl (a, refl)
Result-cases exit = inr (inl refl)
Result-cases crash = inr (inr refl)
