-- ===== src/Cmq/Frame/Create.antt =====
-- New frames.
use cspot.Base.{
  ℕ, ◌+◌, ◌≤◌, ◌≡◌, ◌≢◌, ◌∙◌, ap, sym, refl, List, [], ◌∷◌, Option, none, some, ◌&&◌, ◌==◌, arith,
  Bool-cases, inl, inr, if◌then◌else◌, update_self, update_ne,
}
use cspot.Cmq.Frame.{Heap, Result, done, copied, is_null, cmq_frame_create}
use cspot.Cmq.Frame.Chain.{Item, frame_of, Fresh, Chain}

-- Addresses that no malloc has returned hold nothing.
abbrev pub Unused : Heap → Type 0
Unused h = (a : ℕ) → h.mallocs ≤ a → h.frames a ≡ none

-- the frame that is created
abbrev pub new_item : ℕ → Option (List ℕ) → ℕ → Item
new_item a ptr len =
    if is_null ptr && (len == 0)
    then record { address = a; size = 0; payload = none }
    else record { address = a; size = len; payload = some (copied ptr len) }

-- Either there is no frame and the heap's frames are as before, or there is a new one that holds a
-- copy, that nothing else points to, and all other frames are as before.
pub data Creates (h : Heap) (ptr : Option (List ℕ)) (len : ℕ) (r : Result (Option ℕ) × Heap)
    : Type 0 where
  fails : r.0 ≡ done none → r.1.frames ≡ h.frames → Unused r.1 → Creates h ptr len r
  creates :
      r.0 ≡ done (some h.mallocs)
      → r.1.frames h.mallocs ≡ some (frame_of (new_item h.mallocs ptr len) none)
      → h.frames h.mallocs ≡ none
      → ((a : ℕ) → a ≢ h.mallocs → r.1.frames a ≡ h.frames a)
      → Unused r.1
      → Creates h ptr len r

-- cmq_frame_create, whether or not its calls of malloc fail.
pub cmq_frame_create-Creates :
    (h : Heap) (ptr : Option (List ℕ)) (len : ℕ)
    → Unused h
    → Creates h ptr len (cmq_frame_create ptr len h)
unfolding cmq_frame_create
cmq_frame_create-Creates h ptr len unused = elim (Bool-cases (h.fails h.mallocs)) [
  | inl k ↦ rw k (fails refl refl (λ a low. unused a (omega arith)))
  | inr k ↦ elim (Bool-cases (is_null ptr && (len == 0))) [
    | inl z ↦
        rw (k, z)
          (creates refl (update_self h.frames h.mallocs _ ∙ rw z refl)
            (unused h.mallocs (omega arith))
            (λ a other. update_ne h.frames h.mallocs a _ (λ e. other (sym e)))
            (λ a low.
              update_ne h.frames h.mallocs a _ (λ e. absurd (omega (arith, e, low)))
              ∙ unused a (omega arith)))
    | inr z ↦ elim (Bool-cases (h.fails (h.mallocs + 1))) [
      | inl j ↦ rw (k, z, j) (fails refl refl (λ a low. unused a (omega arith)))
      | inr j ↦
          rw (k, z, j)
            (creates refl (update_self h.frames h.mallocs _ ∙ rw z refl)
              (unused h.mallocs (omega arith))
              (λ a other. update_ne h.frames h.mallocs a _ (λ e. other (sym e)))
              (λ a low.
                update_ne h.frames h.mallocs a _ (λ e. absurd (omega (arith, e, low)))
                ∙ unused a (omega arith)))
    ]
  ]
]

pub Fresh-unused :
    (h : Heap) (a : ℕ) (xs : List Item) (p : Option ℕ)
    → h.frames a ≡ none
    → Chain h xs p
    → Fresh a xs
Fresh-unused h a [] p e c = tt
Fresh-unused h a (x ∷ xs) p e (at, distinct, (next, found, rest)) =
    (λ k. absurd (ground (arith, sym e ∙ ap h.frames k ∙ found)), Fresh-unused h a xs next e rest)
