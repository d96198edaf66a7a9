-- ===== src/Cmq/Frame/Chain.antt =====
-- The frames that are linked from a pointer.
use cspot.Base.{
  ℕ, ◌≡◌, ◌≢◌, ◌∙◌, ap, sym, refl, List, [], ◌∷◌, ◌++◌, Option, none, some, arith, update_self,
  update_ne,
}
use cspot.Cmq.Frame.{Frame, Heap, put_frame}

-- a frame in a list: its address, size and payload
pub record Item : Type 0 where
  pub address : ℕ
  pub size : ℕ
  pub payload : Option (List ℕ)

abbrev pub frame_of : Item → Option ℕ → Frame
frame_of x next = record { size = x.size; payload = x.payload; next = next }

abbrev pub Fresh : ℕ → List Item → Type 0
Fresh a [] = Unit
Fresh a (x ∷ xs) = (a ≢ x.address) × Fresh a xs

-- From the pointer, exactly the items are linked, at different addresses.
abbrev pub Chain : Heap → List Item → Option ℕ → Type 0
Chain h [] p = p ≡ none
Chain h (x ∷ xs) p =
    (p ≡ some x.address)
    × Fresh x.address xs
    × ((next : Option ℕ) × (h.frames x.address ≡ some (frame_of x next)) × Chain h xs next)

abbrev pub last_of : List Item → Option ℕ
last_of [] = none
last_of (x ∷ []) = some x.address
last_of (x ∷ y ∷ ys) = last_of (y ∷ ys)

-- A write elsewhere keeps a chain.
pub Chain-put_frame :
    (h : Heap) (a : ℕ) (f : Option Frame) (xs : List Item) (p : Option ℕ)
    → Fresh a xs
    → Chain h xs p
    → Chain (put_frame a f h) xs p
Chain-put_frame h a f [] p fresh c = c
Chain-put_frame h a f (x ∷ xs) p (apart, fresh) (at, distinct, (next, found, rest)) = (
  at,
  distinct,
  (next, update_ne h.frames a x.address f apart ∙ found, Chain-put_frame h a f xs next fresh rest),
)

pub Fresh-last : (a t : ℕ) (xs : List Item) → Fresh a xs → last_of xs ≡ some t → a ≢ t
Fresh-last a t [] fresh e = absurd (ground (arith, e))
Fresh-last a t (x ∷ []) (apart, fresh) e = ground (arith, e, apart)
Fresh-last a t (x ∷ y ∷ ys) (apart, fresh) e = Fresh-last a t (y ∷ ys) fresh e

pub Fresh-snoc :
    (a : ℕ) (x : Item) (xs : List Item) → a ≢ x.address → Fresh a xs → Fresh a (xs ++ (x ∷ []))
Fresh-snoc a x [] apart fresh = (apart, tt)
Fresh-snoc a x (y ∷ ys) apart (other, fresh) = (other, Fresh-snoc a x ys apart fresh)

some_injective {ℓ} : {A : Type ℓ} {a b : A} → some a ≡ some b → a ≡ b
some_injective e = ground (arith, e)

-- The write of the last frame's pointer links a frame that points nowhere.
pub Chain-snoc :
    (h : Heap) (x : Item) (t : ℕ) (last : Frame) (xs : List Item) (p : Option ℕ)
    → Fresh x.address xs
    → h.frames x.address ≡ some (frame_of x none)
    → last_of xs ≡ some t
    → h.frames t ≡ some last
    → Chain h xs p
    → Chain (put_frame t (some (record last { next = some x.address })) h) (xs ++ (x ∷ [])) p
Chain-snoc h x t last [] p fresh new e at_last c = absurd (ground (arith, e))
Chain-snoc h x t last (y ∷ []) p (apart, fresh) new e at_last (at, distinct, (next, found, rest)) =
    let same : t ≡ y.address = ground (arith, e) in
    let was : last ≡ frame_of y next = some_injective (sym at_last ∙ ap h.frames same ∙ found) in
    rw (was, same)
      (
        at,
        ((λ k. apart (sym k)), tt),
        (
          some x.address,
          update_self h.frames y.address _,
          (
            refl,
            tt,
            (none, update_ne h.frames y.address x.address _ (λ k. apart (sym k)) ∙ new, refl),
          ),
        ),
      )
Chain-snoc h x t last (y ∷ z ∷ zs) p (apart, fresh) new e at_last
      (at, distinct, (next, found, rest)) =
    (
      at,
      Fresh-snoc y.address x (z ∷ zs) (λ e. apart (sym e)) distinct,
      (
        next,
        update_ne h.frames t y.address _ (λ k. Fresh-last y.address t (z ∷ zs) distinct e (sym k))
            ∙ found,
        Chain-snoc h x t last (z ∷ zs) next fresh new e at_last rest,
      ),
    )
