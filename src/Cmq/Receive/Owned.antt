-- ===== src/Cmq/Receive/Owned.antt =====
-- The frames that a call of cmq_pkt_recv_msg has allocated so far: exactly those of its list.
use mathlib.Core.Path.{subst}
use cspot.Base.{
  ℕ, ◌+◌, ◌^◌, ◌≤◌, ◌<◌, ◌≡◌, ◌≢◌, ◌∙◌, ap, sym, refl, List, [], ◌∷◌, ◌++◌, Option, none, some,
  arith, Bool-cases, inl, inr, ◌==◌, length,
}
use cspot.Cmq.Frame.{
  Frame, FrameList, Heap, Result, done, malloced, cmq_frame_append, cmq_frame_list_destroy,
}
use cspot.Cmq.Frame.Chain.{Item, frame_of, Fresh, Chain}
use cspot.Cmq.Frame.Create.{Unused, Fresh-unused}
use cspot.Cmq.Frame.Destroy.{Freed, cmq_frame_list_destroy-Ends}
use cspot.Cmq.Frame.Queue.{Holds, cmq_frame_append-Holds}

-- Nothing stood at the addresses of the items.
abbrev pub New : Heap → List Item → Type 0
New h [] = Unit
New h (x ∷ xs) = (h.frames x.address ≡ none) × New h xs

-- The list holds the items, which are new since `h0`, and all other frames are as they were then.
pub record Owned (h0 h : Heap) (l : FrameList) (xs : List Item) : Type 0 where
  pub holds : Holds h l xs
  pub unused : Unused h
  pub added : New h0 xs
  pub kept : (a : ℕ) → Fresh a xs → h.frames a ≡ h0.frames a

Chain-agree :
    (h h' : Heap) (n : ℕ) (xs : List Item) (p : Option ℕ)
    → ((a : ℕ) → a ≢ n → h'.frames a ≡ h.frames a)
    → Fresh n xs
    → Chain h xs p
    → Chain h' xs p
Chain-agree h h' n [] p same fresh c = c
Chain-agree h h' n (x ∷ xs) p same (apart, fresh) (at, distinct, (next, found, rest)) = (
  at,
  distinct,
  (next, same x.address (λ e. apart (sym e)) ∙ found, Chain-agree h h' n xs next same fresh rest),
)

Holds-agree :
    (h h' : Heap) (n : ℕ) (l : FrameList) (xs : List Item)
    → ((a : ℕ) → a ≢ n → h'.frames a ≡ h.frames a)
    → Fresh n xs
    → Holds h l xs
    → Holds h' l xs
Holds-agree h h' n l xs same fresh holds = record {
  chain = Chain-agree h h' n xs l.head same fresh holds.chain;
  tail_at = holds.tail_at;
  counted = holds.counted;
  fits = holds.fits;
  bounded = holds.bounded;
}

-- An address that is not given out yet is no item's.
unused-Fresh :
    (h0 h : Heap) (l : FrameList) (xs : List Item) (a : ℕ)
    → Owned h0 h l xs
    → h.mallocs ≤ a
    → Fresh a xs
unused-Fresh h0 h l xs a owned low =
    Fresh-unused h a xs l.head (owned.unused a low) owned.holds.chain

-- Calls of malloc alone keep what is owned.
pub Owned-frames :
    (h0 h h' : Heap) (l : FrameList) (xs : List Item)
    → h'.frames ≡ h.frames
    → Unused h'
    → Owned h0 h l xs
    → Owned h0 h' l xs
Owned-frames h0 h h' l xs same unused owned =
    let at : (a : ℕ) → h'.frames a ≡ h.frames a = λ a. ap (λ (f : ℕ → Option Frame). f a) same in
    record {
      holds =
          Holds-agree h h' h.mallocs l xs (λ a _. at a)
            (unused-Fresh h0 h l xs h.mallocs owned (omega arith)) owned.holds;
      unused = unused;
      added = owned.added;
      kept = λ a fresh. at a ∙ owned.kept a fresh;
    }

pub malloced-Owned :
    (h0 h : Heap) (l : FrameList) (xs : List Item) → Owned h0 h l xs → Owned h0 (malloced h) l xs
malloced-Owned h0 h l xs owned =
    Owned-frames h0 h (malloced h) l xs refl (λ a low. owned.unused a (omega arith)) owned

restored :
    (h0 h : Heap) (xs : List Item) (a : ℕ)
    → New h0 xs
    → Freed h xs
    → (Fresh a xs → h.frames a ≡ h0.frames a)
    → h.frames a ≡ h0.frames a
restored h0 h [] a added freed kept = kept tt
restored h0 h (x ∷ xs) a (new, added) (gone, freed) kept = elim (Bool-cases (a == x.address)) [
  | inl same ↦
      let e : a ≡ x.address = ground (arith, same) in
      ap h.frames e ∙ gone ∙ sym new ∙ ap h0.frames (sym e)
  | inr apart ↦
      restored h0 h xs a added freed
        (λ fresh. kept ((λ e. absurd (ground (arith, e, apart))), fresh))
]

-- All frames are as they were.
abbrev pub Restores : Heap → Heap → Type 0
Restores h0 h = (a : ℕ) → h.frames a ≡ h0.frames a

pub destroy-Owned :
    (h0 h : Heap) (l : FrameList) (xs : List Item)
    → Owned h0 h l xs
    → ((cmq_frame_list_destroy l h).0 ≡ done tt) × Restores h0 (cmq_frame_list_destroy l h).1
destroy-Owned h0 h l xs owned =
    let (ended, freed, kept) = cmq_frame_list_destroy-Ends h l xs owned.holds in
    (
      ended,
      λ a.
          restored h0 (cmq_frame_list_destroy l h).1 xs a owned.added freed
            (λ fresh. kept a fresh ∙ owned.kept a fresh),
    )

New-snoc :
    (h : Heap) (x : Item) (xs : List Item)
    → New h xs
    → h.frames x.address ≡ none
    → New h (xs ++ (x ∷ []))
New-snoc h x [] added new = (new, tt)
New-snoc h x (y ∷ ys) (old, added) new = (old, New-snoc h x ys added new)

Fresh-of_snoc :
    (a : ℕ) (x : Item) (xs : List Item) → Fresh a (xs ++ (x ∷ [])) → Fresh a xs × (a ≢ x.address)
Fresh-of_snoc a x [] (apart, fresh) = (tt, apart)
Fresh-of_snoc a x (y ∷ ys) (other, fresh) =
    let (rest, apart) = Fresh-of_snoc a x ys fresh in ((other, rest), apart)

-- A list with the new item, and the same calls of malloc fail.
abbrev pub Appended : Heap → Heap → List Item → Result FrameList × Heap → Type 0
Appended h0 h xs r =
    (longer : FrameList) × (r.0 ≡ done longer) × Owned h0 r.1 longer xs × (r.1.fails ≡ h.fails)

module _ (h0 h h1 : Heap) (l : FrameList) (xs : List Item) (x : Item) (owned : Owned h0 h l xs)
    (at : x.address ≡ h.mallocs) (fits : length xs + 1 < 2 ^ 32)
    (new : h1.frames x.address ≡ some (frame_of x none))
    (others : (a : ℕ) → a ≢ h.mallocs → h1.frames a ≡ h.frames a) (unused : Unused h1) where
  -- A frame that was just created is appended.
  pub append-Owned : Appended h0 h1 (xs ++ (x ∷ [])) (cmq_frame_append l x.address h1)
  append-Owned =
      let r : Result FrameList × Heap = cmq_frame_append l x.address h1 in
      let free : Fresh h.mallocs xs = unused-Fresh h0 h l xs h.mallocs owned (omega arith) in
      let fresh : Fresh x.address xs = subst (λ a. Fresh a xs) (sym at) free in
      let holds : Holds h1 l xs = Holds-agree h h1 h.mallocs l xs others free owned.holds in
      let (longer, ends, held, (kept, mallocs, same)) =
        cmq_frame_append-Holds h1 l x xs holds fresh new fits in
      let absent : h0.frames x.address ≡ none =
        sym (owned.kept x.address fresh) ∙ owned.unused x.address (omega (arith, at)) in
      let stays : (a : ℕ) → Fresh a (xs ++ (x ∷ [])) → r.1.frames a ≡ h0.frames a = λ a out.
        let (out_xs, apart) = Fresh-of_snoc a x xs out in
        kept a out_xs ∙ others a (λ e. apart (e ∙ sym at)) ∙ owned.kept a out_xs in
      let clear : Unused r.1 = λ a low.
        kept a (Fresh-unused h1 a xs l.head (unused a (omega (arith, low, mallocs))) holds.chain)
        ∙ unused a (omega (arith, low, mallocs)) in
      (
        longer,
        ends,
        record {
          holds = held;
          unused = clear;
          added = New-snoc h0 x xs owned.added absent;
          kept = stays;
        },
        same,
      )
