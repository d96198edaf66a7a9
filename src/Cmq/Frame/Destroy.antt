-- ===== src/Cmq/Frame/Destroy.antt =====
-- The end of a frame list.
use mathlib.Core.Path.{subst}
use cspot.Base.{
  ℕ, suc, ◌≡◌, ◌∙◌, ap, sym, refl, List, [], ◌∷◌, Option, none, some, length, update_self,
  update_ne,
}
use cspot.Handler.{continue}
use cspot.Cmq.Frame.{
  Frame, FrameList, Heap, Action, Result, done, ◌>>◌, pure, put_frame, cmq_frame_pop,
  cmq_frame_destroy, cmq_frame_list_destroy, destroy_from,
}
use cspot.Cmq.Frame.Chain.{Item, frame_of, Fresh, Chain-put_frame}
use cspot.Cmq.Frame.Queue.{Holds, cmq_frame_pop-Holds}

-- None of the frames is allocated.
abbrev pub Freed : Heap → List Item → Type 0
Freed h [] = Unit
Freed h (x ∷ xs) = (h.frames x.address ≡ none) × Freed h xs

Holds-put_frame :
    (h : Heap) (a : ℕ) (f : Option Frame) (l : FrameList) (xs : List Item)
    → Fresh a xs
    → Holds h l xs
    → Holds (put_frame a f h) l xs
Holds-put_frame h a f l xs fresh holds = record {
  chain = Chain-put_frame h a f xs l.head fresh holds.chain;
  tail_at = holds.tail_at;
  counted = holds.counted;
  fits = holds.fits;
  bounded = holds.bounded;
}

destroy-found :
    (h : Heap) (a : ℕ) (f : Frame)
    → h.frames a ≡ some f
    → cmq_frame_destroy (some a) h ≡ (done tt, put_frame a none h)
unfolding cmq_frame_destroy
destroy-found h a f e = rw (cmq_frame_destroy, e) refl

-- the body of the loop, once a frame is popped
abbrev after_pop : ℕ → Option (ℕ × FrameList) → Action Heap (Unit {0})
after_pop left popped = elim popped [
  | none ↦ pure tt
  | some (a, rest) ↦ cmq_frame_destroy (some a) >> destroy_from left rest
]

destroy_from-step :
    (h : Heap) (l rest : FrameList) (left a : ℕ) (f : Frame)
    → cmq_frame_pop l h ≡ (done (some (a, rest)), h)
    → h.frames a ≡ some f
    → destroy_from (suc left) l h ≡ destroy_from left rest (put_frame a none h)
unfolding destroy_from
destroy_from-step h l rest left a f popped found =
    ap (λ (r : Result (Option (ℕ × FrameList)) × Heap). continue r.0 (after_pop left) r.1) popped
    ∙ ap (λ (r : Result (Unit {0}) × Heap). continue r.0 (λ _. destroy_from left rest) r.1)
        (destroy-found h a f found)

-- What the loop does to a list that it empties.
abbrev pub Ends : Heap → List Item → Result (Unit {0}) × Heap → Type 0
Ends h xs r = (r.0 ≡ done tt) × Freed r.1 xs × ((a : ℕ) → Fresh a xs → r.1.frames a ≡ h.frames a)

destroy_from-Ends :
    (h : Heap) (l : FrameList) (xs : List Item)
    → Holds h l xs
    → Ends h xs (destroy_from (length xs) l h)
unfolding destroy_from
destroy_from-Ends h l [] holds = (refl, tt, λ a fresh. refl)
destroy_from-Ends h l (x ∷ xs) holds =
    let (rest, popped, others) = cmq_frame_pop-Holds h l x xs holds in
    let (at, distinct, (next, found, chain)) = holds.chain in
    let (ended, freed, kept) =
      destroy_from-Ends (put_frame x.address none h) rest xs
        (Holds-put_frame h x.address none rest xs distinct others) in
    subst (λ r. Ends h (x ∷ xs) r)
      (sym (destroy_from-step h l rest (length xs) x.address (frame_of x next) popped found))
      (
        ended,
        (kept x.address distinct ∙ update_self h.frames x.address none, freed),
        λ a (apart, fresh). kept a fresh ∙ update_ne h.frames x.address a none (λ e. apart (sym e)),
      )

-- cmq_frame_list_destroy of a list frees exactly its frames.
pub cmq_frame_list_destroy-Ends :
    (h : Heap) (l : FrameList) (xs : List Item)
    → Holds h l xs
    → Ends h xs (cmq_frame_list_destroy l h)
unfolding cmq_frame_list_destroy
cmq_frame_list_destroy-Ends h l xs holds =
    subst (λ k. Ends h xs (destroy_from k l h)) (sym holds.counted) (destroy_from-Ends h l xs holds)
