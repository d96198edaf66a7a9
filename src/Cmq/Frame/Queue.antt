-- ===== src/Cmq/Frame/Queue.antt =====
-- A frame list as a queue.
use mathlib.Core.Path.{subst}
use cspot.Base.{
  ℕ, ◌+◌, ◌-◌, ◌%◌, ◌^◌, ◌≤◌, ◌<◌, ◌≡◌, ◌≢◌, ◌∙◌, ap, sym, refl, List, [], ◌∷◌, ◌++◌, Option, none,
  some, true, false, arith, Bool-cases, inl, inr, ltb, ◌==◌, length, length-append, update_ne,
}
use cspot.Handler.{continue}
use cspot.Cmq.Frame.{
  Frame, FrameList, Heap, Action, Result, done, put_frame, cmq_frame_append, cmq_frame_pop,
  without_head, load, store, ◌>>=◌, pure, widened, link_first,
}
use cspot.Cmq.Frame.Chain.{Item, frame_of, Fresh, Chain, last_of, Fresh-last, Chain-snoc}

abbrev pub Bounded : ℕ → List Item → Type 0
Bounded m [] = Unit
Bounded m (x ∷ xs) = (x.size ≤ m) × Bounded m xs

-- The list holds the items, in order, and its size hint bounds them.
pub record Holds (h : Heap) (l : FrameList) (xs : List Item) : Type 0 where
  pub chain : Chain h xs l.head
  pub tail_at : l.tail ≡ last_of xs
  pub counted : l.count ≡ length xs
  pub fits : length xs < 2 ^ 32
  pub bounded : Bounded l.max_size xs

Chain-last :
    (h : Heap) (x : Item) (xs : List Item) (p : Option ℕ)
    → Chain h (x ∷ xs) p
    → (t : ℕ) × (f : Frame) × (last_of (x ∷ xs) ≡ some t) × (h.frames t ≡ some f)
Chain-last h x [] p (at, distinct, (next, found, rest)) = (x.address, frame_of x next, refl, found)
Chain-last h x (y ∷ ys) p (at, distinct, (next, found, rest)) = Chain-last h y ys next rest

pub load_rule :
    {A : Type 0} (a : ℕ) (f : Frame) (k : Frame → Action Heap A) (h : Heap)
    → h.frames a ≡ some f
    → (load a >>= k) h ≡ k f h
load_rule a f k h e = rw (load, e) refl

without_head-Holds :
    (h : Heap) (l : FrameList) (x : Item) (xs : List Item) (next : Option ℕ)
    → Holds h l (x ∷ xs)
    → Chain h xs next
    → Holds h (without_head l next) xs
without_head-Holds h l x [] next holds rest =
    let last : (l.count - 1 == 0) ≡ true = ground (arith, holds.counted) in
    rw last
      (record { chain = refl; tail_at = refl; counted = refl; fits = omega arith; bounded = tt })
without_head-Holds h l x (y ∷ ys) next holds rest =
    let more : (l.count - 1 == 0) ≡ false = ground (arith, holds.counted) in
    rw more (record {
      chain = rest;
      tail_at = holds.tail_at;
      counted = omega (arith, holds.counted);
      fits = omega (arith, holds.fits);
      bounded = holds.bounded.1;
    })

-- In a list that holds `x` first, cmq_frame_pop finds it and leaves the others.
pub cmq_frame_pop-Holds :
    (h : Heap) (l : FrameList) (x : Item) (xs : List Item)
    → Holds h l (x ∷ xs)
    → (rest : FrameList) × (cmq_frame_pop l h ≡ (done (some (x.address, rest)), h))
      × Holds h rest xs
unfolding cmq_frame_pop
cmq_frame_pop-Holds h l x xs holds =
    let (at, distinct, (next, found, rest)) = holds.chain in
    let full : (l.count == 0) ≡ false = ground (arith, holds.counted) in
    (
      without_head l next,
      rw (full, at) (load_rule x.address (frame_of x next) _ h found),
      without_head-Holds h l x xs next holds rest,
    )

Bounded-weaken : (m m' : ℕ) (xs : List Item) → m ≤ m' → Bounded m xs → Bounded m' xs
Bounded-weaken m m' [] h b = tt
Bounded-weaken m m' (x ∷ xs) h (p, b) = (omega arith, Bounded-weaken m m' xs h b)

Bounded-snoc :
    (m : ℕ) (x : Item) (xs : List Item) → x.size ≤ m → Bounded m xs → Bounded m (xs ++ (x ∷ []))
Bounded-snoc m x [] h b = (h, tt)
Bounded-snoc m x (y ∷ ys) h (p, b) = (p, Bounded-snoc m x ys h b)

last_of-snoc : (x : Item) (xs : List Item) → last_of (xs ++ (x ∷ [])) ≡ some x.address
last_of-snoc x [] = refl
last_of-snoc x (y ∷ []) = refl
last_of-snoc x (y ∷ z ∷ zs) = last_of-snoc x (z ∷ zs)

widened-Holds :
    (h : Heap) (l : FrameList) (x : Item) (xs : List Item)
    → Chain h (xs ++ (x ∷ [])) l.head
    → l.tail ≡ some x.address
    → l.count ≡ length xs + 1
    → length xs + 1 < 2 ^ 32
    → Bounded l.max_size xs
    → Holds h (widened l (frame_of x none)) (xs ++ (x ∷ []))
widened-Holds h l x xs chain tail_at counted fits bounded =
    elim (Bool-cases (ltb l.max_size x.size)) [
      | inl wider ↦ rw wider (record {
        chain = chain;
        tail_at = tail_at ∙ sym (last_of-snoc x xs);
        counted = counted ∙ sym (length-append xs (x ∷ []) ∙ omega arith);
        fits = omega (arith, length-append xs (x ∷ []), fits);
        bounded =
            Bounded-snoc x.size x xs (omega arith)
              (Bounded-weaken l.max_size x.size xs (ground (arith, wider)) bounded);
      })
      | inr within ↦ rw within (record {
        chain = chain;
        tail_at = tail_at ∙ sym (last_of-snoc x xs);
        counted = counted ∙ sym (length-append xs (x ∷ []) ∙ omega arith);
        fits = omega (arith, length-append xs (x ∷ []), fits);
        bounded = Bounded-snoc l.max_size x xs (ground (arith, within)) bounded;
      })
    ]

append-linked :
    (h h' : Heap) (l linked : FrameList) (f : ℕ) (frame : Frame)
    → link_first l f h ≡ (done linked, h')
    → h'.frames f ≡ some frame
    → cmq_frame_append l f h ≡ (done (widened linked frame), h')
unfolding cmq_frame_append
append-linked h h' l linked f frame e found =
    ap
      (λ (r : Result FrameList × Heap).
        continue r.0 (λ linked. load f >>= λ frame. pure (widened linked frame)) r.1)
      e
    ∙ load_rule f frame (λ frame. pure (widened linked frame)) h' found

-- Only frames of the items differ, and the same calls of malloc fail.
abbrev pub Within : Heap → List Item → Heap → Type 0
Within h xs h' =
    ((a : ℕ) → Fresh a xs → h'.frames a ≡ h.frames a)
    × (h'.mallocs ≡ h.mallocs)
    × (h'.fails ≡ h.fails)

-- The result is a list that holds the item after the others.
abbrev pub Appends : Heap → Item → List Item → Result FrameList × Heap → Type 0
Appends h x xs r =
    (longer : FrameList) × (r.0 ≡ done longer) × Holds r.1 longer (xs ++ (x ∷ [])) × Within h xs r.1

-- cmq_frame_append of a frame that points nowhere, to a list that does not hold it, succeeds, and the
-- list then holds it last; frames out of the list stay as they are.
pub cmq_frame_append-Holds :
    (h : Heap) (l : FrameList) (x : Item) (xs : List Item)
    → Holds h l xs
    → Fresh x.address xs
    → h.frames x.address ≡ some (frame_of x none)
    → length xs + 1 < 2 ^ 32
    → Appends h x xs (cmq_frame_append l x.address h)
cmq_frame_append-Holds h l x [] holds fresh new fits =
    let linked : FrameList = record l { head = some x.address; tail = some x.address; count = 1 } in
    let step : link_first l x.address h ≡ (done linked, h) = rw (holds.chain) refl in
    let e : cmq_frame_append l x.address h ≡ (done (widened linked (frame_of x none)), h) =
      append-linked h h l linked x.address (frame_of x none) step new in
    subst (λ r. Appends h x [] r) (sym e)
      (
        widened linked (frame_of x none),
        refl,
        widened-Holds h linked x [] (refl, tt, (none, new, refl)) refl refl fits tt,
        (λ a apart. refl, refl, refl),
      )
cmq_frame_append-Holds h l x (y ∷ ys) holds fresh new fits =
    let (t, last, at_last, found) = Chain-last h y ys l.head holds.chain in
    let h' : Heap = put_frame t (some (record last { next = some x.address })) h in
    let linked : FrameList = record l { tail = some x.address; count = (l.count + 1) % 2 ^ 32 } in
    let apart : t ≢ x.address = λ k. Fresh-last x.address t (y ∷ ys) fresh at_last (sym k) in
    let step : link_first l x.address h ≡ (done linked, h') =
      rw (holds.chain.0, holds.tail_at ∙ at_last)
        (load_rule t last _ h found ∙ rw (store, found) refl) in
    let e : cmq_frame_append l x.address h ≡ (done (widened linked (frame_of x none)), h') =
      append-linked h h' l linked x.address (frame_of x none) step
        (update_ne h.frames t x.address _ apart ∙ new) in
    subst (λ r. Appends h x (y ∷ ys) r) (sym e)
      (
        widened linked (frame_of x none),
        refl,
        widened-Holds h' linked x (y ∷ ys)
            (Chain-snoc h x t last (y ∷ ys) l.head fresh new at_last found holds.chain) refl
            (omega (arith, holds.counted, fits)) fits holds.bounded,
        (
          λ a apart. update_ne h.frames t a _ (λ k. Fresh-last a t (y ∷ ys) apart at_last (sym k)),
          refl,
          refl,
        ),
      )
