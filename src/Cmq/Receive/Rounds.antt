-- ===== src/Cmq/Receive/Rounds.antt =====
-- A round of the loop of cmq_pkt_recv_msg on every input and whichever calls fail.
use mathlib.Core.Path.{subst}
use cspot.Base.{
  ℕ, ◌+◌, ◌^◌, ◌<◌, ◌≡◌, ◌∙◌, ap, sym, refl, List, [], ◌∷◌, ◌++◌, Option, none, some, Bool-cases,
  inl, inr, ◌==◌, ◌&&◌, ltb, take, drop, length,
}
use cspot.Handler.{continue}
use cspot.Cmq.Frame.{
  FrameList, Heap, Action, is_null, Result, done, ◌>>=◌, pure, malloced, cmq_frame_create,
  cmq_frame_append, cmq_frame_list_destroy,
}
use cspot.Cmq.Frame.Chain.{Item}
use cspot.Cmq.Frame.Create.{new_item, fails, creates, cmq_frame_create-Creates}
use cspot.Cmq.Receive
use cspot.Cmq.Receive.{
  Receiver, Received, Inbox, on_heap, recv, give_up, is_fewer, received, long_of, bytes, fewer,
  error,
}
use cspot.Cmq.Receive.Owned.{
  Owned, malloced-Owned, Restores, destroy-Owned, append-Owned, Owned-frames,
}

pub new_item-address : (a : ℕ) (ptr : Option (List ℕ)) (len : ℕ) → (new_item a ptr len).address ≡ a
new_item-address a ptr len = elim (Bool-cases (is_null ptr && (len == 0))) [
  | inl z ↦ rw z refl
  | inr z ↦ rw z refl
]

-- A call on the heap whose result is known.
pub on_heap_rule :
    {A B : Type 0} (m : Action Heap A) (k : A → Action Receiver B) (w : Receiver) (a : A)
    → (m w.heap).0 ≡ done a
    → (on_heap m >>= k) w ≡ k a (record w { heap = (m w.heap).1 })
on_heap_rule {A = A} m k w a e =
    ap (λ (r : Result A). continue r k (record w { heap = (m w.heap).1 })) e

-- What holds for whatever recv does.
pub recv_rule :
    {A : Type 0} (n : ℕ) (k : Received → Action Receiver A) (w : Receiver)
    (Q : Result A × Receiver → Type 0)
    → ((got : Received) (w1 : Receiver) → w1.heap ≡ w.heap → Q (k got w1))
    → Q ((recv n >>= k) w)
recv_rule n k w Q all = elim (Bool-cases (w.broken w.calls)) [
  | inl e ↦ rw e (all error (record w { calls = w.calls + 1 }) refl)
  | inr e ↦ elim (Bool-cases (ltb (length w.arriving) n)) [
    | inl f ↦ rw (e, f) (all fewer (record w { arriving = []; calls = w.calls + 1 }) refl)
    | inr f ↦
        rw (e, f)
          (all (bytes (take n w.arriving))
            (record w { arriving = drop n w.arriving; calls = w.calls + 1 }) refl)
  ]
]

module _ (h0 : Heap) where
  -- A round ends the call and all frames are as they were, or the list has one item more.
  pub data Round (xs : List Item) (r : Result (Option Inbox) × Receiver) : Type 0 where
    ends : r.0 ≡ done none → Restores h0 r.1.heap → Round xs r
    takes :
        (s : Inbox) (x : Item)
        → r.0 ≡ done (some s)
        → Owned h0 r.1.heap s.list (xs ++ (x ∷ []))
        → Round xs r

  pub give_up-eq :
      {A : Type 0} (l : FrameList) (xs : List Item) (w : Receiver)
      → Owned h0 w.heap l xs
      → give_up {A = A} l w ≡ (done none, record w { heap = (cmq_frame_list_destroy l w.heap).1 })
  give_up-eq {A = A} l xs w owned =
      ap
        (λ (r : Result (Unit {0})).
          continue {B = Option A} r (λ _. pure none)
            (record w { heap = (cmq_frame_list_destroy l w.heap).1 }))
        (destroy-Owned h0 w.heap l xs owned).0

  give_up-Round :
      (l : FrameList) (xs : List Item) (w : Receiver)
      → Owned h0 w.heap l xs
      → Round xs (give_up l w)
  give_up-Round l xs w owned =
      subst (λ r. Round xs r) (sym (give_up-eq l xs w owned))
        (ends refl (destroy-Owned h0 w.heap l xs owned).1)

module _ (h0 : Heap) (xs : List Item) (fits : length xs + 1 < 2 ^ 32) where
  make_frame-Round :
      (s : Inbox) (ptr : Option (List ℕ)) (len : ℕ) (w : Receiver)
      → Owned h0 w.heap s.list xs
      → Round h0 xs (Receive.make_frame s ptr len w)
  make_frame-Round s ptr len w owned =
      let r : Result (Option ℕ) × Heap = cmq_frame_create ptr len w.heap in
      let w1 : Receiver = record w { heap = r.1 } in
      elim (cmq_frame_create-Creates w.heap ptr len owned.unused) [
        | fails e same unused ↦
            subst (λ q. Round h0 xs q)
              (sym (on_heap_rule (cmq_frame_create ptr len) (Receive.append_made s) w none e))
              (give_up-Round h0 s.list xs w1
                (Owned-frames h0 w.heap r.1 s.list xs same unused owned))
        | creates e new free others unused ↦
            let x : Item = new_item w.heap.mallocs ptr len in
            let at : x.address ≡ w.heap.mallocs = new_item-address w.heap.mallocs ptr len in
            let made : r.0 ≡ done (some x.address) = e ∙ ap (λ (a : ℕ). done (some a)) (sym at) in
            let (longer, appended, held, same) =
              append-Owned h0 w.heap r.1 s.list xs x owned at fits (ap r.1.frames at ∙ new) others
                unused in
            subst (λ q. Round h0 xs q)
              (sym (
                on_heap_rule (cmq_frame_create ptr len) (Receive.append_made s) w (some x.address)
                  made
                ∙ on_heap_rule (cmq_frame_append s.list x.address)
                    (λ l. pure (some (record s { list = l }))) w1 longer appended))
              (takes (record s { list = longer }) x refl held)
      ]

module _ (h0 : Heap) (ntohl : ℕ → ℕ) (unset : ℕ → List ℕ) (xs : List Item)
    (fits : length xs + 1 < 2 ^ 32) where
  fill-Round :
      (s : Inbox) (got : Received) (w : Receiver)
      → Owned h0 w.heap s.list xs
      → Round h0 xs (Receive.fill ntohl unset s got w)
  fill-Round s got w owned = elim (Bool-cases (is_fewer got)) [
    | inl e ↦ rw e (give_up-Round h0 s.list xs w owned)
    | inr e ↦ rw e (
        make_frame-Round h0 xs fits (record s { buffer = received got s.buffer })
          (some (received got s.buffer)) (Receive.size_of ntohl unset s) w owned)
  ]

  read_payload-Round :
      (s : Inbox) (w : Receiver)
      → Owned h0 w.heap s.list xs
      → Round h0 xs (Receive.read_payload ntohl unset s w)
  read_payload-Round s w owned = elim (Bool-cases (Receive.size_of ntohl unset s == 0)) [
    | inl e ↦ rw e (make_frame-Round h0 xs fits s none 0 w owned)
    | inr e ↦ rw e (
        recv_rule (Receive.size_of ntohl unset s) (Receive.fill ntohl unset s) w
          (λ r. Round h0 xs r)
          (λ got w1 same. fill-Round s got w1 (subst (λ h. Owned h0 h s.list xs) (sym same) owned)))
  ]

  enlarge-Round :
      (s : Inbox) (w : Receiver)
      → Owned h0 w.heap s.list xs
      → Round h0 xs (Receive.enlarge ntohl unset s w)
  enlarge-Round s w owned =
      let w1 : Receiver = record w { heap = malloced w.heap } in
      let owned1 : Owned h0 w1.heap s.list xs = malloced-Owned h0 w.heap s.list xs owned in
      elim (Bool-cases (w.heap.fails w.heap.mallocs)) [
        | inl e ↦ rw e (give_up-Round h0 s.list xs w1 owned1)
        | inr e ↦ rw e (
            read_payload-Round
              (record s {
                buffer = unset (Receive.size_of ntohl unset s);
                max_size = Receive.size_of ntohl unset s;
              })
              w1 owned1)
      ]

  ensure_room-Round :
      (s : Inbox) (w : Receiver)
      → Owned h0 w.heap s.list xs
      → Round h0 xs (Receive.ensure_room ntohl unset s w)
  ensure_room-Round s w owned = elim (Bool-cases (ltb s.max_size (Receive.size_of ntohl unset s))) [
    | inl e ↦ rw e (enlarge-Round s w owned)
    | inr e ↦ rw e (read_payload-Round s w owned)
  ]

  use_size-Round :
      (s : Inbox) (got : Received) (w : Receiver)
      → Owned h0 w.heap s.list xs
      → Round h0 xs (Receive.use_size ntohl unset s got w)
  use_size-Round s got w owned = elim (Bool-cases (is_fewer got)) [
    | inl e ↦ rw e (give_up-Round h0 s.list xs w owned)
    | inr e ↦ rw e (ensure_room-Round (record s { size = long_of got s.size }) w owned)
  ]

  pub receive_frame-Round :
      (s : Inbox) (w : Receiver)
      → Owned h0 w.heap s.list xs
      → Round h0 xs (Receive.receive_frame ntohl unset s w)
  unfolding Receive.receive_frame
  receive_frame-Round s w owned =
      recv_rule 8 (Receive.use_size ntohl unset s) w (λ r. Round h0 xs r)
        (λ got w1 same.
          use_size-Round s got w1 (subst (λ h. Owned h0 h s.list xs) (sym same) owned))
