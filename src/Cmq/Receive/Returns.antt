-- ===== src/Cmq/Receive/Returns.antt =====
-- What cmq_pkt_recv_msg does on every input and whichever calls fail.
use mathlib.Core.Path.{subst}
use cspot.Base.{
  ℕ, zero, suc, ◌+◌, ◌^◌, ◌<◌, ◌≡◌, ap, sym, refl, List, [], ◌∷◌, ◌++◌, Option, none, some, arith,
  Bool-cases, inl, inr, ◌==◌, ltb, length, length-append,
}
use cspot.Handler.{continue}
use cspot.Cmq.Frame.{
  FrameList, Heap, Action, Result, done, pure, malloced, no_frames, cmq_frame_list_create,
}
use cspot.Cmq.Frame.Chain.{Item}
use cspot.Cmq.Frame.Create.{Unused}
use cspot.Cmq.Packet.{cmq_pkt_version}
use cspot.Cmq.Receive
use cspot.Cmq.Receive.{Receiver, Received, Inbox, recv, give_up, is_fewer, received, rounds}
use cspot.Cmq.Receive.Owned.{Owned, Restores, destroy-Owned, malloced-Owned}
use cspot.Cmq.Receive.Rounds.{ends, takes, give_up-eq, recv_rule, receive_frame-Round}

module _ (h0 : Heap) where
  -- The call has returned -1 and all frames are as they were, or it has returned a list, and the frames
  -- that are new are exactly those of the list.
  pub data Returns (r : Result (Option FrameList) × Receiver) : Type 0 where
    refused : r.0 ≡ done none → Restores h0 r.1.heap → Returns r
    returned :
        (l : FrameList) (xs : List Item) → r.0 ≡ done (some l) → Owned h0 r.1.heap l xs → Returns r

  give_up-Returns :
      (l : FrameList) (xs : List Item) (w : Receiver) → Owned h0 w.heap l xs → Returns (give_up l w)
  give_up-Returns l xs w owned =
      subst (λ r. Returns r) (sym (give_up-eq h0 l xs w owned))
        (refused refl (destroy-Owned h0 w.heap l xs owned).1)

module _ (ntohl : ℕ → ℕ) (unset : ℕ → List ℕ) where
  -- the loop, after a round
  abbrev pub after_round : ℕ → Option Inbox → Action Receiver (Option FrameList)
  after_round left next = elim next [
    | none ↦ pure none
    | some s' ↦ Receive.receive_from ntohl unset left s'
  ]

module _ (h0 : Heap) (ntohl : ℕ → ℕ) (unset : ℕ → List ℕ) where
  pub receive_from-Returns :
      (left : ℕ) (xs : List Item) (s : Inbox) (w : Receiver)
      → length xs + left < 2 ^ 32
      → Owned h0 w.heap s.list xs
      → Returns h0 (Receive.receive_from ntohl unset left s w)
  unfolding Receive.receive_from
  receive_from-Returns zero xs s w fits owned = returned s.list xs refl owned
  receive_from-Returns (suc left) xs s w fits owned =
      let r : Result (Option Inbox) × Receiver = Receive.receive_frame ntohl unset s w in
      let next : (o : Option Inbox)
          → r.0 ≡ done o
          → Receive.receive_from ntohl unset (suc left) s w ≡ after_round ntohl unset left o r.1 =
        λ o e.
          ap (λ (q : Result (Option Inbox)). continue q (after_round ntohl unset left) r.1) e in
      elim (receive_frame-Round h0 ntohl unset xs (omega arith) s w owned) [
        | ends e restored ↦ subst (λ q. Returns h0 q) (sym (next none e)) (refused refl restored)
        | takes s' x e held ↦
            subst (λ q. Returns h0 q) (sym (next (some s') e))
              (receive_from-Returns left (xs ++ (x ∷ [])) s' r.1
                (omega (arith, length-append xs (x ∷ []))) held)
      ]

pub no_frames-Owned : (h : Heap) → Unused h → Owned h h no_frames []
no_frames-Owned h unused = record {
  holds = record { chain = refl; tail_at = refl; counted = refl; fits = omega arith; bounded = tt };
  unused = unused;
  added = tt;
  kept = λ a _. refl;
}

module _ (ntohl : ℕ → ℕ) (unset : ℕ → List ℕ) (header0 : List ℕ) (size0 : ℕ) where
  rounds-lt : (n : ℕ) → 0 + rounds n < 2 ^ 32
  rounds-lt n = elim (Bool-cases (ltb n (2 ^ 31))) [
    | inl e ↦ rw e (ground (arith, e))
    | inr e ↦ rw e (omega arith)
  ]

  start-Returns :
      (h0 : Heap) (frame_count max_size : ℕ) (l : FrameList) (w : Receiver)
      → Owned h0 w.heap l []
      → Returns h0 (Receive.start ntohl unset header0 size0 frame_count max_size l w)
  start-Returns h0 frame_count max_size l w owned =
      let s : Inbox = record { list = l; size = size0; buffer = []; max_size = max_size } in
      let w1 : Receiver = record w { heap = malloced w.heap } in
      let owned1 : Owned h0 w1.heap l [] = malloced-Owned h0 w.heap l [] owned in
      elim (Bool-cases (max_size == 0)) [
        | inl z ↦ rw z (
            receive_from-Returns h0 ntohl unset (rounds frame_count) [] s w (rounds-lt frame_count)
              owned)
        | inr z ↦ elim (Bool-cases (w.heap.fails w.heap.mallocs)) [
          | inl e ↦ rw (z, e) (give_up-Returns h0 l [] w1 owned1)
          | inr e ↦
              rw (z, e)
                (receive_from-Returns h0 ntohl unset (rounds frame_count) []
                  (record s { buffer = unset max_size }) w1 (rounds-lt frame_count) owned1)
        ]
      ]

  create_list-Returns :
      (frame_count max_size : ℕ) (w : Receiver)
      → Unused w.heap
      → Returns w.heap (Receive.create_list ntohl unset header0 size0 frame_count max_size w)
  unfolding cmq_frame_list_create
  create_list-Returns frame_count max_size w unused =
      elim (Bool-cases (w.heap.fails w.heap.mallocs)) [
        | inl e ↦ rw e (refused refl (λ a. refl))
        | inr e ↦ rw e (
            start-Returns w.heap frame_count max_size no_frames
              (record w { heap = malloced w.heap })
              (malloced-Owned w.heap w.heap no_frames [] (no_frames-Owned w.heap unused)))
      ]

  use_header-Returns :
      (got : Received) (w : Receiver)
      → Unused w.heap
      → Returns w.heap (Receive.use_header ntohl unset header0 size0 got w)
  use_header-Returns got w unused =
      let memory : List ℕ = received got header0 in
      let field : ℕ → ℕ = λ i. Receive.field ntohl unset header0 size0 i memory in
      elim (Bool-cases (is_fewer got)) [
        | inl e ↦ rw e (refused refl (λ a. refl))
        | inr e ↦ elim (Bool-cases (field 0 == cmq_pkt_version)) [
          | inl v ↦ rw (e, v) (create_list-Returns (field 1) (field 2) w unused)
          | inr v ↦ rw (e, v) (refused refl (λ a. refl))
        ]
      ]

  -- Whatever arrives, and whichever calls of recv and malloc fail, cmq_pkt_recv_msg returns, and uses no
  -- frame that is freed. Either it returns -1, and all frames are as they were; or it returns a list that
  -- holds its frames, and these are all the frames that are new.
  pub cmq_pkt_recv_msg-Returns :
      (w : Receiver)
      → Unused w.heap
      → Returns w.heap (Receive.cmq_pkt_recv_msg ntohl unset header0 size0 w)
  unfolding Receive.cmq_pkt_recv_msg
  cmq_pkt_recv_msg-Returns w unused =
      recv_rule 24 (Receive.use_header ntohl unset header0 size0) w (λ r. Returns w.heap r)
        (λ got w1 same.
          subst (λ h. Returns h (Receive.use_header ntohl unset header0 size0 got w1)) same
            (use_header-Returns got w1 (subst (λ h. Unused h) (sym same) unused)))
