-- ===== src/Cmq/Packet/Send.antt =====
-- What cmq_pkt_send_msg writes.
use mathlib.Core.Path.{subst}
use cspot.Base.{
  ℕ, suc, ◌+◌, ◌≡◌, ◌∙◌, ap, sym, refl, List, [], ◌∷◌, ◌++◌, Option, none, some, Bool, true, false,
  if◌then◌else◌, ◌==◌, take, length, Bool-cases, Option-cases, inl, inr,
}
use mathlib.Core.List.{append_assoc, append-nil}
use cspot.Handler.{continue}
use cspot.Cmq.Frame.{Frame, FrameList, Action, Result, done, ◌>>=◌, load, pure}
use cspot.Cmq.Frame.Chain.{Item, frame_of, Chain}
use cspot.Cmq.Frame.Queue.{Holds}
use cspot.Cmq.Packet.{
  Endpoint, Outcome, whole, on_heap, long_bytes, header_bytes, send_frame, send_from,
  cmq_pkt_send_msg,
}

-- the data of a frame, as far as its size says
abbrev pub data_of : Item → List ℕ
data_of x =
    if x.size == 0 then [] else elim x.payload [ none ↦ [] | some bytes ↦ take x.size bytes ]

module _ (htonl : ℕ → ℕ) where
  -- The reference encoding of the frames: for each its size and its data.
  abbrev pub encode : List Item → List ℕ
  encode [] = []
  encode (x ∷ xs) = long_bytes (htonl x.size) ++ (data_of x ++ encode xs)

  -- The call has returned 0 and has written the bytes, and no frame is changed.
  abbrev pub Sends : Endpoint → List ℕ → Result (Option Bool) × Endpoint → Type 0
  Sends w bytes r =
      (r.0 ≡ done (some false)) × (r.1.stream ≡ w.stream ++ bytes) × (r.1.heap ≡ w.heap)

  -- The frame's bytes are written, and only the stream and the count of calls change.
  abbrev pub Writes : Endpoint → List ℕ → Result Bool × Endpoint → Type 0
  Writes w bytes r =
      (r.0 ≡ done false)
      × (r.1.stream ≡ w.stream ++ bytes)
      × (r.1.heap ≡ w.heap)
      × (r.1.outcome ≡ w.outcome)

  send_frame-Writes :
      (x : Item) (next : Option ℕ) (w : Endpoint)
      → ((k : ℕ) → w.outcome k ≡ whole)
      → Writes w (long_bytes (htonl x.size) ++ data_of x) (send_frame htonl (frame_of x next) w)
  send_frame-Writes x next w ok = elim (Bool-cases (x.size == 0)) [
    | inl z ↦
        rw (ok w.calls, z)
          (
            refl,
            ap (λ bs. w.stream ++ bs) (sym (append-nil (long_bytes (htonl x.size)))),
            refl,
            refl,
          )
    | inr z ↦ elim (Option-cases x.payload) [
      | inl absent ↦
          rw (ok w.calls, z, absent)
            (
              refl,
              ap (λ bs. w.stream ++ bs) (sym (append-nil (long_bytes (htonl x.size)))),
              refl,
              refl,
            )
      | inr (bytes, present) ↦
          rw (ok w.calls, z, present, ok (w.calls + 1))
            (
              refl,
              append_assoc w.stream (long_bytes (htonl x.size)) (take x.size bytes),
              refl,
              refl,
            )
    ]
  ]

  -- the rest of the round, once the frame is loaded
  abbrev after_load : ℕ → Frame → Action Endpoint (Option Bool)
  after_load fuel frame = send_frame htonl frame >>= λ failed.
      if failed then pure (some true) else send_from htonl fuel frame.next

  pub send_from-step :
      (fuel a : ℕ) (frame : Frame) (w w1 : Endpoint)
      → w.heap.frames a ≡ some frame
      → send_frame htonl frame w ≡ (done false, w1)
      → send_from htonl (suc fuel) (some a) w ≡ send_from htonl fuel frame.next w1
  unfolding send_from
  send_from-step fuel a frame w w1 found sent =
      let loaded : on_heap (load a) w ≡ (done frame, w) = rw (load, found) refl in
      ap (λ (r : Result Frame × Endpoint). continue r.0 (after_load fuel) r.1) loaded
      ∙ ap
          (λ (r : Result Bool × Endpoint).
            continue r.0
              (λ failed. if failed then pure (some true) else send_from htonl fuel frame.next) r.1)
          sent

  send_from-Sends :
      (xs : List Item) (p : Option ℕ) (w : Endpoint)
      → ((k : ℕ) → w.outcome k ≡ whole)
      → Chain w.heap xs p
      → Sends w (encode xs) (send_from htonl (length xs) p w)
  unfolding send_from
  send_from-Sends [] p w ok chain = rw chain (refl, sym (append-nil w.stream), refl)
  send_from-Sends (x ∷ xs) p w ok (at, distinct, (next, found, rest)) =
      let r : Result Bool × Endpoint = send_frame htonl (frame_of x next) w in
      let (sent, stream, heap, outcome) = send_frame-Writes x next w ok in
      let e : send_frame htonl (frame_of x next) w ≡ (done false, r.1) =
        ap (λ (s : Result Bool). (s, r.1)) sent in
      let (ends, streams, heaps) =
        send_from-Sends xs next r.1 (λ k. ap (λ (f : ℕ → Outcome). f k) outcome ∙ ok k)
          (subst (λ h. Chain h xs next) (sym heap) rest) in
      subst (λ q. Sends w (encode (x ∷ xs)) (send_from htonl (length (x ∷ xs)) q w)) (sym at)
        (subst (λ s. Sends w (encode (x ∷ xs)) s)
          (sym (send_from-step (length xs) x.address (frame_of x next) w r.1 found e))
          (
            ends,
            streams
                ∙ ap (λ bs. bs ++ encode xs) stream
                ∙ append_assoc w.stream (long_bytes (htonl x.size) ++ data_of x) (encode xs)
                ∙ ap (λ bs. w.stream ++ bs)
                    (append_assoc (long_bytes (htonl x.size)) (data_of x) (encode xs)),
            heaps ∙ heap,
          ))

  -- Where every write is whole, cmq_pkt_send_msg of a list that holds frames returns 0, writes the header
  -- and then for each frame, in order, its size and its data, and changes no frame.
  pub cmq_pkt_send_msg-Sends :
      (l : FrameList) (xs : List Item) (w : Endpoint)
      → ((k : ℕ) → w.outcome k ≡ whole)
      → Holds w.heap l xs
      → Sends w (header_bytes htonl l ++ encode xs) (cmq_pkt_send_msg htonl l w)
  unfolding cmq_pkt_send_msg
  cmq_pkt_send_msg-Sends l xs w ok holds =
      let w1 : Endpoint = record w {
        stream = w.stream ++ header_bytes htonl l;
        calls = w.calls + 1;
      } in
      let (ends, streams, heaps) = send_from-Sends xs l.head w1 ok holds.chain in
      let first : cmq_pkt_send_msg htonl l w ≡ send_from htonl l.count l.head w1 =
        rw (ok w.calls) refl in
      subst (λ s. Sends w (header_bytes htonl l ++ encode xs) s)
        (sym (first ∙ ap (λ k. send_from htonl k l.head w1) holds.counted))
        (ends, streams ∙ append_assoc w.stream (header_bytes htonl l) (encode xs), heaps)
