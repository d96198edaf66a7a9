-- ===== src/Cmq/Packet/Lost.antt =====
-- cmq_pkt_send_msg on a connection on which every call of write returns -1.
use mathlib.Core.Path.{subst}
use cspot.Base.{
  ℕ, ◌+◌, ◌≡◌, ◌∙◌, ap, sym, refl, List, [], ◌∷◌, Option, some, Bool, false, ◌==◌, length,
  Bool-cases, Option-cases, inl, inr,
}
use cspot.Cmq.Frame.{FrameList, Result, done}
use cspot.Cmq.Frame.Chain.{Item, frame_of, Chain}
use cspot.Cmq.Frame.Queue.{Holds}
use cspot.Cmq.Packet.{Endpoint, Outcome, failed, send_frame, send_from, cmq_pkt_send_msg}
use cspot.Cmq.Packet.Send.{send_from-step}

module _ (htonl : ℕ → ℕ) where
  abbrev Unwritten : Endpoint → Result Bool × Endpoint → Type 0
  Unwritten w r =
      (r.0 ≡ done false) × (r.1.stream ≡ w.stream) × (r.1.heap ≡ w.heap) × (r.1.outcome ≡ w.outcome)

  send_frame-Unwritten :
      (x : Item) (next : Option ℕ) (w : Endpoint)
      → ((k : ℕ) → w.outcome k ≡ failed)
      → Unwritten w (send_frame htonl (frame_of x next) w)
  send_frame-Unwritten x next w lost = elim (Bool-cases (x.size == 0)) [
    | inl z ↦ rw (lost w.calls, z) (refl, refl, refl, refl)
    | inr z ↦ elim (Option-cases x.payload) [
      | inl absent ↦ rw (lost w.calls, z, absent) (refl, refl, refl, refl)
      | inr (bytes, present) ↦
          rw (lost w.calls, z, present, lost (w.calls + 1)) (refl, refl, refl, refl)
    ]
  ]

  -- The call has returned 0 and nothing was written.
  abbrev pub Loses : Endpoint → Result (Option Bool) × Endpoint → Type 0
  Loses w r = (r.0 ≡ done (some false)) × (r.1.stream ≡ w.stream)

  send_from-Loses :
      (xs : List Item) (p : Option ℕ) (w : Endpoint)
      → ((k : ℕ) → w.outcome k ≡ failed)
      → Chain w.heap xs p
      → Loses w (send_from htonl (length xs) p w)
  unfolding send_from
  send_from-Loses [] p w lost chain = rw chain (refl, refl)
  send_from-Loses (x ∷ xs) p w lost (at, distinct, (next, found, rest)) =
      let r : Result Bool × Endpoint = send_frame htonl (frame_of x next) w in
      let (sent, stream, heap, outcome) = send_frame-Unwritten x next w lost in
      let e : send_frame htonl (frame_of x next) w ≡ (done false, r.1) =
        ap (λ (s : Result Bool). (s, r.1)) sent in
      let (ends, streams) =
        send_from-Loses xs next r.1 (λ k. ap (λ (f : ℕ → Outcome). f k) outcome ∙ lost k)
          (subst (λ h. Chain h xs next) (sym heap) rest) in
      subst (λ q. Loses w (send_from htonl (length (x ∷ xs)) q w)) (sym at)
        (subst (λ s. Loses w s)
          (sym (send_from-step htonl (length xs) x.address (frame_of x next) w r.1 found e))
          (ends, streams ∙ stream))

  -- Where every call of write returns -1, cmq_pkt_send_msg of a list that holds frames returns 0, though
  -- nothing was written.
  pub cmq_pkt_send_msg-Loses :
      (l : FrameList) (xs : List Item) (w : Endpoint)
      → ((k : ℕ) → w.outcome k ≡ failed)
      → Holds w.heap l xs
      → Loses w (cmq_pkt_send_msg htonl l w)
  unfolding cmq_pkt_send_msg
  cmq_pkt_send_msg-Loses l xs w lost holds =
      let w1 : Endpoint = record w { calls = w.calls + 1 } in
      let first : cmq_pkt_send_msg htonl l w ≡ send_from htonl l.count l.head w1 =
        rw (lost w.calls) refl in
      subst (λ s. Loses w s) (sym (first ∙ ap (λ k. send_from htonl k l.head w1) holds.counted))
        (send_from-Loses xs l.head w1 lost holds.chain)
