-- ===== src/Cmq/Packet.antt =====
-- src/net/cmq/cmq-pkt.c: a frame list on a byte stream. cmq_pkt_send_msg without the MQTT transport.
pub mod Send
pub mod Lost
use cspot.Base.{
  ℕ, zero, suc, ◌+◌, ◌/◌, ◌%◌, ◌^◌, List, [], ◌∷◌, ◌++◌, Option, none, some, Bool, true, false,
  if◌then◌else◌, ◌==◌, take, length,
}
use cspot.Cmq.Frame.{
  Frame, FrameList, Heap, Action, Result, done, exit, crash, ◌>>=◌, ◌>>◌, pure, load,
}

-- What a call of write does: all bytes, some of them, or an error.
pub data Outcome : Type 0 where
  whole failed : Outcome
  short : ℕ → Outcome

-- the heap, the bytes that were written to the endpoint, and the outcomes of the calls
pub record Endpoint : Type 0 where
  pub heap : Heap
  pub stream : List ℕ
  pub outcome : ℕ → Outcome
  pub calls : ℕ

abbrev pub on_heap : {A : Type 0} → Action Heap A → Action Endpoint A
on_heap m w = let (r, h) = m w.heap in (r, record w { heap = h })

-- `n` bytes of a number, the lowest first
unfoldable pub low_bytes : ℕ → ℕ → List ℕ
low_bytes zero v = []
low_bytes (suc n) v = (v % 256) ∷ low_bytes n (v / 256)

-- an unsigned long in memory
unfoldable pub long_bytes : ℕ → List ℕ
unfolding low_bytes
long_bytes v = low_bytes 8 v

-- Whether the test of the result finds fewer bytes; (unsigned long)-1, of an error, is not fewer.
abbrev pub written : Outcome → List ℕ → Endpoint → Result Bool × Endpoint
written whole bytes w = (done false, record w { stream = w.stream ++ bytes; calls = w.calls + 1 })
written failed bytes w = (done false, record w { calls = w.calls + 1 })
written (short k) bytes w =
    (done true, record w { stream = w.stream ++ take k bytes; calls = w.calls + 1 })

abbrev pub write : List ℕ → Action Endpoint Bool
write bytes w = written (w.outcome w.calls) bytes w

-- CMQ_PKT_VERSION
abbrev pub cmq_pkt_version : ℕ
cmq_pkt_version = 1

-- `htonl` is the C library's
module _ (htonl : ℕ → ℕ) where
  -- CMQPKTHEADER
  abbrev pub header_bytes : FrameList → List ℕ
  header_bytes l =
      long_bytes (htonl cmq_pkt_version)
      ++ (long_bytes (htonl l.count) ++ long_bytes (htonl l.max_size))

  -- the data of a frame; a null payload with a size is an error of write
  abbrev pub write_payload : Frame → Action Endpoint Bool
  write_payload frame = elim frame.payload [
    | none ↦ (λ w. (done false, record w { calls = w.calls + 1 }))
    | some bytes ↦ write (take frame.size bytes)
  ]

  -- One round of the loop, and whether the function returns -1.
  abbrev pub send_frame : Frame → Action Endpoint Bool
  send_frame frame = write (long_bytes (htonl frame.size)) >>= λ fewer.
      if fewer then pure true else if frame.size == 0 then pure false else write_payload frame

  -- The loop over the linked frames, for at most `fuel`; `none` where these are not enough, otherwise
  -- whether the function returns -1.
  unfoldable pub send_from : ℕ → Option ℕ → Action Endpoint (Option Bool)
  send_from fuel none = pure (some false)
  send_from zero (some a) = pure none
  send_from (suc fuel) (some a) = on_heap (load a) >>= λ frame.
      send_frame frame >>= λ failed. if failed then pure (some true) else send_from fuel frame.next

  -- cmq_pkt_send_msg; a list that is linked as its count says is sent in `count` rounds
  unfoldable pub cmq_pkt_send_msg : FrameList → Action Endpoint (Option Bool)
  unfolding send_from
  cmq_pkt_send_msg l = write (header_bytes l) >>= λ fewer.
      if fewer then pure (some true) else send_from l.count l.head
