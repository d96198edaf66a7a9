-- ===== src/Cmq/Receive/RoundTrip.antt =====
-- cmq_pkt_recv_msg of what cmq_pkt_send_msg has written.
use mathlib.Core.Path.{subst}
use mathlib.Core.List.{append_assoc, append-nil}
use cspot.Base.{
  ℕ, ◌+◌, ◌%◌, ◌^◌, ◌<◌, ◌≡◌, ◌∙◌, ap, ap₂, sym, refl, List, [], ◌∷◌, ◌++◌, map, Option, some, true,
  arith, Bool-cases, inl, inr, ◌==◌, ltb, length, length-append,
}
use cspot.Handler.{continue}
use cspot.Cmq.Frame.{FrameList, Heap, Result, done, malloced, no_frames, cmq_frame_list_create}
use cspot.Cmq.Frame.Chain.{Item}
use cspot.Cmq.Frame.Create.{Unused}
use cspot.Cmq.Frame.Queue.{Holds}
use cspot.Cmq.Packet.{
  Endpoint, whole, cmq_pkt_version, long_bytes, low_bytes, header_bytes, cmq_pkt_send_msg,
}
use cspot.Cmq.Packet.Send.{data_of, encode, cmq_pkt_send_msg-Sends}
use cspot.Cmq.Receive
use cspot.Cmq.Receive.{Receiver, Received, Inbox, value, bytes, received, rounds}
use cspot.Cmq.Receive.Owned.{Owned, malloced-Owned}
use cspot.Cmq.Receive.Returns.{after_round, no_frames-Owned}
use cspot.Cmq.Receive.Values.{value-long_bytes}
use cspot.Cmq.Receive.Whole.{Smooth, content, recv-bytes, receive_frame-Takes}

-- Every frame has as many bytes as its size says.
abbrev pub AllSized : List Item → Type 0
AllSized [] = Unit
AllSized (x ∷ xs) = (x.size < 2 ^ 32) × (x.size ≡ length (data_of x)) × AllSized xs

-- The call has returned a list with frames of the same contents after the first ones, and has read
-- exactly the bytes before the rest.
abbrev pub Gets :
    Heap → List Item → List Item → List ℕ → Result (Option FrameList) × Receiver → Type 0
Gets h0 zs xs rest r =
    (l : FrameList) × (ys : List Item) × (r.0 ≡ done (some l))
    × Owned h0 r.1.heap l (zs ++ ys)
    × (map content ys ≡ map content xs)
    × (r.1.arriving ≡ rest)

-- The call has returned a list that holds frames of the contents, in order, and the rest of the bytes is
-- unread.
abbrev pub Delivers : List (ℕ × List ℕ) → List ℕ → Result (Option FrameList) × Receiver → Type 0
Delivers contents rest r =
    (l : FrameList) × (ys : List Item) × (r.0 ≡ done (some l))
    × Holds r.1.heap l ys
    × (map content ys ≡ contents)
    × (r.1.arriving ≡ rest)

-- What is relied on: ntohl undoes htonl on 32 bits.
abbrev pub Inverse : (ℕ → ℕ) → (ℕ → ℕ) → Type 0
Inverse htonl ntohl = (v : ℕ) → v < 2 ^ 32 → (htonl v < 2 ^ 32) × (ntohl (htonl v) ≡ v)

module _ (h0 : Heap) (htonl ntohl : ℕ → ℕ) (unset : ℕ → List ℕ)
    (inverse : Inverse htonl ntohl) where
  receive_from-Gets :
      (xs zs : List Item) (rest : List ℕ) (s : Inbox) (w : Receiver)
      → Owned h0 w.heap s.list zs
      → Smooth w
      → AllSized xs
      → length zs + length xs < 2 ^ 32
      → w.arriving ≡ encode htonl xs ++ rest
      → Gets h0 zs xs rest (Receive.receive_from ntohl unset (length xs) s w)
  unfolding Receive.receive_from
  receive_from-Gets [] zs rest s w owned good sized fits at_rest = (
    s.list,
    [],
    refl,
    subst (λ q. Owned h0 w.heap s.list q) (sym (append-nil zs)) owned,
    refl,
    at_rest,
  )
  receive_from-Gets (x ∷ xs) zs rest s w owned good (small, exact, sized) fits at_rest =
      let r : Result (Option Inbox) × Receiver = Receive.receive_frame ntohl unset s w in
      let back = inverse x.size small in
      let (s', y, e, same, held, at_more, good') =
        receive_frame-Takes h0 zs (omega (arith, fits)) ntohl unset (htonl x.size) s (data_of x)
          (encode htonl xs ++ rest) w owned good
          (at_rest
            ∙ append_assoc (long_bytes (htonl x.size)) (data_of x ++ encode htonl xs) rest
            ∙ ap (λ q. long_bytes (htonl x.size) ++ q)
                (append_assoc (data_of x) (encode htonl xs) rest))
          back.0 (back.1 ∙ exact) in
      let (l, ys, e', owned', contents, at_end) =
        receive_from-Gets xs (zs ++ (y ∷ [])) rest s' r.1 held good' sized
          (omega (arith, length-append zs (y ∷ []), fits)) at_more in
      let step : Receive.receive_from ntohl unset (length (x ∷ xs)) s w
          ≡ Receive.receive_from ntohl unset (length xs) s' r.1 =
        ap (λ (q : Result (Option Inbox)). continue q (after_round ntohl unset (length xs)) r.1)
          e in
      subst (λ q. Gets h0 zs (x ∷ xs) rest q) (sym step)
        (
          l,
          y ∷ ys,
          e',
          subst (λ q. Owned h0 (Receive.receive_from ntohl unset (length xs) s' r.1).1.heap l q)
              (append_assoc zs (y ∷ []) ys) owned',
          ap₂ (λ a b. a ∷ b) (same ∙ ap (λ n. (n, data_of x)) (sym exact)) contents,
          at_end,
        )

-- What is read of a header.
header_field :
    (ntohl : ℕ → ℕ) (unset : ℕ → List ℕ) (header0 : List ℕ) (size0 a b c : ℕ)
    → let memory = received (bytes (long_bytes a ++ (long_bytes b ++ long_bytes c))) header0 in
      (Receive.field ntohl unset header0 size0 0 memory ≡ ntohl (value (long_bytes a) % 2 ^ 32))
      × (Receive.field ntohl unset header0 size0 1 memory ≡ ntohl (value (long_bytes b) % 2 ^ 32))
      × (Receive.field ntohl unset header0 size0 2 memory ≡ ntohl (value (long_bytes c) % 2 ^ 32))
unfolding long_bytes low_bytes
header_field ntohl unset header0 size0 a b c = (refl, refl, refl)

module _ (htonl ntohl : ℕ → ℕ) (unset : ℕ → List ℕ) (header0 : List ℕ) (size0 : ℕ)
    (inverse : Inverse htonl ntohl) where
  start-Gets :
      (xs : List Item) (rest : List ℕ) (max_size : ℕ) (w : Receiver)
      → Unused w.heap
      → Smooth w
      → AllSized xs
      → length xs < 2 ^ 31
      → w.arriving ≡ encode htonl xs ++ rest
      → Gets w.heap [] xs rest
          (Receive.start ntohl unset header0 size0 (length xs) max_size no_frames w)
  start-Gets xs rest max_size w unused good sized fits at_rest =
      let s : Inbox = record { list = no_frames; size = size0; buffer = []; max_size = max_size } in
      let w1 : Receiver = record w { heap = malloced w.heap } in
      let owned : Owned w.heap w.heap no_frames [] = no_frames-Owned w.heap unused in
      let counted : ltb (length xs) (2 ^ 31) ≡ true = ground (arith, fits) in
      elim (Bool-cases (max_size == 0)) [
        | inl z ↦
            rw (z, counted)
              (receive_from-Gets w.heap htonl ntohl unset inverse xs [] rest s w owned good sized
                (omega (arith, fits)) at_rest)
        | inr z ↦
            rw (z, counted, good.1 w.heap.mallocs)
              (receive_from-Gets w.heap htonl ntohl unset inverse xs [] rest
                (record s { buffer = unset max_size }) w1
                (malloced-Owned w.heap w.heap no_frames [] owned) good sized (omega (arith, fits))
                at_rest)
      ]

  field_value : (v : ℕ) → v < 2 ^ 32 → ntohl (value (long_bytes (htonl v)) % 2 ^ 32) ≡ v
  field_value v small =
      let (fits, back) = inverse v small in
      ap ntohl (omega (arith, value-long_bytes (htonl v) (omega arith))) ∙ back

  length-header_bytes : (l : FrameList) → 24 ≡ length (header_bytes htonl l)
  unfolding long_bytes low_bytes
  length-header_bytes l = refl

  create_list-Delivers :
      (xs : List Item) (rest : List ℕ) (max_size : ℕ) (w : Receiver)
      → Unused w.heap
      → Smooth w
      → AllSized xs
      → length xs < 2 ^ 31
      → w.arriving ≡ encode htonl xs ++ rest
      → Delivers
          (map content xs)
          rest
          (Receive.create_list ntohl unset header0 size0 (length xs) max_size w)
  unfolding cmq_frame_list_create
  create_list-Delivers xs rest max_size w unused good sized fits at_rest =
      let w1 : Receiver = record w { heap = malloced w.heap } in
      let (l, ys, e, owned, contents, at_end) =
        start-Gets xs rest max_size w1 (λ a low. unused a (omega arith)) good sized fits at_rest in
      rw (good.1 w.heap.mallocs) (l, ys, e, owned.holds, contents, at_end)

  -- cmq_pkt_send_msg of a list writes bytes from which cmq_pkt_recv_msg makes a list of frames of the same
  -- sizes and data, in order, and it reads no byte of what follows.
  pub cmq_pkt_recv_msg-cmq_pkt_send_msg :
      (l : FrameList) (xs : List Item) (rest : List ℕ) (sender : Endpoint) (w : Receiver)
      → Holds sender.heap l xs
      → AllSized xs
      → length xs < 2 ^ 31
      → l.max_size < 2 ^ 32
      → sender.stream ≡ []
      → ((k : ℕ) → sender.outcome k ≡ whole)
      → Unused w.heap
      → Smooth w
      → w.arriving ≡ (cmq_pkt_send_msg htonl l sender).1.stream ++ rest
      → Delivers (map content xs) rest (Receive.cmq_pkt_recv_msg ntohl unset header0 size0 w)
  unfolding Receive.cmq_pkt_recv_msg
  cmq_pkt_recv_msg-cmq_pkt_send_msg l xs rest sender w holds sized fits hint empty sends unused good
        at_rest =
      let (returned, stream, same) = cmq_pkt_send_msg-Sends htonl l xs sender sends holds in
      let w1 : Receiver = record w { arriving = encode htonl xs ++ rest; calls = w.calls + 1 } in
      let memory : List ℕ = received (bytes (header_bytes htonl l)) header0 in
      let (f0, f1, f2) =
        header_field ntohl unset header0 size0 (htonl cmq_pkt_version) (htonl l.count)
          (htonl l.max_size) in
      let version : (Receive.field ntohl unset header0 size0 0 memory == cmq_pkt_version) ≡ true =
        ground (arith, f0, field_value 1 (omega arith)) in
      let counted : Receive.field ntohl unset header0 size0 1 memory ≡ length xs =
        f1 ∙ field_value l.count (omega (arith, holds.counted, fits)) ∙ holds.counted in
      let arrives : w.arriving ≡ header_bytes htonl l ++ (encode htonl xs ++ rest) =
        at_rest
        ∙ ap (λ bs. bs ++ rest)
            (stream ∙ ap (λ bs. bs ++ (header_bytes htonl l ++ encode htonl xs)) empty)
        ∙ append_assoc (header_bytes htonl l) (encode htonl xs) rest in
      subst (λ r. Delivers (map content xs) rest r)
        (sym (
          recv-bytes 24 (Receive.use_header ntohl unset header0 size0) w (header_bytes htonl l)
            (encode htonl xs ++ rest) good.0 arrives (length-header_bytes l)))
        (rw version (
          subst
            (λ n. Delivers (map content xs) rest (
              Receive.create_list ntohl unset header0 size0 n
                (Receive.field ntohl unset header0 size0 2 memory) w1))
            (sym counted)
            (create_list-Delivers xs rest (Receive.field ntohl unset header0 size0 2 memory) w1
              unused good sized fits refl)))
