-- ===== src/Cmq/Receive/Whole.antt =====
-- A round of the loop of cmq_pkt_recv_msg where all of a frame arrives and no call fails.
use mathlib.Core.Path.{subst}
use cspot.Base.{
  ℕ, ◌+◌, ◌^◌, ◌<◌, ◌≡◌, ◌≢◌, ◌∙◌, ap, sym, refl, List, [], ◌∷◌, ◌++◌, Option, none, some, Bool,
  false, ◌&&◌, arith, Bool-cases, inl, inr, ◌==◌, length-append, ltb, if◌then◌else◌, drop, length,
}
use cspot.Cmq.Frame.{
  Heap, Action, Result, done, ◌>>=◌, pure, malloced, is_null, cmq_frame_create, cmq_frame_append,
}
use cspot.Cmq.Frame.Chain.{Item}
use cspot.Cmq.Frame.Create.{new_item, fails, creates, cmq_frame_create-Creates}
use cspot.Cmq.Packet.{long_bytes}
use cspot.Cmq.Packet.Send.{data_of}
use cspot.Cmq.Receive
use cspot.Cmq.Receive.{Receiver, Received, Inbox, recv, bytes, value, received, is_fewer, give_up}
use cspot.Cmq.Receive.Owned.{Owned, append-Owned, malloced-Owned}
use cspot.Cmq.Receive.Rounds.{on_heap_rule, new_item-address}
use cspot.Cmq.Receive.Values.{
  take-append, drop-append, take-length, length-long_bytes, value-long_bytes,
}

-- No call fails.
abbrev pub Smooth : Receiver → Type 0
Smooth w = ((k : ℕ) → w.broken k ≡ false) × ((k : ℕ) → w.heap.fails k ≡ false)

-- what a frame says
abbrev pub content : Item → ℕ × List ℕ
content x = (x.size, data_of x)

create-some :
    (h : Heap) (ptr : Option (List ℕ)) (len : ℕ)
    → ((k : ℕ) → h.fails k ≡ false)
    → ((cmq_frame_create ptr len h).0 ≢ done none)
      × ((cmq_frame_create ptr len h).1.fails ≡ h.fails)
unfolding cmq_frame_create
create-some h ptr len good = elim (Bool-cases (is_null ptr && (len == 0))) [
  | inl z ↦ rw (good h.mallocs, z) ((λ e. absurd (ground (arith, e))), refl)
  | inr z ↦ rw (good h.mallocs, z, good (h.mallocs + 1)) ((λ e. absurd (ground (arith, e))), refl)
]

-- recv of bytes that arrive
pub recv-bytes :
    {A : Type 0} (n : ℕ) (k : Received → Action Receiver A) (w : Receiver) (bs rest : List ℕ)
    → ((k : ℕ) → w.broken k ≡ false)
    → w.arriving ≡ bs ++ rest
    → n ≡ length bs
    → (recv n >>= k) w ≡ k (bytes bs) (record w { arriving = rest; calls = w.calls + 1 })
recv-bytes n k w bs rest good e sized =
    let enough : ltb (length w.arriving) (length bs) ≡ false =
      ground (arith, ap length e, length-append bs rest) in
    rw (sized, good w.calls, enough, e, take-append bs rest, drop-append bs rest) refl

content-new :
    (a b : ℕ) (bs junk : List ℕ)
    → content (new_item a (some ((b ∷ bs) ++ junk)) (length (b ∷ bs))) ≡ (length (b ∷ bs), b ∷ bs)
content-new a b bs junk =
    let more : (length (b ∷ bs) == 0) ≡ false = ground arith in
    rw (more, take-append bs junk, take-length bs) refl

-- a frame of `n` bytes, once they are read
abbrev fill_sized : Inbox → ℕ → Received → Action Receiver (Option Inbox)
fill_sized s n got =
    if is_fewer got
    then give_up s.list
    else Receive.make_frame (record s { buffer = received got s.buffer })
        (some (received got s.buffer)) n

module _ (h0 : Heap) (xs : List Item) (fits : length xs + 1 < 2 ^ 32) where
  -- The round goes on to the next, with a frame of the content at the end of the list and the rest of
  -- the bytes.
  abbrev pub Takes : ℕ × List ℕ → List ℕ → Result (Option Inbox) × Receiver → Type 0
  Takes c rest r =
      (s : Inbox) × (y : Item) × (r.0 ≡ done (some s))
      × (content y ≡ c)
      × Owned h0 r.1.heap s.list (xs ++ (y ∷ []))
      × (r.1.arriving ≡ rest)
      × Smooth r.1

  make_frame-Takes :
      (s : Inbox) (ptr : Option (List ℕ)) (len : ℕ) (w : Receiver) (c : ℕ × List ℕ) (rest : List ℕ)
      → Owned h0 w.heap s.list xs
      → Smooth w
      → w.arriving ≡ rest
      → content (new_item w.heap.mallocs ptr len) ≡ c
      → Takes c rest (Receive.make_frame s ptr len w)
  make_frame-Takes s ptr len w c rest owned good at_rest same_content =
      let r : Result (Option ℕ) × Heap = cmq_frame_create ptr len w.heap in
      let w1 : Receiver = record w { heap = r.1 } in
      let (succeeds, same_fails) = create-some w.heap ptr len good.1 in
      elim (cmq_frame_create-Creates w.heap ptr len owned.unused) [
        | fails e same unused ↦ absurd (succeeds e)
        | creates e new free others unused ↦
            let x : Item = new_item w.heap.mallocs ptr len in
            let at : x.address ≡ w.heap.mallocs = new_item-address w.heap.mallocs ptr len in
            let made : r.0 ≡ done (some x.address) = e ∙ ap (λ (a : ℕ). done (some a)) (sym at) in
            let (longer, appended, held, same) =
              append-Owned h0 w.heap r.1 s.list xs x owned at fits (ap r.1.frames at ∙ new) others
                unused in
            subst (λ q. Takes c rest q)
              (sym (
                on_heap_rule (cmq_frame_create ptr len) (Receive.append_made s) w (some x.address)
                  made
                ∙ on_heap_rule (cmq_frame_append s.list x.address)
                    (λ l. pure (some (record s { list = l }))) w1 longer appended))
              (
                record s { list = longer },
                x,
                refl,
                same_content,
                held,
                at_rest,
                (good.0, λ k. ap (λ (f : ℕ → Bool). f k) (same ∙ same_fails) ∙ good.1 k),
              )
      ]

  module _ (ntohl : ℕ → ℕ) (unset : ℕ → List ℕ) where
    read_payload-Takes :
        (s : Inbox) (payload rest : List ℕ) (w : Receiver)
        → Owned h0 w.heap s.list xs
        → Smooth w
        → w.arriving ≡ payload ++ rest
        → Receive.size_of ntohl unset s ≡ length payload
        → Takes (length payload, payload) rest (Receive.read_payload ntohl unset s w)
    read_payload-Takes s [] rest w owned good at_rest sized =
        rw sized (make_frame-Takes s none 0 w (0, []) rest owned good at_rest refl)
    read_payload-Takes s (b ∷ bs) rest w owned good at_rest sized =
        let w1 : Receiver = record w { arriving = rest; calls = w.calls + 1 } in
        let full : List ℕ = received (bytes (b ∷ bs)) s.buffer in
        let more : (length (b ∷ bs) == 0) ≡ false = ground arith in
        rw (sized, more)
          (subst (λ r. Takes (length (b ∷ bs), b ∷ bs) rest r)
            (sym (
              recv-bytes (length (b ∷ bs)) (fill_sized s (length (b ∷ bs))) w (b ∷ bs) rest good.0
                at_rest refl))
            (make_frame-Takes (record s { buffer = full }) (some full) (length (b ∷ bs)) w1
              (length (b ∷ bs), b ∷ bs) rest owned good refl
              (content-new w.heap.mallocs b bs (drop (length (b ∷ bs)) s.buffer))))

    ensure_room-Takes :
        (s : Inbox) (payload rest : List ℕ) (w : Receiver)
        → Owned h0 w.heap s.list xs
        → Smooth w
        → w.arriving ≡ payload ++ rest
        → Receive.size_of ntohl unset s ≡ length payload
        → Takes (length payload, payload) rest (Receive.ensure_room ntohl unset s w)
    ensure_room-Takes s payload rest w owned good at_rest sized =
        let larger : Inbox = record s {
          buffer = unset (Receive.size_of ntohl unset s);
          max_size = Receive.size_of ntohl unset s;
        } in
        let w1 : Receiver = record w { heap = malloced w.heap } in
        elim (Bool-cases (ltb s.max_size (Receive.size_of ntohl unset s))) [
          | inl e ↦
              rw (e, good.1 w.heap.mallocs)
                (read_payload-Takes larger payload rest w1
                  (malloced-Owned h0 w.heap s.list xs owned) good at_rest sized)
          | inr e ↦ rw e (read_payload-Takes s payload rest w owned good at_rest sized)
        ]

    -- A round reads a frame that arrives.
    pub receive_frame-Takes :
        (v : ℕ) (s : Inbox) (payload rest : List ℕ) (w : Receiver)
        → Owned h0 w.heap s.list xs
        → Smooth w
        → w.arriving ≡ long_bytes v ++ (payload ++ rest)
        → v < 2 ^ 32
        → ntohl v ≡ length payload
        → Takes (length payload, payload) rest (Receive.receive_frame ntohl unset s w)
    unfolding Receive.receive_frame
    receive_frame-Takes v s payload rest w owned good at_rest small sized =
        let w1 : Receiver = record w { arriving = payload ++ rest; calls = w.calls + 1 } in
        let e : Receive.size_of ntohl unset (record s { size = value (long_bytes v) })
            ≡ length payload =
          ap ntohl (omega (arith, value-long_bytes v (omega arith))) ∙ sized in
        subst (λ r. Takes (length payload, payload) rest r)
          (sym (
            recv-bytes 8 (Receive.use_size ntohl unset s) w (long_bytes v) (payload ++ rest) good.0
              at_rest (sym (length-long_bytes v))))
          (ensure_room-Takes (record s { size = value (long_bytes v) }) payload rest w1 owned good
            refl e)
