-- ===== src/Cmq/Receive.antt =====
-- src/net/cmq/cmq-pkt.c: cmq_pkt_recv_msg, which reads a frame list from a byte stream, without the MQTT
-- transport. The buffer's memory is not followed.
pub mod Owned
pub mod Rounds
pub mod Returns
pub mod Values
pub mod Whole
pub mod RoundTrip
use cspot.Base.{
  ℕ, zero, suc, ◌+◌, ◌*◌, ◌%◌, ◌^◌, List, [], ◌∷◌, ◌++◌, Option, none, some, Bool, true, false,
  if◌then◌else◌, ◌==◌, ltb, take, drop, length,
}
use cspot.Cmq.Frame.{
  FrameList, Heap, Action, Result, done, ◌>>=◌, ◌>>◌, pure, malloced, cmq_frame_create,
  cmq_frame_append, cmq_frame_list_create, cmq_frame_list_destroy,
}
use cspot.Cmq.Packet.{cmq_pkt_version}

-- The heap, the bytes that arrive before the connection is closed, how many calls of recv there were,
-- and which of these return -1.
pub record Receiver : Type 0 where
  pub heap : Heap
  pub arriving : List ℕ
  pub calls : ℕ
  pub broken : ℕ → Bool

abbrev pub on_heap : {A : Type 0} → Action Heap A → Action Receiver A
on_heap m w = let (r, h) = m w.heap in (r, record w { heap = h })

-- What recv with MSG_WAITALL does: the bytes that are asked for, fewer, or an error, -1, which leaves the
-- memory as it is.
pub data Received : Type 0 where
  bytes : List ℕ → Received
  fewer error : Received

abbrev pub recv : ℕ → Action Receiver Received
recv n w =
    if w.broken w.calls
    then (done error, record w { calls = w.calls + 1 })
    else if ltb (length w.arriving) n
    then (done fewer, record w { arriving = []; calls = w.calls + 1 })
    else (
      done (bytes (take n w.arriving)),
      record w { arriving = drop n w.arriving; calls = w.calls + 1 },
    )

-- Whether the test of the result finds fewer bytes; (unsigned long)-1, of an error, is not fewer.
abbrev pub is_fewer : Received → Bool
is_fewer (bytes bs) = false
is_fewer fewer = true
is_fewer error = false

-- the memory that recv writes to
abbrev pub received : Received → List ℕ → List ℕ
received (bytes bs) memory = bs ++ drop (length bs) memory
received fewer memory = memory
received error memory = memory

-- an unsigned long of bytes, the lowest first
unfoldable pub value : List ℕ → ℕ
value [] = 0
value (b ∷ bs) = b + 256 * value bs

abbrev pub long_of : Received → ℕ → ℕ
long_of (bytes bs) old = value bs
long_of fewer old = old
long_of error old = old

-- The variables of the loop: the list, the size that was read last, the buffer and its size.
pub record Inbox : Type 0 where
  pub list : FrameList
  pub size : ℕ
  pub buffer : List ℕ
  pub max_size : ℕ

-- cmq_frame_list_destroy and return -1
abbrev pub give_up : {A : Type 0} → FrameList → Action Receiver (Option A)
give_up l = on_heap (cmq_frame_list_destroy l) >> pure none

-- the frame that was created, appended
abbrev pub append_made : Inbox → Option ℕ → Action Receiver (Option Inbox)
append_made s made = elim made [
  | none ↦ give_up s.list
  | some f ↦ on_heap (cmq_frame_append s.list f) >>= λ l. pure (some (record s { list = l }))
]

abbrev pub make_frame : Inbox → Option (List ℕ) → ℕ → Action Receiver (Option Inbox)
make_frame s ptr len = on_heap (cmq_frame_create ptr len) >>= λ made. append_made s made

-- The rounds of the loop up to (int)frame_count, which is negative from 2^31 on.
abbrev pub rounds : ℕ → ℕ
rounds frame_count = if ltb frame_count (2 ^ 31) then frame_count else 0

-- `ntohl` is the C library's; `unset` is what new memory of a size holds.
module _ (ntohl : ℕ → ℕ) (unset : ℕ → List ℕ) where
  -- ntohl of an unsigned long, which is converted to 32 bits
  abbrev pub ntohl_long : ℕ → ℕ
  ntohl_long v = ntohl (v % 2 ^ 32)

  abbrev pub size_of : Inbox → ℕ
  size_of s = ntohl_long s.size

  -- once the payload is read
  abbrev pub fill : Inbox → Received → Action Receiver (Option Inbox)
  fill s got =
      if is_fewer got
      then give_up s.list
      else make_frame (record s { buffer = received got s.buffer }) (some (received got s.buffer))
          (size_of s)

  abbrev pub read_payload : Inbox → Action Receiver (Option Inbox)
  read_payload s =
      if size_of s == 0 then make_frame s none 0 else recv (size_of s) >>= λ got. fill s got

  -- a larger buffer
  abbrev pub enlarge : Inbox → Action Receiver (Option Inbox)
  enlarge s w =
      if w.heap.fails w.heap.mallocs
      then give_up s.list (record w { heap = malloced w.heap })
      else read_payload (record s { buffer = unset (size_of s); max_size = size_of s })
          (record w { heap = malloced w.heap })

  abbrev pub ensure_room : Inbox → Action Receiver (Option Inbox)
  ensure_room s = if ltb s.max_size (size_of s) then enlarge s else read_payload s

  abbrev pub use_size : Inbox → Received → Action Receiver (Option Inbox)
  use_size s got =
      if is_fewer got then give_up s.list else ensure_room (record s { size = long_of got s.size })

  -- One round of the loop; `none` if the function returns -1.
  unfoldable pub receive_frame : Inbox → Action Receiver (Option Inbox)
  receive_frame s = recv 8 >>= λ got. use_size s got

  -- The loop, and the list that is returned; `none` for -1.
  unfoldable pub receive_from : ℕ → Inbox → Action Receiver (Option FrameList)
  receive_from zero s = pure (some s.list)
  receive_from (suc left) s =
      receive_frame s >>= λ next. elim next [ none ↦ pure none | some s' ↦ receive_from left s' ]

-- `header0` and `size0` are what the variables hold before they are read.
module _ (ntohl : ℕ → ℕ) (unset : ℕ → List ℕ) (header0 : List ℕ) (size0 : ℕ) where
  -- the first buffer, of the size of the hint
  abbrev pub start : ℕ → ℕ → FrameList → Action Receiver (Option FrameList)
  start frame_count max_size l w =
      let s : Inbox = record { list = l; size = size0; buffer = []; max_size = max_size } in
      if max_size == 0
      then receive_from ntohl unset (rounds frame_count) s w
      else if w.heap.fails w.heap.mallocs
      then give_up l (record w { heap = malloced w.heap })
      else receive_from ntohl unset (rounds frame_count) (record s { buffer = unset max_size })
          (record w { heap = malloced w.heap })

  abbrev pub create_list : ℕ → ℕ → Action Receiver (Option FrameList)
  create_list frame_count max_size = on_heap cmq_frame_list_create >>= λ made. elim made [
    | none ↦ pure none
    | some l ↦ start frame_count max_size l
  ]

  -- the fields of the header
  abbrev pub field : ℕ → List ℕ → ℕ
  field i memory = ntohl_long ntohl unset (value (take 8 (drop (8 * i) memory)))

  abbrev pub use_header : Received → Action Receiver (Option FrameList)
  use_header got =
      let memory = received got header0 in
      if is_fewer got
      then pure none
      else if field 0 memory == cmq_pkt_version
      then create_list (field 1 memory) (field 2 memory)
      else pure none

  -- cmq_pkt_recv_msg; the list that it returns, or `none` for -1
  unfoldable pub cmq_pkt_recv_msg : Action Receiver (Option FrameList)
  unfolding receive_from
  cmq_pkt_recv_msg = recv 24 >>= λ got. use_header got
