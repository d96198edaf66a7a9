-- ===== src/Cmq/Frame.antt =====
-- src/net/cmq/cmq-frame.c: frames in a singly linked list, on an explicit heap. Only the list's owner has
-- a pointer to its CMQFRAMELIST, which is passed as a value; a frame's payload is the frame's own.
pub mod Chain
pub mod Queue
pub mod Create
pub mod Destroy
use cspot.Base.{
  ℕ, zero, suc, ◌+◌, ◌-◌, ◌%◌, ◌^◌, List, [], ◌∷◌, Option, none, some, Bool, true, false, ◌&&◌,
  ◌==◌, ltb, if◌then◌else◌, take, replicate, update,
}
pub use cspot.Handler.{Action, Result, done, exit, crash, ◌>>=◌, ◌>>◌, pure}

-- CMQFRAME; a pointer to a frame is its address
pub record Frame : Type 0 where
  pub size : ℕ
  pub payload : Option (List ℕ)
  pub next : Option ℕ

-- CMQFRAMELIST
pub record FrameList : Type 0 where
  pub head : Option ℕ
  pub tail : Option ℕ
  pub count : ℕ
  pub max_size : ℕ

-- The frames that are allocated, how many calls of malloc there were, and which of these fail.
pub record Heap : Type 0 where
  pub frames : ℕ → Option Frame
  pub mallocs : ℕ
  pub fails : ℕ → Bool

abbrev pub malloced : Heap → Heap
malloced h = record h { mallocs = h.mallocs + 1 }

abbrev pub put_frame : ℕ → Option Frame → Heap → Heap
put_frame a f h = record h { frames = update h.frames a f }

-- a read through a pointer; one to a frame that was freed is a crash
abbrev pub load : ℕ → Action Heap Frame
load a h = elim (h.frames a) [ none ↦ (crash, h) | some f ↦ (done f, h) ]

abbrev pub store : ℕ → Frame → Action Heap (Unit {0})
store a f h = elim (h.frames a) [ none ↦ (crash, h) | some g ↦ (done tt, put_frame a (some f) h) ]

-- cmq_frame_destroy, which frees the payload too
unfoldable pub cmq_frame_destroy : Option ℕ → Action Heap (Unit {0})
cmq_frame_destroy none h = (done tt, h)
cmq_frame_destroy (some a) h = elim (h.frames a) [
  | none ↦ (crash, h)
  | some f ↦ (done tt, put_frame a none h)
]

abbrev pub no_frame : Frame
no_frame = record { size = 0; payload = none; next = none }

-- the bytes of the new payload
abbrev pub copied : Option (List ℕ) → ℕ → List ℕ
copied none len = replicate len 0
copied (some bytes) len = take len bytes

abbrev pub is_null {ℓ} : {A : Type ℓ} → Option A → Bool
is_null none = true
is_null (some a) = false

-- cmq_frame_create, `none` for -1. A frame is allocated at a new address.
unfoldable pub cmq_frame_create : Option (List ℕ) → ℕ → Action Heap (Option ℕ)
cmq_frame_create ptr len h =
    if h.fails h.mallocs
    then (done none, malloced h)
    else if is_null ptr && (len == 0)
    then (done (some h.mallocs), put_frame h.mallocs (some no_frame) (malloced h))
    else if h.fails (h.mallocs + 1)
    then (done none, malloced (malloced h))
    else (
      done (some h.mallocs),
      put_frame h.mallocs
          (some (record { size = len; payload = some (copied ptr len); next = none }))
          (malloced (malloced h)),
    )

-- cmq_frame_list_create; its result where malloc succeeds
abbrev pub no_frames : FrameList
no_frames = record { head = none; tail = none; count = 0; max_size = 0 }

unfoldable pub cmq_frame_list_create : Action Heap (Option FrameList)
cmq_frame_list_create h = (done (if h.fails h.mallocs then none else some no_frames), malloced h)

-- the list without its first frame
abbrev pub without_head : FrameList → Option ℕ → FrameList
without_head l next =
    if l.count - 1 == 0
    then record l { head = none; tail = none; count = 0 }
    else record l { head = next; count = l.count - 1 }

-- cmq_frame_pop, `none` for -1
unfoldable pub cmq_frame_pop : FrameList → Action Heap (Option (ℕ × FrameList))
cmq_frame_pop l = if l.count == 0 then pure none else elim l.head [
  | none ↦ pure none
  | some a ↦ load a >>= λ frame. pure (some (a, without_head l frame.next))
]

-- the branch of cmq_frame_append where there are frames
abbrev pub link : FrameList → ℕ → Action Heap FrameList
link l f = elim l.tail [
  | none ↦ (λ h. (crash, h))
  | some t ↦ load t >>= λ last. store t (record last { next = some f }) >>= λ _.
      pure (record l { tail = some f; count = (l.count + 1) % 2 ^ 32 })
]

abbrev pub link_first : FrameList → ℕ → Action Heap FrameList
link_first l f = elim l.head [
  | none ↦ pure (record l { head = some f; tail = some f; count = 1 })
  | some a ↦ link l f
]

-- the list with its hint of the largest size
abbrev pub widened : FrameList → Frame → FrameList
widened l frame = if ltb l.max_size frame.size then record l { max_size = frame.size } else l

-- cmq_frame_append of a frame to a list; neither is NULL
unfoldable pub cmq_frame_append : FrameList → ℕ → Action Heap FrameList
cmq_frame_append l f = link_first l f >>= λ linked. load f >>= λ frame. pure (widened linked frame)

-- The loop of cmq_frame_list_destroy while `left` frames are counted.
pub destroy_from : ℕ → FrameList → Action Heap (Unit {0})
destroy_from zero l = pure tt
destroy_from (suc left) l = cmq_frame_pop l >>= λ popped. elim popped [
  | none ↦ pure tt
  | some (a, rest) ↦ cmq_frame_destroy (some a) >> destroy_from left rest
]

-- cmq_frame_list_destroy
unfoldable pub cmq_frame_list_destroy : FrameList → Action Heap (Unit {0})
unfolding destroy_from
cmq_frame_list_destroy l = destroy_from l.count l

-- cmq_frame_list_empty
unfoldable pub cmq_frame_list_empty : FrameList → Bool
cmq_frame_list_empty l = if l.count == 0 then true else is_null l.head
