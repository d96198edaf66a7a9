-- ===== src/Cmq/Tests/Frames.antt =====
-- A list of two frames, and the theorems on src/net/cmq at it.
use cspot.Base.{ℕ, zero, suc, ◌≤◌, ◌≡◌, refl, [], ◌∷◌, Option, none, some, false, arith}
use cspot.Cmq.Frame.{Frame, FrameList, Heap, cmq_frame_append, cmq_frame_list_destroy}
use cspot.Cmq.Frame.Chain.{Item, frame_of}
use cspot.Cmq.Frame.Queue.{Holds, Appends, cmq_frame_append-Holds}
use cspot.Cmq.Packet.{Endpoint, whole, failed, cmq_pkt_send_msg}
use cspot.Cmq.Packet.Lost.{Loses, cmq_pkt_send_msg-Loses}
use cspot.Cmq.Frame.Destroy.{Ends, cmq_frame_list_destroy-Ends}

abbrev pub first_item : Item
first_item = record { address = 0; size = 2; payload = some (7 ∷ 8 ∷ []) }

abbrev pub second_item : Item
second_item = record { address = 1; size = 0; payload = none }

abbrev pub third_item : Item
third_item = record { address = 2; size = 1; payload = some (9 ∷ []) }

abbrev pub contents : ℕ → Option Frame
contents zero = some (frame_of first_item (some 1))
contents (suc zero) = some (frame_of second_item none)
contents (suc (suc zero)) = some (frame_of third_item none)
contents (suc (suc (suc a))) = none

-- the first two frames in a list, the third in none
abbrev pub three_frames : Heap
three_frames = record { frames = contents; mallocs = 3; fails = λ _. false }

abbrev pub two_frames : FrameList
two_frames = record { head = some 0; tail = some 1; count = 2; max_size = 2 }

pub two_frames-Holds : Holds three_frames two_frames (first_item ∷ second_item ∷ [])
two_frames-Holds = record {
  chain = (
    refl,
    ((λ e. absurd (omega (arith, e))), tt),
    (some 1, refl, (refl, tt, (none, refl, refl))),
  );
  tail_at = refl;
  counted = refl;
  fits = omega arith;
  bounded = (omega arith, (omega arith, tt));
}

cmq_frame_append-Holds_example :
    Appends three_frames third_item
      (first_item ∷ second_item ∷ [])
      (cmq_frame_append two_frames 2 three_frames)
cmq_frame_append-Holds_example =
    cmq_frame_append-Holds three_frames two_frames third_item (first_item ∷ second_item ∷ [])
      two_frames-Holds ((λ e. absurd (omega (arith, e))), ((λ e. absurd (omega (arith, e))), tt))
      refl (omega arith)

cmq_frame_list_destroy-Ends_example :
    Ends three_frames
      (first_item ∷ second_item ∷ [])
      (cmq_frame_list_destroy two_frames three_frames)
cmq_frame_list_destroy-Ends_example =
    cmq_frame_list_destroy-Ends three_frames two_frames (first_item ∷ second_item ∷ [])
      two_frames-Holds

unused : (a : ℕ) → three_frames.mallocs ≤ a → three_frames.frames a ≡ none
unused zero h = absurd (omega arith)
unused (suc zero) h = absurd (omega arith)
unused (suc (suc zero)) h = absurd (omega arith)
unused (suc (suc (suc a))) h = refl

-- the frames at an endpoint
abbrev pub connection : Endpoint
connection = record { heap = three_frames; stream = []; outcome = λ _. whole; calls = 0 }

cmq_pkt_send_msg-Loses_example :
    Loses
      (λ v. v)
      (record connection { outcome = λ _. failed })
      (cmq_pkt_send_msg (λ v. v) two_frames (record connection { outcome = λ _. failed }))
cmq_pkt_send_msg-Loses_example =
    cmq_pkt_send_msg-Loses (λ v. v) two_frames (first_item ∷ second_item ∷ [])
      (record connection { outcome = λ _. failed }) (λ k. refl) two_frames-Holds
