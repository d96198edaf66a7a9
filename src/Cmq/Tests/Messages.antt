-- ===== src/Cmq/Tests/Messages.antt =====
-- A message that is sent and received, and the theorems on cmq_pkt_recv_msg at it.
use cspot.Base.{ℕ, ◌+◌, ◌*◌, ◌/◌, ◌%◌, ◌^◌, refl, [], ◌∷◌, ◌++◌, map, none, false, arith}
use cspot.Cmq.Frame.{Heap}
use cspot.Cmq.Packet.{cmq_pkt_send_msg}
use cspot.Cmq.Receive
use cspot.Cmq.Receive.{Receiver}
use cspot.Cmq.Receive.Returns.{Returns, cmq_pkt_recv_msg-Returns}
use cspot.Cmq.Receive.RoundTrip.{Inverse, Delivers, cmq_pkt_recv_msg-cmq_pkt_send_msg}
use cspot.Cmq.Receive.Whole.{content}
use cspot.Cmq.Tests.Frames.{first_item, second_item, two_frames, two_frames-Holds, connection}

-- htonl on a machine that stores the lowest byte first
abbrev swap : ℕ → ℕ
swap v = v % 256 * 2 ^ 24 + v / 256 % 256 * 2 ^ 16 + v / 2 ^ 16 % 256 * 256 + v / 2 ^ 24 % 256

swap-Inverse : Inverse swap swap
swap-Inverse v h = (omega arith, omega arith)

abbrev empty_heap : Heap
empty_heap = record { frames = λ _. none; mallocs = 0; fails = λ _. false }

-- the bytes of the two frames, and one that follows
abbrev receiver : Receiver
receiver = record {
  heap = empty_heap;
  arriving = (cmq_pkt_send_msg swap two_frames connection).1.stream ++ (5 ∷ []);
  calls = 0;
  broken = λ _. false;
}

cmq_pkt_recv_msg-cmq_pkt_send_msg_example :
    Delivers
      (map content (first_item ∷ second_item ∷ []))
      (5 ∷ [])
      (Receive.cmq_pkt_recv_msg swap (λ _. []) [] 0 receiver)
cmq_pkt_recv_msg-cmq_pkt_send_msg_example =
    cmq_pkt_recv_msg-cmq_pkt_send_msg swap swap (λ _. []) [] 0 swap-Inverse two_frames
      (first_item ∷ second_item ∷ []) (5 ∷ []) connection receiver two_frames-Holds
      (omega arith, refl, (omega arith, refl, tt)) (omega arith) (omega arith) refl (λ k. refl)
      (λ a low. refl) ((λ k. refl), (λ k. refl)) refl

cmq_pkt_recv_msg-Returns_example :
    Returns empty_heap (Receive.cmq_pkt_recv_msg swap (λ _. []) [] 0 receiver)
cmq_pkt_recv_msg-Returns_example =
    cmq_pkt_recv_msg-Returns swap (λ _. []) [] 0 receiver (λ a low. refl)
