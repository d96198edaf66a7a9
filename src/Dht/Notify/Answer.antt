-- ===== src/Dht/Notify/Answer.antt =====
-- The successor list that h_notify answers, and that h_notify_callback adopts.
use cspot.Base.{zero, suc, ◌+◌, ◌%◌, ◌≡◌, inl, inr, false, arith, Bool-cases, ◌==◌}
use cspot.Dht.Ring.{Hash, is_empty_hash, zero_hash}
use cspot.Dht.Ring.Value.{value, ring}
use cspot.Dht.Ring.Next.{IsNext, is_empty_hash-zero}
use cspot.Dht.State.{NodeInfo, SuccessorInfo}
use cspot.Dht.Find.Messages.{Follows}
use cspot.Dht.Notify.{successors_of, copy_from}

not_empty : {A : Type 0} → is_empty_hash zero_hash ≡ false → A
not_empty e = absurd (ground (arith, e, is_empty_hash-zero))

-- The list that a node answers to the one before it in the ring follows on that one, if its own list
-- follows on itself.
pub successors_of-Follows :
    (Member : Hash → Type 0) (before node : NodeInfo) (successor : SuccessorInfo)
    → IsNext Member ((value before.hash + 1) % ring) node.hash
    → Follows Member node successor
    → Follows Member before (successors_of node successor)
unfolding successors_of copy_from
successors_of-Follows Member before node successor next follows zero =
    elim (Bool-cases (is_empty_hash (successor.hash 0))) [
      | inl none_first ↦ rw none_first (λ _. next)
      | inr first ↦ elim (Bool-cases (is_empty_hash (successor.hash 1))) [
        | inl none_second ↦ rw (first, none_second) (λ _. next)
        | inr second ↦ rw (first, second) (λ _. next)
      ]
    ]
successors_of-Follows Member before node successor next follows (suc zero) =
    elim (Bool-cases (is_empty_hash (successor.hash 0))) [
      | inl none_first ↦ rw none_first not_empty
      | inr first ↦ elim (Bool-cases (is_empty_hash (successor.hash 1))) [
        | inl none_second ↦ rw (first, none_second) (λ _. follows 0 first)
        | inr second ↦ rw (first, second) (λ _. follows 0 first)
      ]
    ]
successors_of-Follows Member before node successor next follows (suc (suc zero)) =
    elim (Bool-cases (is_empty_hash (successor.hash 0))) [
      | inl none_first ↦ rw none_first not_empty
      | inr first ↦ elim (Bool-cases (is_empty_hash (successor.hash 1))) [
        | inl none_second ↦ rw (first, none_second) not_empty
        | inr second ↦ rw (first, second) (λ _. follows 1 second)
      ]
    ]
successors_of-Follows Member before node successor next follows (suc (suc (suc i))) =
    let b0 : (0 == suc (suc (suc i))) ≡ false = ground arith in
    let b1 : (1 == suc (suc (suc i))) ≡ false = ground arith in
    let b2 : (2 == suc (suc (suc i))) ≡ false = ground arith in
    elim (Bool-cases (is_empty_hash (successor.hash 0))) [
      | inl none_first ↦ rw (none_first, b0) not_empty
      | inr first ↦ elim (Bool-cases (is_empty_hash (successor.hash 1))) [
        | inl none_second ↦ rw (first, none_second, b1, b0) not_empty
        | inr second ↦ rw (first, second, b2, b1, b0) not_empty
      ]
    ]
