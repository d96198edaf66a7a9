-- ===== src/Dht/Tests/Handlers.antt =====
-- The handlers of apps/dht at the node 10 of the ring.
use cspot.Base.{ℕ, zero, suc, ◌+◌, ◌%◌, ◌≡◌, refl, inl, inr, [], ◌∷◌, false, arith, codes}
use cspot.Dht.Ring.{is_empty_hash, memcmp}
use cspot.Dht.Ring.Value.{value, ring}
use cspot.Dht.Ring.Next.{IsHash, IsNext}
use cspot.Dht.State.{Node, SuccessorInfo, FindArg, find_node, StabilizeResult, NotifyArg}
use cspot.Dht.Exec.{Adds, same}
use cspot.Dht.Find.{resolve_thread}
use cspot.Dht.Find.Fingers.{some_injective}
use cspot.Dht.Find.Messages.{Grows, InRing, Follows}
use cspot.Dht.Find.Forward.{resolve_thread-Grows}
use cspot.Dht.Stabilize.{stabilized, h_stabilize_callback}
use cspot.Dht.Stabilize.Closer.{stabilized-IsNext}
use cspot.Dht.Stabilize.Messages.{Stabilizes, h_stabilize_callback-Adds}
use cspot.Dht.Notify.{h_notify, successors_of}
use cspot.Dht.Notify.Closer.{Moves, h_notify-Moves}
use cspot.Dht.Notify.Answer.{successors_of-Follows}
use cspot.Dht.Finger.{d_fix_finger}
use cspot.Dht.Finger.Loop.{Ends, d_fix_finger-Ends}
use cspot.Dht.Finger.Right.{AllRight}
use cspot.Dht.Tests.Ring.{
  hash_of, IsHash-hash_of, Member, Member-IsHash, first_of, peer, info, list_of, Follows-list_of,
  node_with,
}

abbrev two_after : SuccessorInfo
two_after = list_of (20 ∷ 30 ∷ [])

abbrev request : FindArg
request = record {
  key = codes "key";
  hashed_key = hash_of 15;
  action = find_node;
  action_namespace = [];
  action_seqno = 0;
  callback_namespace = codes "client";
  ts_created = 0;
}

lists : (i : ℕ) → IsHash (two_after.hash i)
lists zero = IsHash-hash_of 20 (omega arith)
lists (suc zero) = IsHash-hash_of 30 (omega arith)
lists (suc (suc i)) = ground arith

in_ring : InRing Member request info two_after (node_with two_after)
in_ring = record {
  hashes = Member-IsHash;
  here = IsHash-hash_of 10 (omega arith);
  keyed = IsHash-hash_of 15 (omega arith);
  lists = lists;
  follows = Follows-list_of;
}

resolve_thread-Grows_example :
    Grows Member request info two_after
      (node_with two_after)
      []
      (resolve_thread request info two_after (node_with two_after)).1.sent
resolve_thread-Grows_example =
    resolve_thread-Grows Member request info two_after (node_with two_after) in_ring [] same
      λ k pos top p e. rw (← some_injective e) (IsHash-hash_of 20 (omega arith))

d_fix_finger-Ends_example : Ends (d_fix_finger (λ addr i. addr) (node_with two_after)).0
d_fix_finger-Ends_example = d_fix_finger-Ends (λ addr i. addr) (node_with two_after)

-- without fingers
abbrev fingerless : Node
fingerless = record (node_with two_after) { fingers = λ _. [] }

no_fingers : AllRight Member info fingerless
no_fingers k pos top p e = absurd (ground (arith, e))

-- what the successor 30 answers
abbrev told : StabilizeResult
told = record { predecessor = peer 20; successor_leader_id = 0 }

abbrev thirty : SuccessorInfo
thirty = list_of (30 ∷ [])

full : is_empty_hash (hash_of 20) ≡ false
unfolding is_empty_hash memcmp
full = refl

stabilized-IsNext_example :
    IsNext Member ((value (hash_of 10) + 1) % ring) ((stabilized info told thirty).hash 0)
stabilized-IsNext_example =
    stabilized-IsNext info told thirty (IsHash-hash_of 10 (omega arith))
      (IsHash-hash_of 30 (omega arith)) (IsHash-hash_of 20 (omega arith)) Member Member-IsHash
      (inr (inr refl)) (inr (inl refl)) full
      (inr (first_of 11 (hash_of 20) (inr (inl refl)) (omega arith)))

h_stabilize_callback-Adds_example :
    Adds (Stabilizes info told thirty) [] (h_stabilize_callback told (node_with thirty)).1.sent
h_stabilize_callback-Adds_example =
    h_stabilize_callback-Adds info told thirty (IsHash-hash_of 10 (omega arith))
      (IsHash-hash_of 30 (omega arith)) (IsHash-hash_of 20 (omega arith)) (node_with thirty) refl
      refl

abbrev notice : NotifyArg
notice = record { node = peer 30; callback_woof = codes "peer/callback" }

h_notify-Moves_example :
    Moves info
      (peer 20)
      (peer 30)
      (peer 20 ∷ [])
      (h_notify notice (node_with thirty)).1.predecessors
h_notify-Moves_example =
    h_notify-Moves notice info (peer 20) (node_with thirty) refl refl
      (IsHash-hash_of 10 (omega arith)) (IsHash-hash_of 20 (omega arith))
      (IsHash-hash_of 30 (omega arith))

successors_of-Follows_example :
    Follows Member (record info { hash = hash_of 30 }) (successors_of info two_after)
successors_of-Follows_example =
    successors_of-Follows Member (record info { hash = hash_of 30 }) info two_after
      (first_of 31 (hash_of 10) (inl refl) (omega arith)) Follows-list_of
