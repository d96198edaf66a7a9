-- ===== src/Dht/Tests/Start.antt =====
-- The start of the node 10 of the ring.
use cspot.Base.{◌≡◌, refl, [], true, arith, codes, same}
use cspot.Dht.Exec.{done}
use cspot.Dht.State.{Node, NodeInfo}
use cspot.Dht.Finger.{d_fix_finger}
use cspot.Dht.Finger.Right.{AllRight}
use cspot.Dht.Init.{dht_init, init_woofs, init_fingers, first_info, find_replica}
use cspot.Dht.Init.Fingers.{Ready, dht_init-Ready}
use cspot.Dht.Run.{fix, stay, step, dht_init-FingerRun}
use cspot.Dht.Tests.Ring.{hash_of, IsHash-hash_of, Member, Member-IsHash, list_of, node_with}

-- without any WooF written
abbrev blank : Node
blank = record (node_with (list_of [])) {
  node_infos = [];
  predecessors = [];
  successors = [];
  fingers = λ _. [];
}

starts : (dht_init (hash_of 10) (codes "node") (λ _. codes "node") blank).0 ≡ done true
unfolding dht_init init_woofs init_fingers same
starts = refl

abbrev started : Node
started = (dht_init (hash_of 10) (codes "node") (λ _. codes "node") blank).1

abbrev own : NodeInfo
own =
    first_info (hash_of 10) (codes "node") (λ _. codes "node")
      (find_replica 5 0 (codes "node") (λ _. codes "node"))

ready : Ready Member own started
ready = dht_init-Ready Member (hash_of 10) (codes "node") (λ _. codes "node") blank starts

dht_init-FingerRun_example : AllRight Member own (d_fix_finger (λ addr i. addr) started).1
dht_init-FingerRun_example =
    dht_init-FingerRun Member (λ addr i. addr) (hash_of 10) (codes "node") (λ _. codes "node") blank
      (d_fix_finger (λ addr i. addr) started).1 Member-IsHash (IsHash-hash_of 10 (omega arith))
      starts (step (fix own ready.0 refl) stay)
