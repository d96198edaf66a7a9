-- ===== src/Dht/Tests/Ring.antt =====
-- The ring with the hashes 10, 20 and 30, and the node with the hash 10.
use cspot.Base.{
  ℕ, zero, suc, ◌+◌, ◌%◌, ◌^◌, ◌≤◌, ◌<◌, ◌≡◌, ◌≢◌, ◌⊎◌, refl, inl, inr, List, [], ◌∷◌, ◌++◌, false,
  ◌&&◌, ◌||◌, ◌==◌, ltb, arith, codes, length, replicate,
}
use cspot.Dht.Ring.{Hash, zero_hash, in_range, get_finger_id}
use cspot.Dht.Ring.Value.{Bytes, value, ring, distance, in_range-distance}
use cspot.Dht.Ring.Finger.{get_finger_id-value}
use cspot.Dht.Ring.Next.{IsHash, IsNext, is_empty_hash-zero}
use cspot.Dht.State.{Node, NodeInfo, Peer, SuccessorInfo}
use cspot.Dht.Find.Messages.{Follows}

abbrev pub hash_of : ℕ → Hash
hash_of k = replicate 19 0 ++ (k ∷ [])

pub IsHash-hash_of : (k : ℕ) → k < 256 → IsHash (hash_of k)
IsHash-hash_of k h = ground arith

abbrev pub Member : Hash → Type 0
Member q = (q ≡ hash_of 10) ⊎ ((q ≡ hash_of 20) ⊎ (q ≡ hash_of 30))

pub Member-IsHash : (q : Hash) → Member q → IsHash q
Member-IsHash q (inl e) = rw e (IsHash-hash_of 10 (omega arith))
Member-IsHash q (inr (inl e)) = rw e (IsHash-hash_of 20 (omega arith))
Member-IsHash q (inr (inr e)) = rw e (IsHash-hash_of 30 (omega arith))

pub first_of :
    (k : ℕ) (h : Hash)
    → Member h
    → (distance k (value h) ≤ distance k 10)
      × (distance k (value h) ≤ distance k 20)
      × (distance k (value h) ≤ distance k 30)
    → IsNext Member k h
first_of k h m (a, b, c) = record {
  is_member = m;
  first = λ q o. elim o [ inl e ↦ rw e a | inr (inl e) ↦ rw e b | inr (inr e) ↦ rw e c ];
}

abbrev pub peer : ℕ → Peer
peer k = record { hash = hash_of k; replicas = λ _. codes "peer"; leader = 0 }

abbrev pub info : NodeInfo
info = record {
  hash = hash_of 10;
  addr = codes "node";
  replicas = λ _. codes "node";
  replica_id = 0;
  leader_id = 0;
}

abbrev pub hashes_from : List ℕ → ℕ → Hash
hashes_from [] i = zero_hash
hashes_from (k ∷ ks) zero = hash_of k
hashes_from (k ∷ ks) (suc i) = hashes_from ks i

-- the successor list with the given hashes
abbrev pub list_of : List ℕ → SuccessorInfo
list_of ks = record { hash = hashes_from ks; replicas = λ _ _. codes "peer"; leader = λ _. 0 }

pub Follows-list_of : Follows Member info (list_of (20 ∷ 30 ∷ []))
Follows-list_of zero e = first_of 11 (hash_of 20) (inr (inl refl)) (omega arith)
Follows-list_of (suc zero) e = first_of 21 (hash_of 30) (inr (inr refl)) (omega arith)
Follows-list_of (suc (suc i)) e = absurd (ground (arith, e, is_empty_hash-zero))

-- The node, which has the given list and the node 20 in all its fingers; no call fails.
abbrev pub node_with : SuccessorInfo → Node
node_with successor = record {
  env = record { fails = λ _. false; clock = λ k. k };
  calls = 0;
  node_infos = info ∷ [];
  predecessors = peer 20 ∷ [];
  successors = successor ∷ [];
  fingers = λ _. peer 20 ∷ [];
  finger_results = [];
  find_requests = [];
  find_routines = [];
  topic_caches = [];
  registry_caches = [];
  sent = [];
}

in_range-distance_example : in_range (hash_of 15) (hash_of 10) (hash_of 20) ≡ (
    ltb 0 (distance (value (hash_of 10)) (value (hash_of 15)))
    && ((value (hash_of 10) == value (hash_of 20))
        || ltb
            (distance (value (hash_of 10)) (value (hash_of 15)))
            (distance (value (hash_of 10)) (value (hash_of 20)))))
in_range-distance_example =
    in_range-distance (hash_of 15) (hash_of 10) (hash_of 20) (IsHash-hash_of 15 (omega arith)).0
      (IsHash-hash_of 10 (omega arith)).0 (IsHash-hash_of 20 (omega arith)).0 refl refl refl

get_finger_id-value_example :
    (value (get_finger_id (hash_of 10) 9) ≡ (value (hash_of 10) + 2 ^ 8) % ring)
    × (value (get_finger_id (hash_of 10) 9) ≢ value (hash_of 10))
    × (length (get_finger_id (hash_of 10) 9) ≡ 20)
    × Bytes (get_finger_id (hash_of 10) 9)
get_finger_id-value_example =
    get_finger_id-value (hash_of 10) 9 (IsHash-hash_of 10 (omega arith)).0 refl (omega arith)
      (omega arith)
