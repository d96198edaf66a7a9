-- ===== src/Dht/Tests/Caches.antt =====
-- The topic cache of the node 10 of the ring.
use cspot.Base.{ℕ, ◌≡◌, refl, [], some, arith, codes, replicate, take}
use cspot.Dht.State.{Node, TopicCache}
use cspot.Dht.Exec.{done}
use cspot.Dht.Cache.{miss, hit, topic_cache, cache_get, dht_cache_node_get, dht_cache_node_put}
use cspot.Dht.Cache.Search.{recent, cache_get-cold, cache_get-recent}
use cspot.Dht.Cache.Update.{dht_cache_node_get-put}
use cspot.Dht.Tests.Ring.{list_of, node_with}

abbrev other : TopicCache
other = record { topic_name = codes "other"; node_replicas = λ _. []; node_leader = some 1 }

-- the node with that entry in its cache a number of times
abbrev filled : ℕ → Node
filled k = record (node_with (list_of [])) { topic_caches = replicate k other }

cache_get-cold_example : (cache_get topic_cache (codes "other") (filled 3)).0 ≡ done miss
cache_get-cold_example = cache_get-cold topic_cache (codes "other") (filled 3) refl (omega arith)

cache_get-recent_example :
    (cache_get topic_cache (codes "other") (filled 32)).0
    ≡ done (recent topic_cache (codes "other") (take 32 (filled 32).topic_caches))
cache_get-recent_example =
    cache_get-recent topic_cache (codes "other") (λ m. refl) (filled 32) (λ k. refl) (omega arith)
      (omega arith)

dht_cache_node_get-put_example :
    (dht_cache_node_get
      (codes "t")
      (dht_cache_node_put (codes "t") (some 2) (λ _. []) (filled 31)).1).0
    ≡ done (hit (record { topic_name = codes "t"; node_replicas = λ _. []; node_leader = some 2 }))
dht_cache_node_get-put_example =
    dht_cache_node_get-put (codes "t") (filled 31) (λ k. refl) (omega arith) (omega arith) 2
      (λ _. [])
