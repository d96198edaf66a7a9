-- ===== src/Dht/Cache/Update.antt =====
-- What is found after an entry has been put into the topic cache or taken out of it.
use cspot.Base.{
  ℕ, ◌+◌, ◌^◌, ◌≤◌, ◌<◌, ◌≡◌, ◌∙◌, refl, some, false, arith, Text, if◌then◌else◌, same_refl, length,
}
use cspot.Dht.State.{Node, Replicas, TopicCache}
use cspot.Dht.Exec.{done, called}
use cspot.Dht.Cache.{
  miss, hit, is_set, put_topic_cache, topic_cache, dht_cache_node_get, dht_cache_node_put,
  dht_cache_node_invalidate, h_invalidate_cache,
}
use cspot.Dht.Cache.Search.{recent, cache_get-recent}

module _ (topic_name : Text) (n : Node) (ok : (k : ℕ) → n.env.fails k ≡ false)
    (full : 31 ≤ length n.topic_caches) (fits : length n.topic_caches + 1 < 2 ^ 64) where
  get-put :
      (c : TopicCache)
      → c.topic_name ≡ topic_name
      → (dht_cache_node_get topic_name (put_topic_cache c (called n))).0
        ≡ done (if is_set c.node_leader then hit c else miss)
  unfolding dht_cache_node_get recent
  get-put c e =
      cache_get-recent topic_cache topic_name (λ m. refl) (put_topic_cache c (called n)) ok
        (omega (arith, full)) (omega (arith, fits))
      ∙ rw (e, same_refl topic_name) refl

  -- In a cache that has 31 entries or more and can be read and written, a topic that was put is found
  -- with its leader and its replicas.
  pub dht_cache_node_get-put :
      (node_leader : ℕ) (node_replicas : Replicas)
      → (dht_cache_node_get topic_name
          (dht_cache_node_put topic_name (some node_leader) node_replicas n).1).0
        ≡ done (
            hit (record {
              topic_name = topic_name;
              node_replicas = node_replicas;
              node_leader = some node_leader;
            }))
  unfolding dht_cache_node_put
  dht_cache_node_get-put node_leader node_replicas = rw (ok n.calls) (get-put _ refl)

  -- In such a cache a topic is not found after h_invalidate_cache.
  pub dht_cache_node_get-invalidate :
      (dht_cache_node_get topic_name (h_invalidate_cache topic_name n).1).0 ≡ done miss
  unfolding h_invalidate_cache dht_cache_node_invalidate
  dht_cache_node_get-invalidate = rw (ok n.calls) (get-put _ refl)
