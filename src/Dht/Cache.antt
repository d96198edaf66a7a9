-- ===== src/Dht/Cache.antt =====
-- The caches of apps/dht/dht.c and h_invalidate_cache.c: WooFs that are searched backwards.
pub mod Search
pub mod Update
use cspot.Base.{
  ℕ, zero, suc, List, [], ◌∷◌, Option, none, some, Bool, true, false, if◌then◌else◌, leb, Text,
  same, length, sub64,
}
use cspot.Woof.Read.{element}
use cspot.Dht.State.{Node, Replicas, TopicCache, TopicRegistry, RegistryCache, cache_size}
use cspot.Dht.Exec.{Exec, ◌>>=◌, ◌>>◌, pure, try_call, try_get, exit}

-- what a search returns: -1, 0 or 1, with the entry found
pub data Lookup (A : Type 0) : Type 0 where
  failed miss : Lookup A
  hit : A → Lookup A

-- What the two searches differ in: the cache's WooF, an entry's topic, and whether it is valid.
pub record CacheOf (A : Type 0) : Type 0 where
  pub entries : Node → List A
  pub topic : A → Text
  pub valid : A → Bool

module _ {A : Type 0} (cache : CacheOf A) (topic_name : Text) where
  -- the loop, at entry `i`; `latest_seqno - DHT_CACHE_SIZE` wraps
  pub search_from : ℕ → ℕ → Exec (Lookup A)
  search_from zero latest_seqno = pure miss
  search_from (suc i) latest_seqno =
      let rest = search_from i latest_seqno in
      if leb (suc i) (sub64 latest_seqno cache_size)
      then pure miss
      else (try_get (λ n. element cache_size (cache.entries n) (suc i)) >>= λ found. elim found [
        | none ↦ pure failed
        | some entry ↦
            if same (cache.topic entry) topic_name
            then (if cache.valid entry then pure (hit entry) else pure miss)
            else rest
      ])

  -- the common body of dht_cache_node_get and dht_cache_registry_get
  unfoldable pub cache_get : Exec (Lookup A)
  unfolding search_from
  cache_get = try_get (λ n. some (length (cache.entries n))) >>= λ latest. elim latest [
    | none ↦ pure failed
    | some latest_seqno ↦ search_from latest_seqno latest_seqno
  ]

abbrev pub is_set : Option ℕ → Bool
is_set none = false
is_set (some leader) = true

abbrev pub negated : Bool → Bool
negated true = false
negated false = true

abbrev pub topic_cache : CacheOf TopicCache
topic_cache = record {
  entries = λ n. n.topic_caches;
  topic = λ c. c.topic_name;
  valid = λ c. is_set c.node_leader;
}

abbrev pub registry_cache : CacheOf RegistryCache
registry_cache = record {
  entries = λ n. n.registry_caches;
  topic = λ c. c.topic_name;
  valid = λ c. negated c.invalidated;
}

unfoldable pub dht_cache_node_get : Text → Exec (Lookup TopicCache)
dht_cache_node_get topic_name = cache_get topic_cache topic_name

unfoldable pub dht_cache_registry_get : Text → Exec (Lookup RegistryCache)
dht_cache_registry_get topic_name = cache_get registry_cache topic_name

abbrev pub put_topic_cache : TopicCache → Node → Node
put_topic_cache c n = record n { topic_caches = c ∷ n.topic_caches }

abbrev pub put_registry_cache : RegistryCache → Node → Node
put_registry_cache c n = record n { registry_caches = c ∷ n.registry_caches }

-- `false` is -1
unfoldable pub dht_cache_node_put : Text → Option ℕ → Replicas → Exec Bool
dht_cache_node_put topic_name node_leader node_replicas = try_call (
    put_topic_cache (record {
      topic_name = topic_name;
      node_replicas = node_replicas;
      node_leader = node_leader;
    }))

unfoldable pub dht_cache_node_invalidate : Text → Exec Bool
dht_cache_node_invalidate topic_name = try_call (
    put_topic_cache
      (record { topic_name = topic_name; node_replicas = λ _. []; node_leader = none }))

unfoldable pub dht_cache_registry_put : Text → TopicRegistry → Text → Exec Bool
dht_cache_registry_put topic_name registry registry_woof = try_call (
    put_registry_cache (record {
      topic_name = topic_name;
      registry = registry;
      registry_woof = registry_woof;
      invalidated = false;
    }))

abbrev pub no_registry : TopicRegistry
no_registry = record { topic_name = []; topic_replicas = λ _. []; last_leader = 0 }

unfoldable pub dht_cache_registry_invalidate : Text → Exec Bool
dht_cache_registry_invalidate topic_name = try_call (
    put_registry_cache (record {
      topic_name = topic_name;
      registry = no_registry;
      registry_woof = [];
      invalidated = true;
    }))

-- h_invalidate_cache
unfoldable pub h_invalidate_cache : Text → Exec (Unit {0})
h_invalidate_cache topic_name =
    dht_cache_node_invalidate topic_name >>= λ put. if put then pure tt else (λ n. (exit, n))
