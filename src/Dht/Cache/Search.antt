-- ===== src/Dht/Cache/Search.antt =====
-- The searches of the caches, and the newest entry of a topic.
use cspot.Base.{
  ℕ, zero, suc, ◌+◌, ◌-◌, ◌^◌, ◌≤◌, ◌<◌, ◌≡◌, ◌∙◌, refl, ap, List, [], ◌∷◌, some, inl, inr, false,
  arith, Bool-cases, if◌then◌else◌, leb, ltb-false, Text, same, length, get_elem?, take, drop,
  sub64,
}
use cspot.Woof.Read.{element}
use cspot.Dht.State.{Node}
use cspot.Dht.Exec.{done, called}
use cspot.Dht.Cache.{Lookup, miss, hit, CacheOf, search_from, cache_get}

drop-get_elem? :
    {A : Type 0} (j : ℕ) (xs : List A) (x : A)
    → get_elem? xs j ≡ some x
    → drop j xs ≡ x ∷ drop (suc j) xs
drop-get_elem? j [] x e = absurd (ground arith)
drop-get_elem? zero (y ∷ xs) x e = ground arith
drop-get_elem? (suc j) (y ∷ xs) x e = drop-get_elem? j xs x e

get_elem?-lt :
    {A : Type 0} (j : ℕ) (xs : List A) → j < length xs → (x : A) × (get_elem? xs j ≡ some x)
get_elem?-lt j [] h = absurd (omega arith)
get_elem?-lt zero (y ∷ xs) h = (y, refl)
get_elem?-lt (suc j) (y ∷ xs) h = get_elem?-lt j xs (omega arith)

element-at :
    {A : Type 0} (xs : List A) (l : ℕ) (x : A)
    → length xs - 32 < l
    → l ≤ length xs
    → get_elem? xs (length xs - l) ≡ some x
    → element 32 xs l ≡ some x
unfolding element
element-at xs l x newer h found =
    rw (ltb-false l (length xs - 32 + 1) (omega arith), ltb-false (length xs) l (omega arith)) found

module _ {A : Type 0} (cache : CacheOf A) (topic_name : Text) where
  -- the newest entry of the topic, if it is valid
  unfoldable pub recent : List A → Lookup A
  recent [] = miss
  recent (c ∷ cs) =
      if same (cache.topic c) topic_name then (if cache.valid c then hit c else miss) else recent cs

  -- A cache with fewer than DHT_CACHE_SIZE entries whose length can be read answers a miss, whatever is
  -- in it.
  pub cache_get-cold :
      (n : Node)
      → n.env.fails n.calls ≡ false
      → length (cache.entries n) < 32
      → (cache_get cache topic_name n).0 ≡ done miss
  unfolding cache_get
  cache_get-cold n ok h = rw ok (cold (length (cache.entries n)) (called n) h)
    where
      cold : (l : ℕ) (m : Node) → l < 32 → (search_from cache topic_name l l m).0 ≡ done miss
      cold zero m h = refl
      cold (suc l) m h = ground arith

  module _ (stable : (m : Node) → cache.entries (called m) ≡ cache.entries m) where
    search_from-recent :
        (i : ℕ) (xs : List A) (n : Node)
        → cache.entries n ≡ xs
        → ((k : ℕ) → n.env.fails k ≡ false)
        → 32 ≤ length xs
        → length xs < 2 ^ 64
        → i ≤ length xs
        → (search_from cache topic_name i (length xs) n).0
          ≡ done (recent (take (i - (length xs - 32)) (drop (length xs - i) xs)))
    unfolding search_from recent element
    search_from-recent zero xs n e ok full fits h =
        let none_left : 0 - (length xs - 32) ≡ 0 = omega arith in rw none_left refl
    search_from-recent (suc i) xs n e ok full fits h =
        elim (Bool-cases (leb (suc i) (sub64 (length xs) 32))) [
          | inl past ↦
              let none_left : suc i - (length xs - 32) ≡ 0 = ground (arith, past) in
              rw (past, none_left) refl
          | inr within ↦
              let (x, found) = get_elem?-lt (length xs - suc i) xs (omega arith) in
              let more : suc i - (length xs - 32) ≡ suc (i - (length xs - 32)) =
                ground (arith, within) in
              let next : suc (length xs - suc i) ≡ length xs - i = omega arith in
              let here : drop (length xs - suc i) xs ≡ x ∷ drop (length xs - i) xs =
                drop-get_elem? (length xs - suc i) xs x found ∙ ap (λ j. x ∷ drop j xs) next in
              let rest : (search_from cache topic_name i (length xs) (called n)).0
                  ≡ done (recent (take (i - (length xs - 32)) (drop (length xs - i) xs))) =
                search_from-recent i xs (called n) (stable n ∙ e) ok full fits (omega arith) in
              let read : element 32 (cache.entries n) (suc i) ≡ some x =
                rw e (element-at xs (suc i) x (ground (arith, within)) h found) in
              rw (within, more, here, ok n.calls, read)
                (elim (Bool-cases (same (cache.topic x) topic_name)) [
                  | inl same_topic ↦ elim (Bool-cases (cache.valid x)) [
                    | inl good ↦ rw (same_topic, good) refl
                    | inr bad ↦ rw (same_topic, bad) refl
                  ]
                  | inr other ↦ rw other rest
                ])
        ]

    -- A cache of DHT_CACHE_SIZE entries or more that can be read answers with the newest entry of the
    -- topic among the last DHT_CACHE_SIZE, and with a miss where that is invalid or there is none.
    pub cache_get-recent :
        (n : Node)
        → ((k : ℕ) → n.env.fails k ≡ false)
        → 32 ≤ length (cache.entries n)
        → length (cache.entries n) < 2 ^ 64
        → (cache_get cache topic_name n).0 ≡ done (recent (take 32 (cache.entries n)))
    unfolding cache_get
    cache_get-recent n ok full fits = rw (ok n.calls) (
        search_from-recent (length (cache.entries n)) (cache.entries n) (called n) (stable n) ok
          full fits (omega arith)
        ∙ ap
            (λ k. done (
              recent (
                take k
                  (drop (length (cache.entries n) - length (cache.entries n)) (cache.entries n)))))
            {x = length (cache.entries n) - (length (cache.entries n) - 32)} {y = 32} (omega arith)
        ∙ ap (λ k. done (recent (take 32 (drop k (cache.entries n)))))
            {x = length (cache.entries n) - length (cache.entries n)} {y = 0} (omega arith))
