-- ===== src/Dht/Find/Fingers.antt =====
-- What holds of every finger of a node, through a change of one of them and invalidate_fingers.
use cspot.Base.{
  ℕ, zero, suc, ◌+◌, ◌≤◌, ◌<◌, ◌≡◌, inl, inr, refl, some, arith, Bool-cases, Option-cases, ◌==◌,
}
use cspot.Dht.Ring.{Hash, memcmp, is_eq}
use cspot.Dht.State.{Node, Peer}
use cspot.Dht.Exec.{called, newest, put_finger, try_call_rule}
use cspot.Dht.Find.{invalidate_from, no_peer}

pub some_injective {ℓ} : {A : Type ℓ} {a b : A} → some a ≡ some b → a ≡ b
some_injective e = ground (arith, e)

pub sent-invalidate_from :
    (left i : ℕ) (hash : Hash) (n : Node) → (invalidate_from left i hash n).1.sent ≡ n.sent
unfolding invalidate_from
sent-invalidate_from zero i hash n = refl
sent-invalidate_from (suc left) i hash n =
    let rest : (m : Node) → (invalidate_from left (i + 1) hash m).1.sent ≡ m.sent =
      sent-invalidate_from left (i + 1) hash in
    elim (Bool-cases (n.env.fails n.calls)) [
      | inl k ↦ rw k (rest (called n))
      | inr k ↦ elim (Option-cases (newest (n.fingers i))) [
        | inl absent ↦ rw (k, absent) (rest (called n))
        | inr (finger, found) ↦ elim (Bool-cases (is_eq (memcmp finger.hash hash))) [
          | inr other ↦ rw (k, found, other) (rest (called n))
          | inl equal ↦
              rw (k, found, equal)
                (try_call_rule (called n) (λ r. r.1.sent ≡ n.sent) (put_finger i no_peer)
                  (λ _. invalidate_from left (i + 1) hash) (rest _) (rest _))
        ]
      ]
    ]

module _ (R : ℕ → Peer → Type 0) where
  -- the newest value of each finger
  abbrev pub AllFingers : Node → Type 0
  AllFingers n = (k : ℕ) → 0 < k → k ≤ 160 → (p : Peer) → newest (n.fingers k) ≡ some p → R k p

  pub put_finger-AllFingers :
      (i : ℕ) (p : Peer) (n : Node) → AllFingers n → R i p → AllFingers (put_finger i p n)
  put_finger-AllFingers i p n all right k pos top q found = elim (Bool-cases (i == k)) [
    | inl e ↦
        let same : i ≡ k = ground (arith, e) in
        let hit : some p ≡ some q = rw e at found in rw (← same, ← some_injective hit) right
    | inr e ↦ all k pos top q (rw e at found)
  ]

  pub invalidate_from-AllFingers :
      (left i : ℕ) (hash : Hash) (n : Node)
      → ((k : ℕ) → R k no_peer)
      → AllFingers n
      → AllFingers (invalidate_from left i hash n).1
  unfolding invalidate_from
  invalidate_from-AllFingers zero i hash n gone all = all
  invalidate_from-AllFingers (suc left) i hash n gone all =
      let rest : (m : Node) → AllFingers m → AllFingers (invalidate_from left (i + 1) hash m).1 =
        λ m. invalidate_from-AllFingers left (i + 1) hash m gone in
      elim (Bool-cases (n.env.fails n.calls)) [
        | inl k ↦ rw k (rest (called n) all)
        | inr k ↦ elim (Option-cases (newest (n.fingers i))) [
          | inl absent ↦ rw (k, absent) (rest (called n) all)
          | inr (finger, found) ↦ elim (Bool-cases (is_eq (memcmp finger.hash hash))) [
            | inr other ↦ rw (k, found, other) (rest (called n) all)
            | inl same ↦
                rw (k, found, same)
                  (try_call_rule (called n) (λ r. AllFingers r.1) (put_finger i no_peer)
                    (λ _. invalidate_from left (i + 1) hash) (rest _ all)
                    (rest _ (put_finger-AllFingers i no_peer (called (called n)) all (gone i))))
          ]
        ]
      ]
