-- ===== src/Dht/Find/Forward.antt =====
-- The messages of the forwarding loops and of resolve_thread.
use cspot.Base.{
  ℕ, zero, suc, ◌+◌, ◌≤◌, ◌<◌, ◌≡◌, refl, inl, inr, List, Bool, true, false, not, ◌&&◌, ◌||◌, arith,
  Bool-cases, Option-cases, if◌then◌else◌, is_empty,
}
use cspot.Dht.Ring.{Hash, zero_hash, in_range, is_empty_hash}
use cspot.Dht.Ring.Next.{IsHash, in_range-ahead}
use cspot.Dht.State.{
  Node, NodeInfo, Peer, SuccessorInfo, FindArg, Message, find_successor, try_replicas,
}
use cspot.Dht.Exec.{
  Exec, ◌>>=◌, ◌>>◌, pure, try_call, called, newest, send, put_request, try_call_rule, bind_rule,
  more,
}
use cspot.Dht.Find.{
  peer_addr, successor_addr, answer_from, forward_fingers, forward_successors, or_else,
  resolve_thread, invalidate_fingers,
}
use cspot.Dht.Find.Messages.{
  to_finger, to_successor, tries, Resolves, Held, Grows, InRing, Inv, answer_from-Inv,
}
use cspot.Dht.Find.Fingers.{sent-invalidate_from, AllFingers, invalidate_from-AllFingers}

zero_hash-IsHash : IsHash zero_hash
zero_hash-IsHash = ground arith

module _ (Member : Hash → Type 0) (arg : FindArg) (node : NodeInfo) (successor : SuccessorInfo)
    (start : Node) (g : InRing Member arg node successor start) (old : List Message) where
  invalidated :
      (hash : Hash) (n : Node)
      → Inv Member arg node successor start g old n
      → Inv Member arg node successor start g old (invalidate_fingers hash n).1
  unfolding invalidate_fingers
  invalidated hash n (grown, table) = (
    rw (sent-invalidate_from 160 1 hash n) grown,
    invalidate_from-AllFingers (Held Member arg node successor start g old) 160 1 hash n
        (λ _. (zero_hash-IsHash, inr refl)) table,
  )

  abbrev passes : Peer → Bool
  passes finger =
      is_empty_hash finger.hash
      || not (in_range finger.hash node.hash arg.hashed_key)
      || is_empty (peer_addr finger)

  -- A finger that was invalidated is passed over.
  finger_Resolves :
      (i : ℕ) (finger : Peer)
      → 0 < i
      → i ≤ 160
      → passes finger ≡ false
      → Held Member arg node successor start g old i finger
      → Resolves Member arg node successor start (find_successor (peer_addr finger) arg)
  unfolding is_empty_hash
  finger_Resolves i finger pos top p (hash, inl found) =
      to_finger i finger pos top found (ground (arith, p))
        (in_range-ahead finger.hash node.hash arg.hashed_key hash g.here g.keyed
          (ground (arith, p)))
        refl
  finger_Resolves i finger pos top p (hash, inr gone) =
      let full : is_empty_hash finger.hash ≡ false = ground (arith, p) in
      let empty : is_empty_hash finger.hash ≡ true = rw gone refl in
      absurd (ground (arith, full, empty))

  forward_fingers-Inv :
      (i : ℕ) (n : Node)
      → i ≤ 160
      → Inv Member arg node successor start g old n
      → Inv Member arg node successor start g old (forward_fingers i arg node n).1
  unfolding forward_fingers
  forward_fingers-Inv zero i n inv = inv
  forward_fingers-Inv (suc i) n top inv =
      let rest : Exec Bool = forward_fingers i arg node in
      let go : (m : Node)
          → Inv Member arg node successor start g old m
          → Inv Member arg node successor start g old (rest m).1 =
        λ m. forward_fingers-Inv i m (omega arith) in
      elim (Bool-cases (n.env.fails n.calls)) [
        | inl k ↦ rw k inv
        | inr k ↦ elim (Option-cases (newest (n.fingers (suc i)))) [
          | inl absent ↦ rw (k, absent) inv
          | inr (finger, found) ↦ elim (Bool-cases (passes finger)) [
            | inl p ↦ rw (k, found, p) (go (called n) inv)
            | inr p ↦
                rw (k, found, p)
                  (try_call_rule (called n) (λ r. Inv Member arg node successor start g old r.1)
                    (send (find_successor (peer_addr finger) arg))
                    (λ sent. if sent then pure true else (invalidate_fingers finger.hash >> rest))
                    (bind_rule (invalidate_fingers finger.hash) (λ _. rest) (called (called n))
                      (λ r. Inv Member arg node successor start g old r.1)
                      (λ _ e. go _ (invalidated finger.hash _ inv)) (invalidated finger.hash _ inv)
                      (invalidated finger.hash _ inv))
                    (
                      more
                          (finger_Resolves (suc i) finger (omega arith) top p
                            (inv.1 (suc i) (omega arith) top finger found))
                          inv.0,
                      inv.1,
                    ))
          ]
        ]
      ]

  forward_successors-Inv :
      (left i : ℕ) (n : Node)
      → Inv Member arg node successor start g old n
      → Inv Member arg node successor start g old (forward_successors left i arg node successor n).1
  unfolding forward_successors
  forward_successors-Inv zero i n inv = inv
  forward_successors-Inv (suc left) i n inv =
      let rest : Exec Bool = forward_successors left (i + 1) arg node successor in
      let go : (m : Node)
          → Inv Member arg node successor start g old m
          → Inv Member arg node successor start g old (rest m).1 =
        forward_successors-Inv left (i + 1) in
      elim (Bool-cases (
        not (is_empty_hash (successor.hash i))
        && in_range (successor.hash i) node.hash arg.hashed_key)) [
          | inr p ↦ rw p (go n inv)
          | inl p ↦ rw p (
              try_call_rule n (λ r. Inv Member arg node successor start g old r.1)
                (send (find_successor (successor_addr successor i) arg))
                (λ sent.
                  if sent
                  then pure true
                  else (try_call (send try_replicas) >>= λ tried.
                      if tried then rest else pure true))
                (try_call_rule (called n) (λ r. Inv Member arg node successor start g old r.1)
                  (send try_replicas) (λ tried. if tried then rest else pure true) inv
                  (go _ (more (tries refl) inv.0, inv.1)))
                (
                  more
                      (to_successor i (ground (arith, p))
                        (in_range-ahead (successor.hash i) node.hash arg.hashed_key (g.lists i)
                          g.here g.keyed (ground (arith, p)))
                        refl)
                      inv.0,
                  inv.1,
                ))
        ]

  or_else-Inv :
      (tried : Exec Bool) (next : Exec (Unit {0})) (n : Node)
      → Inv Member arg node successor start g old (tried n).1
      → ((m : Node)
          → Inv Member arg node successor start g old m
          → Inv Member arg node successor start g old (next m).1)
      → Inv Member arg node successor start g old (or_else tried next n).1
  or_else-Inv tried next n first then_next =
      bind_rule tried (λ returned. if returned then pure tt else next) n
        (λ r. Inv Member arg node successor start g old r.1)
        (λ returned e. elim (Bool-cases returned) [
          | inl r ↦ rw r first
          | inr r ↦ rw r (then_next _ first)
        ])
        first first

  -- Where the successor list of a node is the part of a ring of 20-byte hashes that follows on it,
  -- every message that resolve_thread sends, whichever calls fail, either answers the request with the
  -- first node of the ring from the key on, or passes it on, unchanged, to a node that is nearer to
  -- the key than this one, which is a finger that it had at the start or an entry of its successor
  -- list, or asks for another replica of the successor.
  pub resolve_thread-Grows :
      Grows Member arg node successor start old start.sent
      → AllFingers (λ _ p. IsHash p.hash) start
      → Grows Member arg node successor start old (resolve_thread arg node successor start).1.sent
  unfolding resolve_thread
  resolve_thread-Grows grown table =
      let after : Inv Member arg node successor start g old
          (resolve_thread arg node successor start).1 =
        or_else-Inv (answer_from 3 0 arg node successor) _ start
          (answer_from-Inv Member arg node successor start g old 3 0 start
            (grown, λ k pos top p found. (table k pos top p found, inl found)))
          λ m1 i1.
            or_else-Inv (forward_fingers 160 arg node) _ m1
              (forward_fingers-Inv 160 m1 (omega arith) i1)
              λ m2 i2.
                or_else-Inv (forward_successors 3 0 arg node successor) _ m2
                  (forward_successors-Inv 3 0 m2 i2)
                  λ m3 i3.
                    try_call_rule m3 (λ r. Inv Member arg node successor start g old r.1)
                      (put_request arg) (λ _. pure tt) i3 i3 in
      after.0
