-- ===== src/Dht/Stabilize/Messages.antt =====
-- The messages of h_stabilize_callback.
use cspot.Base.{
  ℕ, suc, ◌+◌, ◌<◌, ◌≡◌, ◌⊎◌, refl, inl, inr, List, ◌++◌, some, arith, Bool-cases, codes, update_ne,
}
use cspot.Dht.Ring.{memcmp, is_eq}
use cspot.Dht.Ring.Value.{value}
use cspot.Dht.Ring.Next.{IsHash, ahead, in_range-nearer}
use cspot.Dht.State.{
  Node, NodeInfo, SuccessorInfo, StabilizeResult, Message, set_successor, notify, try_replicas,
}
use cspot.Dht.Exec.{
  Result, ◌>>=◌, called, newest, send, must_rule, must_known_rule, try_call_rule, Adds, same, more,
}
use cspot.Dht.Find.{successor_addr}
use cspot.Dht.Successor.{node_info, successor_info}
use cspot.Dht.Stabilize.{
  is_closer, stabilized, is_changed, notify_successor, notifier, adopt_answer, h_stabilize_callback,
  or_try_replicas,
}

module _ (node : NodeInfo) (result : StabilizeResult) (successor : SuccessorInfo) where
  abbrev pub notice : Message
  notice = notify (successor_addr (stabilized node result successor) 0) (record {
    node = notifier node;
    callback_woof = node.addr ++ codes "/dht_notify_callback.woof";
  })

  -- how the list that is set relates to the one before
  pub data Stabilizes (m : Message) : Type 0 where
    sets :
        (s : SuccessorInfo)
        → (s.hash 0 ≡ successor.hash 0)
          ⊎ ((s.hash 0 ≡ result.predecessor.hash)
              × (ahead (value node.hash) (value (s.hash 0))
                  < ahead (value node.hash) (value (successor.hash 0))))
        → ((i : ℕ) → s.hash (suc i) ≡ successor.hash (suc i))
        → m ≡ set_successor (node.replicas node.leader_id) s
        → Stabilizes m
    notifies : m ≡ notice → Stabilizes m
    tries : m ≡ try_replicas → Stabilizes m

  module _ (here : IsHash node.hash) (known : IsHash (successor.hash 0))
      (told : IsHash result.predecessor.hash) where
    stabilized-Stabilizes :
        Stabilizes (set_successor (node.replicas node.leader_id) (stabilized node result successor))
    unfolding stabilized
    stabilized-Stabilizes = elim (Bool-cases (is_closer node result successor)) [
      | inr apart ↦ sets _ (inl (rw apart refl)) (λ i. rw apart refl) refl
      | inl c ↦ elim (Bool-cases (is_eq (memcmp (successor.hash 0) result.predecessor.hash))) [
        | inl equal ↦ sets _ (inl (rw (c, equal) refl)) (λ i. rw (c, equal) refl) refl
        | inr other ↦
            sets _
              (inr (
                rw (c, other) refl,
                rw (c, other)
                    (in_range-nearer result.predecessor.hash node.hash (successor.hash 0) told here
                      known (ground (arith, c))),
              ))
              (λ i.
                rw (c, other)
                  (update_ne successor.hash 0 (suc i) _ (λ e. absurd (omega (arith, e)))))
              refl
      ]
    ]

    notify_successor-Adds :
        (old : List Message) (n : Node)
        → Adds Stabilizes old n.sent
        → Adds Stabilizes old (notify_successor node (stabilized node result successor) n).1.sent
    notify_successor-Adds old n grown =
        try_call_rule n (λ r. Adds Stabilizes old r.1.sent) (send notice) or_try_replicas
          (elim (Bool-cases (n.env.fails (n.calls + 1))) [
            | inl k ↦ rw k grown
            | inr k ↦ rw k (more (tries refl) grown)
          ])
          (more (notifies refl) grown)

    adopt_answer-Adds :
        (old : List Message) (n : Node)
        → Adds Stabilizes old n.sent
        → Adds Stabilizes old (adopt_answer result node successor n).1.sent
    unfolding adopt_answer
    adopt_answer-Adds old n grown = elim (Bool-cases (is_changed node result successor)) [
      | inr k ↦ rw k (notify_successor-Adds old n grown)
      | inl k ↦ rw k (
          must_rule n (λ r. Adds Stabilizes old r.1.sent)
            (send (set_successor (node.replicas node.leader_id) (stabilized node result successor)))
            (λ _. notify_successor node (stabilized node result successor)) grown
            (notify_successor-Adds old
              (send
                (set_successor (node.replicas node.leader_id) (stabilized node result successor))
                (called n))
              (more stabilized-Stabilizes grown)))
    ]

    -- Whichever calls fail, each message of h_stabilize_callback sets a successor list that differs from
    -- the newest in no hash, or only in the first, where it has the told node, which is nearer ahead of
    -- the node, or notifies the successor, or asks for another replica of it; hashes have 20 bytes.
    pub h_stabilize_callback-Adds :
        (n : Node)
        → newest n.node_infos ≡ some node
        → newest n.successors ≡ some successor
        → Adds Stabilizes n.sent (h_stabilize_callback result n).1.sent
    unfolding h_stabilize_callback
    h_stabilize_callback-Adds n own list =
        let Q : Result (Unit {0}) × Node → Type 0 = λ r. Adds Stabilizes n.sent r.1.sent in
        must_rule n Q (λ m. m)
          (λ _. node_info >>= λ node.
            successor_info >>= λ successor. adopt_answer result node successor)
          same
          (must_known_rule (called n) Q (λ m. newest m.node_infos) node
            (λ node. successor_info >>= λ successor. adopt_answer result node successor) own same
            (must_known_rule (called (called n)) Q (λ m. newest m.successors) successor
              (λ successor. adopt_answer result node successor) list same
              (adopt_answer-Adds n.sent (called (called (called n))) same)))
