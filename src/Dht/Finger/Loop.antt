-- ===== src/Dht/Finger/Loop.antt =====
-- The loop of d_fix_finger and its fuel.
use cspot.Base.{
  ℕ, zero, suc, ◌+◌, ◌-◌, ◌≤◌, ◌<◌, ◌≡◌, ◌⊎◌, inl, inr, refl, Bool, true, arith, Bool-cases, ltb,
  ◌==◌, Text, length,
}
use cspot.Dht.State.{Node, NodeInfo}
use cspot.Dht.Exec.{
  Result, done, exit, ◌>>=◌, pure, must_get, called, newest, put_finger, must_rule, must_get_rule,
}
use cspot.Dht.Finger.{
  next_index, is_covered, fix_after, ask_finger, fix_from, d_fix_finger, last_index,
}

-- The loop has found an index to ask for, or a call has failed.
abbrev pub Ends : Result Bool → Type 0
Ends r = (r ≡ done true) ⊎ (r ≡ exit)

last_index-Returns :
    (n : Node) → ((i : ℕ) × ((last_index n).0 ≡ done i)) ⊎ ((last_index n).0 ≡ exit)
unfolding last_index
last_index-Returns n =
    let Q : Result ℕ × Node → Type 0 = λ r. ((i : ℕ) × (r.0 ≡ done i)) ⊎ (r.0 ≡ exit) in
    let read : (m : Node)
        → Q ((must_get (λ n. newest n.finger_results) >>= λ result. pure result.finger_index) m) =
      λ m.
        must_get_rule m Q (λ n. newest n.finger_results) (λ result. pure result.finger_index)
          (inr refl) (λ b e. inl (b.finger_index, refl)) in
    elim (Bool-cases (n.env.fails n.calls)) [
      | inl k ↦ rw k (read (called n))
      | inr k ↦ elim (Bool-cases (length n.finger_results == 0)) [
        | inl z ↦ rw (k, z) (inl (0, refl))
        | inr z ↦ rw (k, z) (read (called n))
      ]
    ]

module _ (key_of : Text → ℕ → Text) where
  ask_finger-Ends : (node : NodeInfo) (i : ℕ) (n : Node) → Ends (ask_finger key_of node i n).0
  ask_finger-Ends node i n = elim (Bool-cases (n.env.fails n.calls)) [
    | inl k ↦ rw k (inl refl)
    | inr k ↦ rw k (inl refl)
  ]

  fix_from-Ends :
      (fuel i : ℕ) (node : NodeInfo) (n : Node)
      → 0 < fuel
      → 0 < i
      → i ≤ 160
      → (1 < i → 162 ≤ fuel + i)
      → Ends (fix_from key_of fuel i node n).0
  unfolding fix_from
  fix_from-Ends zero i node n some_fuel pos top enough = absurd (omega arith)
  fix_from-Ends (suc fuel) i node n some_fuel pos top enough = elim (Bool-cases (ltb 1 i)) [
    | inr first ↦ rw first (ask_finger-Ends node i n)
    | inl later ↦ rw later (
        must_get_rule n (λ r. Ends r.0) (λ m. newest (m.fingers (i - 1)))
          (fix_after key_of (fix_from key_of fuel (next_index i) node) i node) (inr refl)
          λ finger e. elim (Bool-cases (is_covered node i finger)) [
            | inr apart ↦ rw apart (ask_finger-Ends node i (called n))
            | inl covered ↦ rw covered (
                must_rule (called n) (λ r. Ends r.0) (put_finger i finger)
                  (λ _. fix_from key_of fuel (next_index i) node) (inr refl)
                  (fix_from-Ends fuel (next_index i) node _ (ground arith) (ground arith)
                    (ground arith) (ground arith)))
          ])
  ]

  -- Whatever the last result was and whichever calls fail, d_fix_finger comes to an index it asks for
  -- or exits: the loop passes over each index at most once.
  pub d_fix_finger-Ends : (n : Node) → Ends (d_fix_finger key_of n).0
  unfolding d_fix_finger
  d_fix_finger-Ends n =
      must_get_rule n (λ r. Ends r.0) (λ m. newest m.node_infos)
        (λ node. last_index >>= λ i. fix_from key_of 160 (next_index i) node) (inr refl)
        λ node e. elim (last_index-Returns (called n)) [
          | inl (i, r) ↦ rw r (
              fix_from-Ends 160 (next_index i) node _ (omega arith) (ground arith) (ground arith)
                (ground arith))
          | inr r ↦ rw r (inr refl)
        ]
