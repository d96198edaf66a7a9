-- ===== src/Raft/Commit/Majority.antt =====
-- update_commit_index commits only what a majority has.
use mathlib.Core.Option.{some_inj}
use cspot.Base.{
  ◌==◌, ltb, ◌^◌, ℕ, zero, suc, ◌+◌, ◌/◌, ◌<◌, ◌≤◌, ◌≡◌, ◌≢◌, ◌⊎◌, inl, inr, ◌∙◌, refl, sym, ap,
  List, [], ◌∷◌, some, arith, Bool-cases, Option-cases, leb, drop, if◌then◌else◌,
}
use cspot.Woof
use cspot.Raft.State.{Node, ServerState, LogEntry}
use cspot.Raft.Exec.{done, called}
use cspot.Raft.Config.{Decoded, decoded, refused, null_token, beyond, decode_config}
use cspot.Raft.Commit.{
  comp_index, is_positive, indices, second_config, insert_index, sort_indices, install, leave_joint,
  commit_from, update_commit_index,
}

-- how many of the indices are at least `k`
abbrev pub at_least : ℕ → List ℕ → ℕ
at_least k [] = 0
at_least k (x ∷ xs) = (if leb k x then 1 else 0) + at_least k xs

-- whether all indices are at most `b`
abbrev Below : ℕ → List ℕ → Type 0
Below b [] = Unit
Below b (x ∷ xs) = (x ≤ b) × Below b xs

abbrev Descending : List ℕ → Type 0
Descending [] = Unit
Descending (x ∷ xs) = Below x xs × Descending xs

Below-weaken : (a b : ℕ) (xs : List ℕ) → a ≤ b → Below a xs → Below b xs
Below-weaken a b [] h p = tt
Below-weaken a b (x ∷ xs) h (p, q) = (omega arith, Below-weaken a b xs h q)

Below-insert_index : (b x : ℕ) (xs : List ℕ) → x ≤ b → Below b xs → Below b (insert_index x xs)
unfolding insert_index
Below-insert_index b x [] h p = (h, tt)
Below-insert_index b x (y ∷ xs) h (p, q) = elim (Bool-cases (is_positive (comp_index x y))) [
  | inl k ↦ rw k (p, Below-insert_index b x xs h q)
  | inr k ↦ rw k (h, (p, q))
]

Below-sort_indices : (b : ℕ) (xs : List ℕ) → Below b xs → Below b (sort_indices xs)
unfolding sort_indices
Below-sort_indices b [] p = tt
Below-sort_indices b (x ∷ xs) (p, q) =
    Below-insert_index b x (sort_indices xs) p (Below-sort_indices b xs q)

-- the largest int
abbrev int_max : ℕ
int_max = 2147483647

-- Up to the largest int the comparison is exact.
comp_index-after : (x y : ℕ) → x ≤ int_max → y ≤ int_max → is_positive (comp_index x y) ≡ ltb x y
unfolding comp_index
comp_index-after x y h k = ground arith

insert_index-Descending :
    (x : ℕ) (xs : List ℕ)
    → x ≤ int_max
    → Below int_max xs
    → Descending xs
    → Descending (insert_index x xs)
unfolding insert_index
insert_index-Descending x [] h b p = (tt, tt)
insert_index-Descending x (y ∷ xs) h (b, c) (p, q) = elim (Bool-cases (ltb x y)) [
  | inl k ↦
      rw (comp_index-after x y h b, k)
        (Below-insert_index y x xs (ground (arith, k)) p, insert_index-Descending x xs h c q)
  | inr k ↦
      rw (comp_index-after x y h b, k)
        ((ground (arith, k), Below-weaken y x xs (ground (arith, k)) p), (p, q))
]

sort_indices-Descending : (xs : List ℕ) → Below int_max xs → Descending (sort_indices xs)
unfolding sort_indices
sort_indices-Descending [] b = tt
sort_indices-Descending (x ∷ xs) (b, c) =
    insert_index-Descending x (sort_indices xs) b (Below-sort_indices int_max xs c)
      (sort_indices-Descending xs c)

indices-Below :
    (left i b : ℕ) (f : ℕ → ℕ) → ((j : ℕ) → j < i + left → f j ≤ b) → Below b (indices left i f)
unfolding indices
indices-Below zero i b f h = tt
indices-Below (suc left) i b f h =
    (h i (omega arith), indices-Below left (i + 1) b f λ j k. h j (omega (arith, k)))

at_least-insert_index :
    (k x : ℕ) (xs : List ℕ)
    → at_least k (insert_index x xs) ≡ (if leb k x then 1 else 0) + at_least k xs
unfolding insert_index
at_least-insert_index k x [] = refl
at_least-insert_index k x (y ∷ xs) = ground (arith, at_least-insert_index k x xs)

at_least-sort_indices : (k : ℕ) (xs : List ℕ) → at_least k (sort_indices xs) ≡ at_least k xs
unfolding sort_indices
at_least-sort_indices k [] = refl
at_least-sort_indices k (x ∷ xs) =
    ground (arith, at_least-insert_index k x (sort_indices xs), at_least-sort_indices k xs)

-- an element of a list
abbrev In : ℕ → List ℕ → Type 0
In k [] = ⊥
In k (x ∷ xs) = (k ≡ x) ⊎ In k xs

at_least-Below : (k b : ℕ) (xs : List ℕ) → Below b xs → In k xs → k ≤ b
at_least-Below k b [] p i = absurd i
at_least-Below k b (x ∷ xs) (p, q) (inl e) = omega arith
at_least-Below k b (x ∷ xs) (p, q) (inr i) = at_least-Below k b xs q i

In-drop : (m k : ℕ) (xs : List ℕ) → In k (drop m xs) → In k xs
In-drop zero k xs i = i
In-drop (suc m) k [] i = i
In-drop (suc m) k (x ∷ xs) i = inr (In-drop m k xs i)

-- In a descending list, an element from place `m` on has more than `m` elements at least as large.
at_least-drop : (m k : ℕ) (xs : List ℕ) → Descending xs → In k (drop m xs) → m < at_least k xs
at_least-drop zero k [] p i = absurd i
at_least-drop (suc m) k [] p i = absurd i
at_least-drop zero k (x ∷ xs) (p, q) (inl e) = ground arith
at_least-drop zero k (x ∷ xs) (p, q) (inr i) = ground (arith, at_least-drop zero k xs q i)
at_least-drop (suc m) k (x ∷ xs) (p, q) i =
    ground (arith, at_least-drop m k xs q i, at_least-Below k x xs p (In-drop m k xs i))

-- what a new commit index needs
pub record Commits (s : ServerState) (indices : List ℕ) (n : Node) (s' : ServerState) : Type 0 where
  pub grows : s.commit_index ≤ s'.commit_index
  pub acknowledged : s'.commit_index ≢ s.commit_index → In s'.commit_index indices
  pub own_term :
      s'.commit_index ≢ s.commit_index
      → (entry : LogEntry) → Woof.read n.log s'.commit_index ≡ some entry
      → entry.term ≡ s.current_term

commit_index-install :
    (d : Decoded) (s s' : ServerState) (n : Node)
    → (install d s n).0 ≡ done s'
    → s'.commit_index ≡ s.commit_index
unfolding install
commit_index-install (decoded members woofs len) s s' n e = ground arith
commit_index-install refused s s' n e = absurd (ground arith)
commit_index-install null_token s s' n e = absurd (ground arith)
commit_index-install beyond s s' n e = absurd (ground arith)

commit_index-leave_joint :
    (s s' : ServerState) (n : Node)
    → (leave_joint s n).0 ≡ done s'
    → s'.commit_index ≡ s.commit_index
unfolding leave_joint
commit_index-leave_joint s s' n e = elim (Option-cases (Woof.read n.log s.last_config_seqno)) [
  | inl gone ↦ ground (arith, gone)
  | inr (entry, found) ↦ ground (
    arith,
    found,
    commit_index-install (second_config entry.payload (decode_config entry.payload)) s s'
        (called n),
  )
]

stays-Commits :
    (xs : List ℕ) (s s' : ServerState) (n : Node)
    → s'.commit_index ≡ s.commit_index
    → Commits s xs n s'
stays-Commits xs s s' n e = record {
  grows = omega arith;
  acknowledged = λ ne. absurd (ne e);
  own_term = λ ne entry found. absurd (ne e);
}

moves-Commits :
    (x : ℕ) (xs : List ℕ) (s s' : ServerState) (n : Node) (entry : LogEntry)
    → s.commit_index ≤ x
    → Woof.read n.log x ≡ some entry
    → entry.term ≡ s.current_term
    → s'.commit_index ≡ x
    → Commits s (x ∷ xs) n s'
moves-Commits x xs s s' n entry h found own e = record {
  grows = omega arith;
  acknowledged = λ ne. inl e;
  own_term = λ ne entry' found'.
      ap (λ a. a.term) (some_inj.0 (sym found' ∙ ap (Woof.read n.log) e ∙ found)) ∙ own;
}

commit_from-Commits :
    (xs : List ℕ) (s s' : ServerState) (n : Node)
    → (commit_from xs s n).0 ≡ done s'
    → Commits s xs n s'
unfolding commit_from
commit_from-Commits [] s s' n e = stays-Commits [] s s' n (ground arith)
commit_from-Commits (x ∷ xs) s s' n e = elim (Bool-cases (leb x s.commit_index)) [
  | inl k ↦ stays-Commits (x ∷ xs) s s' n (ground (arith, k))
  | inr k ↦ elim (Option-cases (Woof.read n.log x)) [
    | inl gone ↦ absurd (ground (arith, k, gone))
    | inr (entry, found) ↦ elim (Bool-cases (entry.term == s.current_term)) [
      | inl own ↦ moves-Commits x xs s s' n entry (ground (arith, k)) found (ground (arith, own)) (
          commit_index-leave_joint (record s { commit_index = x }) s' (called n)
            (ground (arith, k, found, own, e)))
      | inr other ↦
          let rest : Commits s xs (called n) s' =
            commit_from-Commits xs s s' (called n) (ground (arith, k, found, other, e)) in
          record {
            grows = rest.grows;
            acknowledged = λ ne. inr (rest.acknowledged ne);
            own_term = rest.own_term;
          }
    ]
  ]
]

-- Where the match indices of the members are below 2^31: if update_commit_index returns a state with
-- another commit index, the index has grown, more than
-- half of the members have acknowledged an entry at least that far, and the entry at the index is of
-- the server's own term.
pub update_commit_index-Majority :
    (s s' : ServerState) (n : Node) (entry : LogEntry)
    → ((i : ℕ) → i < s.members → s.match_index i < 2 ^ 31)
    → (update_commit_index s n).0 ≡ done s'
    → s'.commit_index ≢ s.commit_index
    → Woof.read n.log s'.commit_index ≡ some entry
    → (s.commit_index < s'.commit_index)
      × (s.members / 2 < at_least s'.commit_index (indices s.members 0 s.match_index))
      × (entry.term ≡ s.current_term)
unfolding update_commit_index
update_commit_index-Majority s s' n entry small e ne found =
    let all : List ℕ = indices s.members 0 s.match_index in
    let commits : Commits s (drop (s.members / 2) (sort_indices all)) n s' =
      commit_from-Commits (drop (s.members / 2) (sort_indices all)) s s' n e in
    (
      omega (arith, commits.grows),
      rw (sym (at_least-sort_indices s'.commit_index all)) (
          at_least-drop (s.members / 2) s'.commit_index (sort_indices all)
            (sort_indices-Descending all (
              indices-Below s.members 0 int_max s.match_index
                λ j k. omega (arith, small j (omega arith))))
            (commits.acknowledged ne)),
      commits.own_term ne entry found,
    )
