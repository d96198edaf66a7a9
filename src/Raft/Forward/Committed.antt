-- ===== src/Raft/Forward/Committed.antt =====
-- Which results h_forward_put_result sends to clients.
use cspot.Base.{
  ℕ, zero, suc, ◌+◌, ◌-◌, ◌≤◌, ◌≡◌, ◌≢◌, ap, refl, inl, inr, List, [], ◌∷◌, ◌++◌, Option, some,
  true, ◌||◌, ◌==◌, leb, is_empty, arith, Bool-cases, Option-cases, length,
}
use cspot.Woof.Read.{element}
use cspot.Raft.State.{
  Node, ServerState, PutRequest, PutResult, ForwardArg, Message, put_callback, vote_request,
  vote_result, append_request, append_result, put_request,
}
use cspot.Raft.Exec.{
  take_lock, Exec, Result, exit, ◌>>=◌, bind_rule, must, must_get, called, newest, release,
}
use cspot.Raft.Append.{is_leader}
use cspot.Raft.Election.{released}
use cspot.Raft.ClientPut.{history_size_long}
use cspot.Raft.Forward.{
  forward_committed, forward_one, forward_from, forward_results, put_forward, h_forward_put_result,
}

module _ {A B : Type 0} (Q : Result A × Node → Type 0) where
  must_get_rule :
      (clean : Node → Node) (f : Node → Option B) (k : B → Exec A) (n : Node)
      → Q (exit, clean (called n))
      → ((b : B) → f n ≡ some b → Q (k b (called n)))
      → Q ((must_get clean f >>= k) n)
  must_get_rule clean f k n failed succeeded = elim (Bool-cases (n.env.fails n.calls)) [
    | inl e ↦ rw e failed
    | inr e ↦ elim (Option-cases (f n)) [
      | inl absent ↦ rw (e, absent) failed
      | inr (b, found) ↦ rw (e, found) (succeeded b found)
    ]
  ]

-- The result of an entry that is committed, sent by a leader of its term.
abbrev pub IsCommitted : ServerState → Message → Type 0
IsCommitted s (put_callback woof handler result) =
    (result.index ≢ 0)
    × (result.index ≤ s.commit_index)
    × (result.term ≡ s.current_term)
    × (is_leader s.role ≡ true)
IsCommitted s (vote_request target request) = ⊥
IsCommitted s (vote_result target result) = ⊥
IsCommitted s (append_request target request) = ⊥
IsCommitted s (append_result target result) = ⊥
IsCommitted s (put_request target request) = ⊥

abbrev pub AllCommitted : ServerState → List Message → Type 0
AllCommitted s [] = Unit
AllCommitted s (m ∷ ms) = IsCommitted s m × AllCommitted s ms

-- Only such messages were sent since.
abbrev pub Sends : ServerState → List Message → Node → Type 0
Sends s before n = (new : List Message) × (n.sent ≡ new ++ before) × AllCommitted s new

module _ (s : ServerState) (before : List Message) (leads : is_leader s.role ≡ true) where
  forward_committed-Sends :
      (request : PutRequest) (result : PutResult) (n : Node)
      → result.index ≢ 0
      → result.index ≤ s.commit_index
      → Sends s before n
      → Sends s before (forward_committed s request result n).1
  forward_committed-Sends request result n real committed (new, sent, all) =
      elim (Bool-cases (result.term == s.current_term)) [
        | inl current ↦ elim (Bool-cases (n.env.fails n.calls)) [
          | inl e ↦ rw (current, e) (new, sent, all)
          | inr e ↦
              rw (current, e)
                (
                  put_callback request.callback_woof request.callback_handler result ∷ new,
                  ap (λ ms. put_callback request.callback_woof request.callback_handler result ∷ ms)
                      sent,
                  ((real, committed, ground (arith, current), leads), all),
                )
        ]
        | inr other ↦ rw other (new, sent, all)
      ]

  forward_one-Sends :
      (i last : ℕ) (rest : Exec ℕ) (request : PutRequest) (result : PutResult) (n : Node)
      → ((m : Node) → Sends s before m → Sends s before (rest m).1)
      → Sends s before n
      → Sends s before (forward_one s i last rest request result n).1
  forward_one-Sends i last rest request result n goes_on sends =
      elim (Bool-cases ((result.index == 0) || is_empty request.callback_woof)) [
        | inl skipped ↦ rw skipped (goes_on n sends)
        | inr real ↦ elim (Bool-cases (leb result.index s.commit_index)) [
          | inl committed ↦
              let after : Sends s before (forward_committed s request result n).1 =
                forward_committed-Sends request result n (ground (arith, real))
                  (ground (arith, committed)) sends in
              rw (real, committed)
                (bind_rule (forward_committed s request result) (λ _. rest) n
                  (λ r. Sends s before r.1) (λ a e. goes_on _ after) after after)
          | inr pending ↦ rw (real, pending) sends
        ]
      ]

  forward_from-Sends :
      (left i last : ℕ) (n : Node)
      → Sends s before n
      → Sends s before (forward_from left i last s n).1
  unfolding forward_from
  forward_from-Sends zero i last n sends = sends
  forward_from-Sends (suc left) i last n sends =
      let rest : Exec ℕ = forward_from left (i + 1) i s in
      let k : PutRequest → PutResult → Exec ℕ = forward_one s i last rest in
      must_get_rule (λ r. Sends s before r.1) released
        (λ n. element history_size_long n.put_requests i)
        (λ request. must_get released (λ n. element history_size_long n.put_results i) >>= λ result.
          k request result)
        n sends
        (λ request found.
          must_get_rule (λ r. Sends s before r.1) released
            (λ n. element history_size_long n.put_results i) (k request) (called n) sends
            (λ result found'.
              forward_one-Sends i last rest request result (called (called n))
                (λ m held. forward_from-Sends left (i + 1) i m held) sends))

  forward_results-Sends :
      (arg : ForwardArg) (n : Node) → Sends s before n → Sends s before (forward_results arg s n).1
  unfolding forward_results
  forward_results-Sends arg n sends =
      let loop : ℕ → Exec ℕ = λ latest.
        forward_from (latest - arg.last_forwarded_put_result) (arg.last_forwarded_put_result + 1)
          arg.last_forwarded_put_result s in
      must_get_rule (λ r. Sends s before r.1) released (λ n. some (length n.put_results))
        (λ latest. loop latest >>= λ last. must released (put_forward arg last)) n sends
        (λ latest found.
          let looped : Sends s before (loop latest (called n)).1 =
            forward_from-Sends (latest - arg.last_forwarded_put_result)
              (arg.last_forwarded_put_result + 1) arg.last_forwarded_put_result (called n) sends in
          bind_rule (loop latest) (λ last. must released (put_forward arg last)) (called n)
            (λ r. Sends s before r.1)
            (λ last e. put-Sends arg last (loop latest (called n)).1 looped) looped looped)
    where
      put-Sends :
          (arg : ForwardArg) (last : ℕ) (m : Node)
          → Sends s before m
          → Sends s before (must released (put_forward arg last) m).1
      put-Sends arg last m sends = elim (Bool-cases (m.env.fails m.calls)) [
        | inl e ↦ rw e sends
        | inr e ↦ rw e sends
      ]

-- Whichever calls fail, each message of h_forward_put_result is a result of an entry with an index other than 0
-- and at most the commit index, of the current term; and there is one only if the server leads in that term,
-- which is the term of the handler's argument.
pub h_forward_put_result-Sends :
    (arg : ForwardArg) (s : ServerState) (n : Node)
    → newest n.states ≡ some s
    → Sends s n.sent (h_forward_put_result arg n).1
      × ((h_forward_put_result arg n).1.sent ≢ n.sent
          → (s.current_term ≡ arg.term) × (is_leader s.role ≡ true))
unfolding h_forward_put_result
h_forward_put_result-Sends arg s n found =
    let n0 : Node = called (take_lock n) in
    elim (Bool-cases (n.env.fails n.calls)) [
      | inl e ↦ rw e (([], refl, tt), λ changed. absurd (changed refl))
      | inr e ↦ elim (Bool-cases (s.current_term == arg.term)) [
        | inr old ↦ rw (e, found, old) (([], refl, tt), λ changed. absurd (changed refl))
        | inl now ↦ elim (Bool-cases (is_leader s.role)) [
          | inr follows ↦
              rw (e, found, now, follows) (([], refl, tt), λ changed. absurd (changed refl))
          | inl leads ↦
              rw (e, found, now, leads)
                (
                  forward_results-Sends s n.sent leads arg (release n0) ([], refl, tt),
                  λ changed. (ground (arith, now), refl),
                )
        ]
      ]
    ]
