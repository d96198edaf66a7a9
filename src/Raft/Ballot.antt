-- ===== src/Raft/Ballot.antt =====
-- What must not be undone: terms only grow, and within a term a vote stays where it was cast.
use cspot.Base.{◌≤◌, ◌≡◌, ◌≢◌, ◌∙◌, refl, sym, List, [], ◌∷◌, arith, some}
use cspot.Raft.State.{ServerState}
use cspot.Raft.Exec.{newest}

-- the state that a handler reads, `s` where none was ever put
abbrev pub current : ServerState → List ServerState → ServerState
current s [] = s
current s (s' ∷ states) = s'

pub record Keeps (s s' : ServerState) : Type 0 where
  pub term : s.current_term ≤ s'.current_term
  pub vote : s.current_term ≡ s'.current_term → s.voted_for ≢ [] → s'.voted_for ≡ s.voted_for

pub Keeps-refl : (s : ServerState) → Keeps s s
Keeps-refl s = record { term = omega arith; vote = λ _ _. refl }

pub Keeps-trans : {a b c : ServerState} → Keeps a b → Keeps b c → Keeps a c
Keeps-trans {a} {b} {c} p q = record {
  term = omega arith;
  vote = λ e h.
      let ab : a.current_term ≡ b.current_term = omega (arith, p.term, q.term) in
      let bc : b.current_term ≡ c.current_term = omega (arith, p.term, q.term) in
      let same_vote : b.voted_for ≡ a.voted_for = p.vote ab h in
      q.vote bc (λ k. h (sym same_vote ∙ k)) ∙ same_vote;
}

-- the same term and the same vote
pub record Same (s s' : ServerState) : Type 0 where
  pub term : s'.current_term ≡ s.current_term
  pub vote : s'.voted_for ≡ s.voted_for

pub Same-refl : (s : ServerState) → Same s s
Same-refl s = record { term = refl; vote = refl }

pub Same-trans : {a b c : ServerState} → Same a b → Same b c → Same a c
Same-trans p q = record { term = q.term ∙ p.term; vote = q.vote ∙ p.vote }

pub Keeps-Same : {a b c : ServerState} → Keeps a b → Same b c → Keeps a c
Keeps-Same {a} {b} {c} p q = record {
  term = omega (arith, p.term, q.term);
  vote = λ e h. q.vote ∙ p.vote (omega (arith, q.term)) h;
}

pub Keeps-current :
    {s s' : ServerState} (states : List ServerState)
    → Keeps s s'
    → Same s' (current s' states)
    → Keeps s (current s states)
Keeps-current {s} [] p q = Keeps-refl s
Keeps-current (x ∷ states) p q = Keeps-Same p q

pub Same-current :
    {s : ServerState} (states : List ServerState)
    → newest states ≡ some s
    → Same s (current s states)
Same-current {s} [] e = Same-refl s
Same-current {s} (x ∷ states) e = ground (arith, Same-refl s)

pub Keeps-newest :
    {s : ServerState} (states : List ServerState)
    → newest states ≡ some s
    → Keeps s (current s states)
Keeps-newest {s} [] e = Keeps-refl s
Keeps-newest {s} (x ∷ states) e = ground (arith, Keeps-refl s)

-- two stretches in a row, where a state is there in between
pub Keeps-through :
    {s s' : ServerState} (before after : List ServerState)
    → newest before ≡ some s'
    → Keeps s (current s before)
    → Keeps s' (current s' after)
    → Keeps s (current s after)
Keeps-through {s} {s'} before [] e p q = Keeps-refl s
Keeps-through {s} {s'} [] (x ∷ after) e p q = absurd (ground arith)
Keeps-through {s} {s'} (b ∷ before) (x ∷ after) e p q =
    Keeps-trans p (rw (newest_lem b before s' e) q)
  where
    newest_lem :
        (b : ServerState) (before : List ServerState) (s' : ServerState)
        → newest (b ∷ before) ≡ some s'
        → b ≡ s'
    newest_lem b before s' e = ground (arith, e)
