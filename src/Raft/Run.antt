-- ===== src/Raft/Run.antt =====
-- Runs of a replica's handlers: any order of votes, appends, timeouts and client puts, with any
-- environment for each. h_count_vote, h_replicate_entries and h_config_change are not steps here.
use cspot.Base.{
  ℕ, suc, ◌+◌, ◌<◌, ◌^◌, ◌≡◌, ◌≢◌, ◌∙◌, sym, refl, List, [], ◌∷◌, some, true, arith, Text,
}
use cspot.Raft.State.{Node, Env, ServerState, VoteRequest, VoteResult, AppendRequest, vote_result}
use cspot.Raft.Exec.{newest}
use cspot.Raft.Ballot.{Keeps, current, Keeps-newest, Keeps-through}
use cspot.Raft.Vote.{h_request_vote}
use cspot.Raft.Vote.Safety.{h_request_vote-Keeps}
use cspot.Raft.Vote.Answer.{h_request_vote-Granted}
use cspot.Raft.Append.{h_append_entries}
use cspot.Raft.Append.Safety.{Fit, h_append_entries-Keeps}
use cspot.Raft.Election.{h_timeout_checker}
use cspot.Raft.Election.Safety.{h_timeout_checker-Keeps}
use cspot.Raft.ClientPut.{h_client_put}
use cspot.Raft.ClientPut.Safety.{h_client_put-Leaves}

-- One handler of a replica, with a request whose configurations stay within the arrays; `environment` is a new process, with its own calls
pub data Step (n : Node) : Node → Type 0 where
  request_vote : (request : VoteRequest) → Step n (h_request_vote request n).1
  append_entries :
      (request : AppendRequest) (seq_no : ℕ)
      → Fit request.entries
      → Step n (h_append_entries request seq_no n).1
  timeout :
      (timeout_value : ℕ)
      → ((s : ServerState) → newest n.states ≡ some s → s.current_term + 1 < 2 ^ 64)
      → Step n (h_timeout_checker timeout_value n).1
  client_put : (last_seqno : ℕ) → Step n (h_client_put last_seqno n).1
  environment : (env : Env) → Step n (record n { env = env })

Step-Keeps :
    {s : ServerState} {n n' : Node}
    → Step n n'
    → newest n.states ≡ some s
    → Keeps s (current s n'.states)
Step-Keeps {s} {n} (request_vote request) e = h_request_vote-Keeps request s n e
Step-Keeps {s} {n} (append_entries request seq_no fit) e =
    h_append_entries-Keeps request seq_no s n fit e
Step-Keeps {s} {n} (timeout timeout_value h) e = h_timeout_checker-Keeps timeout_value s n e (h s e)
Step-Keeps {s} {n} (client_put last_seqno) e =
    rw (h_client_put-Leaves last_seqno n) (Keeps-newest n.states e)
Step-Keeps {s} {n} (environment env) e = Keeps-newest n.states e

-- The replica has a server state before each handler, as it has from its start on.
pub data Run : Node → Node → Type 0 where
  stay : {n : Node} → Run n n
  step :
      {n m n' : Node} (s : ServerState) → newest n.states ≡ some s → Step n m → Run m n' → Run n n'

-- Over any run of the handlers from a replica whose newest state is `s`, terms only grow and within
-- the term a vote that was cast stays.
pub Run-Keeps :
    {s : ServerState} {n n' : Node}
    → Run n n'
    → newest n.states ≡ some s
    → Keeps s (current s n'.states)
Run-Keeps {s} {n} stay e = Keeps-newest n.states e
Run-Keeps (step s' read one stay) e = Step-Keeps one e
Run-Keeps {s} {n} {n'} (step {m = m} s' read one (step s'' read' two rest)) e =
    Keeps-through m.states n'.states read' (Step-Keeps one e)
      (Run-Keeps (step s'' read' two rest) read')

-- A list of states with one term has a first one.
first_state :
    (s : ServerState) (term : ℕ) (states : List ServerState)
    → ((d : ServerState) → (current d states).current_term ≡ term)
    → (x : ServerState) × (newest states ≡ some x) × ((d : ServerState) → current d states ≡ x)
first_state s term [] h = absurd (omega (arith, h (record s { current_term = suc term })))
first_state s term (x ∷ states) h = (x, refl, λ d. refl)

module _ (n m : Node) (s s' : ServerState) (request request' : VoteRequest) (to to' : Text)
    (result result' : VoteResult) (read : newest n.states ≡ some s)
    (sent : (h_request_vote request n).1.sent ≡ vote_result to result ∷ n.sent)
    (granted : result.granted ≡ true) (between : Run (h_request_vote request n).1 m)
    (read' : newest m.states ≡ some s')
    (sent' : (h_request_vote request' m).1.sent ≡ vote_result to' result' ∷ m.sent)
    (granted' : result'.granted ≡ true) where
  -- A replica that has granted its vote to a candidate with a name grants it, after any run of the
  -- handlers, on requests whose configurations stay within the arrays, to no other candidate in the same term.
  pub one_vote_per_term :
      request.candidate_woof ≢ []
      → result.term ≡ result'.term
      → request'.candidate_woof ≡ request.candidate_woof
  one_vote_per_term named same_term =
      let (_, first) = h_request_vote-Granted request s n to result read sent granted in
      let (_, second) = h_request_vote-Granted request' s' m to' result' read' sent' granted' in
      let after : List ServerState = (h_request_vote request' m).1.states in
      let (x, read_x, at_x) =
        first_state s request.term (h_request_vote request n).1.states first.at_term in
      let kept : Keeps x (current x after) =
        Keeps-through m.states after read' (Run-Keeps between read_x)
          (h_request_vote-Keeps request' s' m read') in
      let voted_x : x.voted_for ≡ request.candidate_woof = rw (sym (at_x x)) (first.voted x) in
      let term_x : x.current_term ≡ request.term = rw (sym (at_x x)) (first.at_term x) in
      sym (second.voted x)
      ∙ kept.vote (term_x ∙ sym first.term ∙ same_term ∙ second.term ∙ sym (second.at_term x))
          (λ e. named (sym voted_x ∙ e))
      ∙ voted_x
