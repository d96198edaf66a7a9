-- ===== src/Raft/ClientPut.antt =====
-- apps/raft/h_client_put.c
pub mod Safety
use cspot.Base.{
  ℕ, zero, suc, ◌+◌, ◌-◌, [], ◌∷◌, Option, none, some, if◌then◌else◌, same, add64, sub64, length,
  minus_one,
}
use cspot.Woof.Read.{element}
use cspot.Raft.State.{Node, ServerState, PutRequest, PutResult, LogEntry, plain, put_request}
use cspot.Raft.Exec.{
  Exec, done, ◌>>=◌, ◌>>◌, pure, lock_log, unlock_log, release_log, must, must_get, must_value,
  called, newest, put_entry, send, get_milliseconds,
}
use cspot.Raft.Append.{is_leader}
use cspot.Raft.Election.{released}

-- RAFT_WOOF_HISTORY_SIZE_LONG, the size of the request and result WooFs
abbrev pub history_size_long : ℕ
history_size_long = 32768

-- RAFT_CLIENT_PUT_RESULT result = {0}
abbrev pub blank_result : PutResult
blank_result = record {
  source = [];
  redirected_target = [];
  redirected_seqno = 0;
  index = 0;
  term = 0;
  extra_woof = [];
  extra_seqno = 0;
}

abbrev pub result_for : ServerState → PutRequest → PutResult
result_for s request = record blank_result {
  source = s.woof_name;
  extra_woof = request.extra_woof;
  extra_seqno = request.extra_seqno;
}

-- a put of the request to the leader, and the number that it gets there; -1 where it fails
unfoldable pub redirect : ServerState → PutRequest → Exec ℕ
redirect s request n =
    if n.env.fails n.calls
    then (done minus_one, called n)
    else (done (n.env.remote n.calls), send (put_request s.current_leader request) (called n))

abbrev pub entry_for : ServerState → PutRequest → ℕ → LogEntry
entry_for s request now = record {
  term = s.current_term;
  topic_name = request.topic_name;
  payload = request.payload;
  is_config = plain;
  is_handler = request.is_handler;
  ts_created = request.ts_created;
  ts_written = now;
}

-- Lines 49 to 108: the result for one request; `none` holds it while an election is going on.
unfoldable pub serve : ServerState → PutRequest → Exec (Option PutResult)
serve s request =
    if is_leader s.role
    then (do
      now ← get_milliseconds
      entry_seqno ←
          must_value release_log (λ n. (n.log.seq_no, put_entry (entry_for s request now) n))
      pure (some (record (result_for s request) { index = entry_seqno; term = s.current_term })))
    else if same s.current_leader s.woof_name
    then pure none
    else do
      redirected_seqno ← redirect s request
      pure (
          some (record (result_for s request) {
            redirected_target = s.current_leader;
            redirected_seqno = redirected_seqno;
          }))

abbrev pub put_result : PutResult → Node → Node
put_result result n = record n { put_results = result ∷ n.put_results }

-- Lines 110 to 121: blank results until the next one has number `i`.
pad : ℕ → Exec (Unit {0})
pad zero = pure tt
pad (suc rounds) = must release_log (put_result blank_result) >> pad rounds

-- WooFGetLatestSeqno of the results, not tested for -1
unfoldable pub latest_result : Exec ℕ
latest_result n = (done (if n.env.fails n.calls then minus_one else length n.put_results), called n)

-- Lines 109 to 136: the result of request `i` is put under number `i`, and the loop goes on as `rest`
-- says. Where there is none, it ends after request `last_seqno`.
unfoldable pub post : Option PutResult → ℕ → ℕ → Exec ℕ → Exec ℕ
unfolding pad
post none i last_seqno rest = pure last_seqno
post (some result) i last_seqno rest = latest_result >>= λ latest.
    pad (sub64 i (add64 latest 1)) >> must release_log (put_result result) >> rest

-- The loop over `left` requests from `i` on; the number of the last one that got a result.
serve_all : ℕ → ℕ → ℕ → ServerState → Exec ℕ
serve_all zero i last_seqno s = pure last_seqno
serve_all (suc left) i last_seqno s =
    let rest = serve_all left (i + 1) i s in
    must_get release_log (λ n. element history_size_long n.put_requests i) >>= λ request.
    serve s request >>= λ served. post served i last_seqno rest

-- h_client_put, from request `last_seqno` + 1 on
unfoldable pub h_client_put : ℕ → Exec (Unit {0})
unfolding serve_all
h_client_put last_seqno = do
  s ← must_get released (λ n. newest n.states)
  latest_request ← must_get released (λ n. some (length n.put_requests))
  lock_log
  last' ← serve_all (latest_request - last_seqno) (last_seqno + 1) last_seqno s
  unlock_log
  must released (λ n. record n { put_args = last' ∷ n.put_args })
