-- ===== src/Raft/Forward.antt =====
-- apps/raft/h_forward_put_result.c; the threads that put the results run where they are created.
pub mod Committed
mod Tests
use cspot.Base.{
  ℕ, zero, suc, ◌+◌, ◌-◌, ◌∷◌, some, if◌then◌else◌, not, ◌||◌, ◌==◌, leb, is_empty, length,
}
use cspot.Woof.Read.{element}
use cspot.Raft.State.{Node, ServerState, PutRequest, PutResult, ForwardArg, put_callback}
use cspot.Raft.Exec.{
  Exec, ◌>>=◌, ◌>>◌, pure, lock_server, unlock_server, release, try_call, must, must_get, newest,
  send,
}
use cspot.Raft.Append.{is_leader}
use cspot.Raft.Election.{released}
use cspot.Raft.ClientPut.{history_size_long}

-- forward_result_thread; that the put fails is only logged
abbrev pub forward_result : PutRequest → PutResult → Exec (Unit {0})
forward_result request result =
    try_call (send (put_callback request.callback_woof request.callback_handler result)) >>= λ _.
    pure tt

-- A result whose entry is committed goes to the client, unless the entry was rewritten.
abbrev pub forward_committed : ServerState → PutRequest → PutResult → Exec (Unit {0})
forward_committed s request result =
    if result.term == s.current_term then forward_result request result else pure tt

-- One result, with what the loop does after it.
abbrev pub forward_one : ServerState → ℕ → ℕ → Exec ℕ → PutRequest → PutResult → Exec ℕ
forward_one s i last rest request result =
    if (result.index == 0) || is_empty request.callback_woof
    then rest
    else if leb result.index s.commit_index
    then forward_committed s request result >> rest
    else pure last

-- The loop over `left` results from `i` on; the number of the last one that was dealt with.
unfoldable pub forward_from : ℕ → ℕ → ℕ → ServerState → Exec ℕ
forward_from zero i last s = pure last
forward_from (suc left) i last s =
    let rest = forward_from left (i + 1) i s in
    must_get released (λ n. element history_size_long n.put_requests i) >>= λ request.
    must_get released (λ n. element history_size_long n.put_results i) >>= λ result.
    forward_one s i last rest request result

-- the next run of the handler
abbrev pub put_forward : ForwardArg → ℕ → Node → Node
put_forward arg last n = record n {
  forward_args = record arg { last_forwarded_put_result = last } ∷ n.forward_args;
}

-- once the lock is released by a leader of the term
unfoldable pub forward_results : ForwardArg → ServerState → Exec (Unit {0})
unfolding forward_from
forward_results arg s = must_get released (λ n. some (length n.put_results)) >>= λ latest.
    forward_from (latest - arg.last_forwarded_put_result) (arg.last_forwarded_put_result + 1)
      arg.last_forwarded_put_result s
    >>= λ last. must released (put_forward arg last)

abbrev pub forward_as : ForwardArg → ServerState → Exec (Unit {0})
forward_as arg s =
    if not (s.current_term == arg.term) || not (is_leader s.role)
    then unlock_server
    else unlock_server >> forward_results arg s

-- h_forward_put_result
unfoldable pub h_forward_put_result : ForwardArg → Exec (Unit {0})
unfolding forward_results
h_forward_put_result arg =
    lock_server >> must_get release (λ n. newest n.states) >>= λ s. forward_as arg s
