-- ===== src/Raft/ClientPut/Safety.antt =====
-- h_client_put leaves the server state as it is.
use cspot.Base.{
  ℕ, zero, suc, ◌+◌, ◌-◌, ◌≡◌, ◌∙◌, refl, Option, some, none, inl, inr, arith, Option-cases, sub64,
  add64, length,
}
use cspot.Woof.Read.{element}
use cspot.Raft.State.{Node, ServerState, PutRequest, PutResult}
use cspot.Raft.Exec.{
  take_log_lock, Exec, must_get, newest, called, release_log, bind_rule, must, ◌>>=◌, ◌>>◌,
}
use cspot.Raft.ClientPut.{
  redirect, post, serve, pad, latest_result, serve_all, h_client_put, put_result, history_size_long,
  blank_result,
}

-- The action puts no server state.
abbrev Leaves : {A : Type 0} → Exec A → Type 0
Leaves m = (n : Node) → (m n).1.states ≡ n.states

Leaves-bind :
    {A B : Type 0} (m : Exec A) (f : A → Exec B)
    → Leaves m
    → ((a : A) → Leaves (f a))
    → Leaves (m >>= f)
Leaves-bind m f h k n =
    bind_rule m f n (λ r. r.1.states ≡ n.states) (λ a _. k a (m n).1 ∙ h n) (h n) (h n)

serve-Leaves : (s : ServerState) (request : PutRequest) → Leaves (serve s request)
unfolding serve redirect
serve-Leaves s request n = ground arith

put_result-Leaves : (result : PutResult) → Leaves (must release_log (put_result result))
put_result-Leaves result n = ground arith

pad-Leaves : (rounds : ℕ) → Leaves (pad rounds)
unfolding pad
pad-Leaves zero = λ n. refl
pad-Leaves (suc rounds) =
    Leaves-bind (must release_log (put_result blank_result)) (λ _. pad rounds)
      (put_result-Leaves blank_result) (λ _. pad-Leaves rounds)

latest_result-Leaves : Leaves latest_result
unfolding latest_result
latest_result-Leaves n = refl

post-Leaves :
    (served : Option PutResult) (i last_seqno : ℕ) (rest : Exec ℕ)
    → Leaves rest
    → Leaves (post served i last_seqno rest)
unfolding post
post-Leaves none i last_seqno rest h = λ n. refl
post-Leaves (some result) i last_seqno rest h =
    Leaves-bind latest_result _ latest_result-Leaves (λ latest.
      Leaves-bind (pad (sub64 i (add64 latest 1)) >> must release_log (put_result result))
        (λ _. rest)
        (Leaves-bind (pad (sub64 i (add64 latest 1))) (λ _. must release_log (put_result result))
          (pad-Leaves (sub64 i (add64 latest 1))) (λ _. put_result-Leaves result))
        (λ _. h))

request-Leaves :
    (i : ℕ) → Leaves (must_get release_log (λ n. element history_size_long n.put_requests i))
request-Leaves i n = ground arith

serve_all-Leaves :
    (left i last_seqno : ℕ) (s : ServerState) → Leaves (serve_all left i last_seqno s)
unfolding serve_all
serve_all-Leaves zero i last_seqno s = λ n. refl
serve_all-Leaves (suc left) i last_seqno s = Leaves-bind _ _ (request-Leaves i) (λ request.
    Leaves-bind (serve s request) _ (serve-Leaves s request)
      (λ served. post-Leaves served i last_seqno _ (serve_all-Leaves left (i + 1) i s)))

-- h_client_put puts no server state, whether it returns or exits.
pub h_client_put-Leaves :
    (last_seqno : ℕ) (n : Node) → (h_client_put last_seqno n).1.states ≡ n.states
unfolding h_client_put
h_client_put-Leaves last_seqno n = elim (Option-cases (newest n.states)) [
  | inl gone ↦ ground (arith, gone)
  | inr (s, found) ↦ ground (
    arith,
    found,
    serve_all-Leaves (length n.put_requests - last_seqno) (last_seqno + 1) last_seqno s
        (take_log_lock (called (called n))),
  )
]
