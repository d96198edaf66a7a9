-- ===== src/Dht/Notify.antt =====
-- apps/dht/h_notify.c and h_notify_callback.c
pub mod Closer
pub mod Answer
use cspot.Base.{
  ℕ, zero, suc, ◌+◌, ◌-◌, List, [], ◌∷◌, Option, none, some, Bool, true, false, if◌then◌else◌, ◌&&◌,
  ◌||◌, Text, is_empty,
}
use cspot.Dht.Ring.{Hash, zero_hash, is_empty_hash, in_range, memcmp, is_eq}
use cspot.Dht.State.{
  Node, NodeInfo, Peer, SuccessorInfo, NotifyArg, Message, notify_callback, successor_list_r,
}
use cspot.Dht.Exec.{Exec, ◌>>=◌, ◌>>◌, pure, must, must_get, newest, send, put_predecessor}
use cspot.Dht.Find.{no_peer, self_peer, successor_peer}
use cspot.Dht.Successor.{set_place, node_info, predecessor_info, successor_info, raft_set_successor}

abbrev pub no_successors : SuccessorInfo
no_successors = record { hash = λ _. zero_hash; replicas = λ _ _. []; leader = λ _. 0 }

-- The loop that moves the successor list one place up, over `left` places from `i` on.
pub copy_from : ℕ → ℕ → SuccessorInfo → SuccessorInfo → SuccessorInfo
copy_from zero i successor result = result
copy_from (suc left) i successor result =
    let rest =
      copy_from left (i + 1) successor (set_place (i + 1) (successor_peer successor i) result) in
    if is_empty_hash (successor.hash i) then result else rest

-- what h_notify answers
unfoldable pub successors_of : NodeInfo → SuccessorInfo → SuccessorInfo
unfolding copy_from
successors_of node successor =
    copy_from (successor_list_r - 1) 0 successor (set_place 0 (self_peer node) no_successors)

-- the test for a better predecessor
unfoldable pub takes : NodeInfo → Peer → Peer → Bool
takes node predecessor candidate =
    is_empty_hash predecessor.hash
    || is_eq (memcmp predecessor.hash node.hash)
    || in_range candidate.hash predecessor.hash node.hash

-- The answer. The two calls before the put take the callback's address and namespace from its URI.
unfoldable pub call_back : NotifyArg → NodeInfo → SuccessorInfo → Exec (Unit {0})
call_back arg node successor =
    if is_empty arg.callback_woof
    then pure tt
    else (must (λ n. n)
        >> must (λ n. n)
        >> must (send (notify_callback arg.callback_woof (successors_of node successor))))

-- h_notify, from its test on
unfoldable pub take_predecessor : NotifyArg → NodeInfo → Peer → SuccessorInfo → Exec (Unit {0})
take_predecessor arg node predecessor successor =
    if takes node predecessor arg.node
    then (if is_eq (memcmp predecessor.hash arg.node.hash)
        then pure tt
        else (must (put_predecessor arg.node) >> call_back arg node successor))
    else call_back arg node successor

-- h_notify
unfoldable pub h_notify : NotifyArg → Exec (Unit {0})
h_notify arg = do
  cast ← must (λ n. n)
  node ← node_info
  predecessor ← predecessor_info
  successor ← successor_info
  take_predecessor arg node predecessor successor

-- h_notify_callback
unfoldable pub h_notify_callback : SuccessorInfo → Exec (Unit {0})
h_notify_callback result = do
  cast ← must (λ n. n)
  node ← node_info
  successor ← successor_info
  raft_set_successor node result
