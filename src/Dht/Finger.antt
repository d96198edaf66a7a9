-- ===== src/Dht/Finger.antt =====
-- apps/dht/d_fix_finger.c, h_fix_finger_callback.c and h_invalidate_fingers.c
pub mod Loop
pub mod Copy
pub mod Right
use cspot.Base.{
  ℕ, zero, suc, ◌+◌, ◌-◌, List, [], ◌∷◌, ◌++◌, Option, none, some, Bool, true, false, if◌then◌else◌,
  ltb, ◌||◌, Text, length, ◌==◌,
}
use cspot.Dht.Ring.{Hash, get_finger_id, in_range, memcmp, is_eq}
use cspot.Dht.State.{Node, NodeInfo, Peer, FindArg, fix_finger, FixFingerResult, finger_count}
use cspot.Dht.Exec.{
  Exec, ◌>>=◌, ◌>>◌, pure, try_call, try_get, must, must_get, newest, put_finger, put_request,
  get_milliseconds,
}
use cspot.Dht.Find.{invalidate_fingers}
use cspot.Dht.Successor.{node_info}

-- the index after `i`, in a circle
abbrev pub next_index : ℕ → ℕ
next_index i = if ltb finger_count (i + 1) then 1 else i + 1

abbrev pub no_result : Option ℕ → Bool
no_result none = false
no_result (some latest_seqno) = latest_seqno == 0

-- The index in the newest result. Where the number of results cannot be read, it is -1, above 0.
unfoldable pub last_index : Exec ℕ
last_index = try_get (λ n. some (length n.finger_results)) >>= λ latest_seqno.
    if no_result latest_seqno
    then pure 0
    else (must_get (λ n. newest n.finger_results) >>= λ result. pure result.finger_index)

-- whether finger `i` is the one before it
abbrev pub is_covered : NodeInfo → ℕ → Peer → Bool
is_covered node i finger =
    in_range (get_finger_id node.hash i) node.hash finger.hash
    || is_eq (memcmp (get_finger_id node.hash i) node.hash)

-- `key_of` prints an address and an index
module _ (key_of : Text → ℕ → Text) where
  -- dht_init_find_arg and the fields that are set after it
  abbrev pub finger_request : NodeInfo → ℕ → FindArg
  finger_request node i = record {
    key = key_of node.addr i;
    hashed_key = get_finger_id node.hash i;
    action = fix_finger;
    action_namespace = [];
    action_seqno = i;
    callback_namespace = node.addr;
    ts_created = 0;
  }

  -- The end of the loop. A failure of the put is only logged.
  abbrev pub ask_finger : NodeInfo → ℕ → Exec Bool
  ask_finger node i = try_call (put_request (finger_request node i)) >>= λ _. pure true

  -- what follows once the finger before index `i` is read
  abbrev pub fix_after : Exec Bool → ℕ → NodeInfo → Peer → Exec Bool
  fix_after rest i node finger =
      if is_covered node i finger
      then (must (put_finger i finger) >>= λ _. rest)
      else ask_finger node i

  -- The loop from index `i` on, for `fuel` rounds; `false` where these are used up.
  pub fix_from : ℕ → ℕ → NodeInfo → Exec Bool
  fix_from zero i node = pure false
  fix_from (suc fuel) i node =
      let rest = fix_from fuel (next_index i) node in
      if ltb 1 i
      then (must_get (λ n. newest (n.fingers (i - 1))) >>= fix_after rest i node)
      else ask_finger node i

  -- d_fix_finger; index 1 is never passed over, so that a circle is enough
  unfoldable pub d_fix_finger : Exec Bool
  unfolding fix_from
  d_fix_finger = do
    node ← node_info
    last_updated_index ← last_index
    fix_from finger_count (next_index last_updated_index) node

-- h_fix_finger_callback
unfoldable pub h_fix_finger_callback : FixFingerResult → Exec (Unit {0})
h_fix_finger_callback arg = must (λ n. n) >> must (put_finger arg.finger_index arg.node)

-- h_invalidate_fingers
unfoldable pub h_invalidate_fingers : Hash → Exec (Unit {0})
h_invalidate_fingers finger_hash = must (λ n. n) >> invalidate_fingers finger_hash
