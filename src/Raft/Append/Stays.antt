-- ===== src/Raft/Append/Stays.antt =====
-- The parts of h_append_entries that work on the log keep the term and the vote.
use cspot.Base.{
  ℕ, zero, suc, ◌+◌, ◌%◌, ◌^◌, ◌≡◌, refl, List, [], ◌∷◌, some, inl, inr, Text, arith, Bool-cases,
  Option-cases,
}
use cspot.Woof
use cspot.Raft.State.{
  Node, ServerState, AppendRequest, LogEntry, EntryKind, follower, plain, joint_entry, new_entry,
}
use cspot.Raft.Exec.{
  Exec, Result, done, bind_rule, ◌>>◌, ◌>>=◌, put_entry, pure, must, put_state, called, release,
  release_both,
}
use cspot.Raft.Ballot.{current, Same, Same-refl, Same-trans}
use cspot.Raft.Config.{Decoded, decoded, refused, null_token, beyond, decode_config}
use cspot.Raft.Append.{
  map_entry, map_rounds, map_committed, invoke_handler_and_map_topic_index, start_timeout, promote,
  adopt, adopt_kind, adopt_config, append_all, drop_conflicts, configured,
}

-- A part of the handler that works on the state `s` ends with its ballot, in the state that it
-- returns and in the WooF.
pub record Stays (s : ServerState) (r : Result ServerState × Node) : Type 0 where
  pub returned : (s' : ServerState) → r.0 ≡ done s' → Same s s'
  pub put : Same s (current s r.1.states)

states-map_entry : (i : ℕ) (entry : LogEntry) (n : Node) → (map_entry i entry n).1.states ≡ n.states
unfolding map_entry
states-map_entry i entry n = ground arith

pub states-start_timeout :
    (s : ServerState) (n : Node) → (start_timeout release s n).1.states ≡ n.states
unfolding start_timeout
states-start_timeout s n = ground arith

states-start_timeout_both :
    (s : ServerState) (n : Node) → (start_timeout release_both s n).1.states ≡ n.states
unfolding start_timeout
states-start_timeout_both s n = ground arith

done-Same : (a s s' : ServerState) → Same a s → done s ≡ done s' → Same a s'
done-Same a s s' h e = ground (arith, h)

module _ (s : ServerState) (n : Node) where
  states-promote : (promote s n).1.states ≡ n.states
  unfolding promote
  states-promote = ground (arith, states-start_timeout_both (record s { role = follower }) n)

  promote-Same : (s' : ServerState) → (promote s n).0 ≡ done s' → Same s s'
  unfolding promote
  promote-Same s' e = ground (arith, Same-refl s)

done-some : (a s s' : ServerState) → Same a s → done (some s) ≡ done (some s') → Same a s'
done-some a s s' h e = ground (arith, h)

Stays-bind :
    (a : ServerState) (m : Exec ServerState) (f : ServerState → Exec ServerState) (n : Node)
    → Stays a (m n)
    → ((s : ServerState) → Same a s → Stays a (f s (m n).1))
    → Stays a ((m >>= f) n)
Stays-bind a m f n h k =
    bind_rule m f n (Stays a) (λ s e. k s (h.returned s e))
      (record { returned = λ s e. absurd (ground arith); put = h.put })
      (record { returned = λ s e. absurd (ground arith); put = h.put })

put_state-Stays :
    (a : ServerState) (n : Node)
    → Same a (current a n.states)
    → (s : ServerState) → Same a s
    → Stays a ((must release_both (put_state s) >> pure s) n)
put_state-Stays a n h s q = elim (Bool-cases (n.env.fails n.calls)) [
  | inl k ↦ rw k (record { returned = λ s' e. absurd (ground arith); put = h })
  | inr k ↦ rw k (record { returned = λ s' e. done-Same a s s' q e; put = q })
]

module _ (a : ServerState) where
  adopt_as :
      (kind : EntryKind) (seq members len : ℕ) (woofs : ℕ → Text) (s : ServerState) (n : Node)
      → Same a s
      → Same a (current a n.states)
      → Stays a (adopt kind seq s (decoded members woofs len) n)
  unfolding adopt
  adopt_as kind seq members len woofs s n q h =
      Stays-bind a (promote c) _ n
        (record { returned = λ s' e. Same-trans as_configured (promote-Same c n s' e); put = kept })
        (put_state-Stays a (promote c n).1 kept)
    where
      c : ServerState
      c = configured s kind seq members woofs

      as_configured : Same a c
      as_configured = record { term = q.term; vote = q.vote }

      kept : Same a (current a (promote c n).1.states)
      kept = rw (states-promote c n) h

  adopt-Stays :
      (kind : EntryKind) (seq : ℕ) (d : Decoded) (s : ServerState) (n : Node)
      → Same a s
      → Same a (current a n.states)
      → Stays a (adopt kind seq s d n)
  unfolding adopt
  adopt-Stays kind seq (decoded members woofs len) s n q h =
      adopt_as kind seq members len woofs s n q h
  adopt-Stays kind seq refused s n q h = record {
    returned = λ s' e. absurd (ground arith);
    put = h;
  }
  adopt-Stays kind seq null_token s n q h = record {
    returned = λ s' e. absurd (ground arith);
    put = h;
  }
  adopt-Stays kind seq beyond s n q h = record { returned = λ s' e. absurd (ground arith); put = h }

  adopt_kind-Stays :
      (kind : EntryKind) (payload : Text) (seq : ℕ) (s : ServerState) (n : Node)
      → Same a s
      → Same a (current a n.states)
      → Stays a (adopt_kind kind payload seq s n)
  adopt_kind-Stays plain payload seq s n q h = record {
    returned = λ s' e. done-Same a s s' q e;
    put = h;
  }
  adopt_kind-Stays joint_entry payload seq s n q h =
      adopt-Stays joint_entry seq (decode_config payload) s n q h
  adopt_kind-Stays new_entry payload seq s n q h =
      adopt-Stays new_entry seq (decode_config payload) s n q h

  adopt_config-Stays :
      (entry : LogEntry) (seq : ℕ) (s : ServerState) (n : Node)
      → Same a s
      → Same a (current a n.states)
      → Stays a (adopt_config entry seq s n)
  unfolding adopt_config
  adopt_config-Stays entry = adopt_kind-Stays entry.is_config entry.payload

  pub append_all-Stays :
      (entries : List LogEntry) (s : ServerState) (n : Node)
      → Same a s
      → Same a (current a n.states)
      → Stays a (append_all entries s n)
  unfolding append_all
  append_all-Stays [] s n q h = record { returned = λ s' e. done-Same a s s' q e; put = h }
  append_all-Stays (entry ∷ entries) s n q h = elim (Bool-cases (n.env.fails n.calls)) [
    | inl k ↦ rw k (record { returned = λ s' e. absurd (ground arith); put = h })
    | inr k ↦ rw k (
        let n1 : Node = put_entry entry (called n) in
        let adopted : Stays a (adopt_config entry n.log.seq_no s n1) =
          adopt_config-Stays entry n.log.seq_no s n1 q h in
        Stays-bind a (adopt_config entry n.log.seq_no s) (append_all entries) n1 adopted
          (λ s' q'. append_all-Stays entries s' _ q' adopted.put))
  ]

  pub drop_conflicts-Stays :
      (request : AppendRequest) (last : ℕ) (s : ServerState) (n : Node)
      → Same a s
      → Same a (current a n.states)
      → Stays a (drop_conflicts request last s n)
  unfolding drop_conflicts
  drop_conflicts-Stays request last s n q h = record {
    returned = λ s' e. record { term = ground (arith, q.term); vote = ground (arith, q.vote) };
    put = rw states_drop h;
  }
    where
      states_drop : (drop_conflicts request last s n).1.states ≡ n.states
      states_drop = ground arith

map_committed-Same :
    (left i : ℕ) (a s : ServerState) (n : Node)
    → Same a s
    → ((s' : ServerState) → (map_committed left i s n).0 ≡ done (some s') → Same a s')
      × ((map_committed left i s n).1.states ≡ n.states)
unfolding map_committed
map_committed-Same zero i a s n q = (λ s' e. done-some a s s' q e, refl)
map_committed-Same (suc left) i a s n q = elim (Option-cases (Woof.read n.log i)) [
  | inl gone ↦ (λ s' e. absurd (ground (arith, gone)), ground (arith, gone))
  | inr (entry, found) ↦
      let n2 : Node = (map_entry i entry (called n)).1 in
      let (same_ballot, kept) =
        map_committed-Same left ((i + 1) % 2 ^ 32) a (record s { last_checked_committed_entry = i })
          n2 (record { term = q.term; vote = q.vote }) in
      (
        λ s' e. same_ballot s' (ground (arith, e, found)),
        ground (arith, found, kept, states-map_entry i entry (called n)),
      )
]

pub invoke_handler_and_map_topic_index-Same :
    (a s : ServerState) (n : Node)
    → Same a s
    → ((s' : ServerState) → (invoke_handler_and_map_topic_index s n).0 ≡ done (some s') → Same a s')
      × ((invoke_handler_and_map_topic_index s n).1.states ≡ n.states)
unfolding invoke_handler_and_map_topic_index
invoke_handler_and_map_topic_index-Same a s n q =
    let first : ℕ = (s.last_checked_committed_entry + 1) % 2 ^ 32 in
    map_committed-Same (map_rounds first s.commit_index) first a s n q
