-- ===== src/Log/Event.antt =====
-- src/event.cpp: the events of a log, and their index in the trees of pending events.
use cspot.Base.{ℕ, ◌+◌, ◌*◌, ◌%◌, ◌^◌, ◌<◌, ◌≡◌, ◌↔◌, Option, none, some, arith, Text, []}

-- EventState, with 0 for an event that was never written
pub data EventState : Type 0 where
  zeroed unknown func trigger trigger_firing fired append read latest_seqno : EventState

-- EVENT; the timestamp is a number of nanoseconds
pub record Event : Type 0 where
  pub state : EventState
  pub host : ℕ
  pub seq_no : ℕ
  pub cause_host : ℕ
  pub cause_seq_no : ℕ
  pub woofc_seq_no : ℕ
  pub woofc_ndx : ℕ
  pub woofc_element_size : ℕ
  pub woofc_history_size : ℕ
  pub woofc_name : Text
  pub woofc_handler : Text
  pub woofc_namespace : Text
  pub ino : ℕ
  pub timestamp : ℕ

-- memory of zeros, as an event
abbrev pub no_event : Event
no_event = record {
  state = zeroed;
  host = 0;
  seq_no = 0;
  cause_host = 0;
  cause_seq_no = 0;
  woofc_seq_no = 0;
  woofc_ndx = 0;
  woofc_element_size = 0;
  woofc_history_size = 0;
  woofc_name = [];
  woofc_handler = [];
  woofc_namespace = [];
  ino = 0;
  timestamp = 0;
}

-- EventCreate where there is memory, at a time of the clock
abbrev pub event_create : EventState → ℕ → ℕ → Event
event_create state host now = record no_event { state = state; host = host; timestamp = now }

-- EventSetCause, `none` for -1
abbrev pub event_set_cause : Option Event → ℕ → ℕ → Option Event
event_set_cause none cause_host cause_seq_no = none
event_set_cause (some ev) cause_host cause_seq_no =
    some (record ev { cause_host = cause_host; cause_seq_no = cause_seq_no })

-- EventIndex, as the bits of an int64_t
unfoldable pub event_index : ℕ → ℕ → ℕ
event_index host seq_no = (host * 2 ^ 32 + seq_no) % 2 ^ 64

-- Two events with sequence numbers below 2^32 have the same index exactly if these are equal and the hosts
-- agree in their low 32 bits.
pub event_index_iff :
    (host seq_no host' seq_no' : ℕ)
    → seq_no < 2 ^ 32
    → seq_no' < 2 ^ 32
    → (event_index host seq_no ≡ event_index host' seq_no')
      ↔ ((host % 2 ^ 32 ≡ host' % 2 ^ 32) × (seq_no ≡ seq_no'))
unfolding event_index
event_index_iff host seq_no host' seq_no' low low' =
    ((λ e. (omega (arith, e), omega (arith, e))), λ (h, s). omega (arith, h, s))
