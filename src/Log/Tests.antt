-- ===== src/Log/Tests.antt =====
-- Small tables and logs, and the theorems on src/host.c, src/event.cpp and src/log.cpp at them.
use cspot.Base.{ℕ, ◌≡◌, ◌≢◌, refl, inl, inr, [], ◌∷◌, some, arith, take}
use cspot.Log.Event.{Event, EventState, event_create}
use cspot.Log.Host.{HostList, host_list_find}
use cspot.Log.Host.Holds.{Has, Finds}
use cspot.Log.Host.Life.{add_all, host_list_find-add_all}
use cspot.Log.Ring.{Log, log_event, log_create, log_tail}
use cspot.Log.Ring.Keeps.{Logs, Keeps, stamped, log_create-Logs, log_event-Logs}
use cspot.Log.Ring.Tail.{since, reverse_onto, log_tail-since}

-- 5 and 105 have the same home.
five_nonzero : (host_id : ℕ) → Has host_id (105 ∷ 5 ∷ []) → host_id ≢ 0
five_nonzero host_id (inl e) z = absurd (omega (arith, e, z))
five_nonzero host_id (inr (inl e)) z = absurd (omega (arith, e, z))
five_nonzero host_id (inr (inr e)) z = absurd e

host_list_find-add_all_example :
    (hl : HostList) × (add_all (105 ∷ 5 ∷ []) ≡ some hl)
    × ((host_id : ℕ) → host_id ≢ 0 → Finds hl (105 ∷ 5 ∷ []) host_id (host_list_find hl host_id))
host_list_find-add_all_example = host_list_find-add_all (105 ∷ 5 ∷ []) five_nonzero (omega arith)

abbrev put_event : Event
put_event = event_create EventState.append 9 0

abbrev new_log : Log
new_log = log_create 9 3

log_event-Logs_example :
    Logs (log_event new_log put_event).0 (take 2 (stamped new_log put_event ∷ []))
    × ((log_event new_log put_event).1 ≡ 1)
log_event-Logs_example =
    log_event-Logs new_log [] put_event (log_create-Logs 9 3 (omega arith) (omega arith))
      (omega arith)

-- The log after an event, and after a second one.
abbrev first_event : Event
first_event = stamped new_log put_event

abbrev one_event : Log
one_event = (log_event new_log put_event).0

one_event-Logs : Logs one_event (first_event ∷ [])
one_event-Logs =
    (log_event-Logs new_log [] put_event (log_create-Logs 9 3 (omega arith) (omega arith))
      (omega arith)).0

log_tail-since_example :
    (l : Log) × (log_tail one_event 1 3 ≡ some (some l))
    × Keeps l (reverse_onto (since 1 (first_event ∷ [])) [])
log_tail-since_example =
    log_tail-since one_event (first_event ∷ []) 1 3 one_event-Logs (omega arith) (omega arith)
      (omega arith)

-- The event is in the tail, and not in the tail from a later number on.
one_found : since 1 (first_event ∷ []) ≡ first_event ∷ []
one_found = refl

none_found : since 2 (first_event ∷ []) ≡ []
none_found = refl
