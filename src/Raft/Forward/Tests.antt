-- ===== src/Raft/Forward/Tests.antt =====
-- A leader that forwards a result, and the theorem on apps/raft/h_forward_put_result.c at it.
use cspot.Base.{◌≡◌, ◌≢◌, refl, [], ◌∷◌, false, true, codes, is_empty}
use cspot.Raft.Append.{is_leader}
use cspot.Raft.Forward.{h_forward_put_result}
use cspot.Raft.Forward.Committed.{Sends, h_forward_put_result-Sends}
use cspot.Raft.Samples.{state, replica, empty_log}
use cspot.Raft.State.{Node, ServerState, PutRequest, PutResult, ForwardArg, leader, put_callback}
use cspot.Woof.Read.{element}

abbrev leading : ServerState
leading = record state { role = leader; commit_index = 4 }

abbrev request : PutRequest
request = record {
  payload = [];
  is_handler = false;
  extra_woof = [];
  extra_seqno = 0;
  topic_name = [];
  callback_woof = codes "client";
  callback_handler = [];
  ts_created = 0;
}

abbrev result : PutResult
result = record {
  source = [];
  redirected_target = [];
  redirected_seqno = 0;
  index = 4;
  term = 1;
  extra_woof = [];
  extra_seqno = 0;
}

-- Result 2 waits for entry 5.
abbrev waiting : Node
waiting = record (replica leading empty_log) {
  put_requests = request ∷ request ∷ [];
  put_results = record result { index = 5 } ∷ result ∷ [];
}

abbrev arg : ForwardArg
arg = record { term = 1; last_forwarded_put_result = 0 }

h_forward_put_result-Sends_example :
    Sends leading [] (h_forward_put_result arg waiting).1
    × ((h_forward_put_result arg waiting).1.sent ≢ []
        → (leading.current_term ≡ arg.term) × (is_leader leading.role ≡ true))
h_forward_put_result-Sends_example = h_forward_put_result-Sends arg leading waiting refl

one_forwarded :
    (h_forward_put_result arg waiting).1.sent ≡ put_callback (codes "client") [] result ∷ []
unfolding h_forward_put_result element is_empty
one_forwarded = refl
