-- ===== src/Raft/Election/Empty.antt =====
-- The first election of a server whose log is empty.
use cspot.Base.{ℕ, ◌+◌, ◌≡◌, some, none, true, arith, ltb, sub64}
use cspot.Woof
use cspot.Woof.{latest_seqno, read}
use cspot.Raft.State.{Node, ServerState, LogEntry, Heartbeat}
use cspot.Raft.Exec.{newest, called, put_state, release, exit, take_lock}
use cspot.Raft.Election.{
  ask_members, start_election, check_timeout, h_timeout_checker, has_timeout, as_candidate,
  experiment_cheat,
}

read-empty : (w : Woof.Woof LogEntry) → w.seq_no ≡ 1 → read w (latest_seqno w) ≡ none
unfolding read latest_seqno
read-empty w e = ground (arith, e)

ask_members-empty :
    (s : ServerState) (n : Node)
    → n.log.seq_no ≡ 1
    → ((ask_members s n).0 ≡ exit) × ((ask_members s n).1.timeout_checkers ≡ n.timeout_checkers)
unfolding ask_members
ask_members-empty s n e = ground (arith, read-empty n.log e)

start_election-empty :
    (s : ServerState) (n : Node)
    → n.log.seq_no ≡ 1
    → ((start_election s n).0 ≡ exit)
      × ((start_election s n).1.timeout_checkers ≡ n.timeout_checkers)
unfolding start_election
start_election-empty s n e =
    ground (arith, ask_members-empty s (release (put_state (as_candidate s) (called (called n)))) e)

check_timeout-empty :
    (timeout_value : ℕ) (s : ServerState) (n : Node) (heartbeat : Heartbeat)
    → n.log.seq_no ≡ 1
    → newest n.heartbeats ≡ some heartbeat
    → ltb timeout_value (sub64 (n.env.clock (n.calls + 1)) heartbeat.timestamp) ≡ true
    → experiment_cheat s.woof_name s.current_term ≡ true
    → ((check_timeout timeout_value s n).0 ≡ exit)
      × ((check_timeout timeout_value s n).1.timeout_checkers ≡ n.timeout_checkers)
unfolding check_timeout
check_timeout-empty timeout_value s n heartbeat e found late allowed =
    ground (arith, e, found, late, allowed, start_election-empty s (called (called n)) e)

-- A server whose role has a timeout, that has no log entry, whose timeout has passed and that
-- experiment_cheat lets start an election (its term is above 0, or it is one of the hosts that may start
-- the first election) never completes one: h_timeout_checker exits and puts no next timeout checker,
-- whether or not WooF calls fail.
pub h_timeout_checker-empty :
    (timeout_value : ℕ) (s : ServerState) (n : Node) (heartbeat : Heartbeat)
    → newest n.states ≡ some s
    → has_timeout s.role ≡ true
    → n.log.seq_no ≡ 1
    → newest n.heartbeats ≡ some heartbeat
    → ltb timeout_value (sub64 (n.env.clock (n.calls + 1 + 1)) heartbeat.timestamp) ≡ true
    → experiment_cheat s.woof_name s.current_term ≡ true
    → ((h_timeout_checker timeout_value n).0 ≡ exit)
      × ((h_timeout_checker timeout_value n).1.timeout_checkers ≡ n.timeout_checkers)
unfolding h_timeout_checker
h_timeout_checker-empty timeout_value s n heartbeat read timed e found late allowed = ground (
  arith,
  read,
  timed,
  check_timeout-empty timeout_value s (called (take_lock n)) heartbeat e found late allowed,
)
