-- ===== src/Log/Ring/Keeps.antt =====
-- The events that a log keeps, the newest first.
use mathlib.Core.Path.{subst}
use cspot.Base.{
  ℕ, zero, suc, ◌+◌, ◌-◌, ◌^◌, ◌<◌, ◌≡◌, ◌∙◌, ap, sym, refl, List, [], ◌∷◌, some, arith,
  if◌then◌else◌, ◌==◌, length, take, get_elem?, add64, update, update_self, update_ne,
}
use cspot.Log.Event.{Event}
use cspot.Log.Ring.{Log, log_add, log_event, log_create}
use cspot.Log.Ring.Places.{
  back, next_place, mod-next, back-next_place, back-zero, back-ne-next_place, get_elem?-take,
  length-take,
}

-- The events stand from the head backwards, and the tail stands before the last of them.
pub record Keeps (log : Log) (evs : List Event) : Type 0 where
  pub small : log.size < 2 ^ 64
  pub head_in : log.head < log.size
  pub fits : length evs < log.size
  pub tail_at : log.tail ≡ back log.size log.head (length evs)
  pub stored :
      (k : ℕ) (e : Event) → get_elem? evs k ≡ some e → log.ev_array (back log.size log.head k) ≡ e

-- the tail after an event is written
abbrev moved : Log → ℕ → ℕ
moved log next = if next == log.tail then next_place log.size log.tail else log.tail

log_add-eq :
    (log : Log) (event : Event)
    → log.head < log.size
    → log.tail < log.size
    → log_add log event ≡ record log {
      tail = moved log (next_place log.size log.head);
      ev_array = update log.ev_array (next_place log.size log.head) event;
      head = next_place log.size log.head;
    }
unfolding log_add
log_add-eq log event head_in tail_in =
    rw (mod-next log.size log.head head_in, mod-next log.size log.tail tail_in) refl

tail_in : (log : Log) (evs : List Event) → Keeps log evs → log.tail < log.size
tail_in log evs keeps = ground (arith, keeps.tail_at, keeps.head_in, keeps.fits)

get_elem?-lt : {A : Type 0} (xs : List A) (k : ℕ) (x : A) → get_elem? xs k ≡ some x → k < length xs
get_elem?-lt [] k x e = absurd (ground (arith, e))
get_elem?-lt (y ∷ ys) zero x e = omega arith
get_elem?-lt (y ∷ ys) (suc k) x e = omega (arith, get_elem?-lt ys k x e)

kept :
    (log : Log) (evs : List Event) (event : Event)
    → Keeps log evs
    → (k : ℕ) (e : Event) → k < log.size - 1
    → get_elem? (event ∷ evs) k ≡ some e
    → update log.ev_array
        (next_place log.size log.head)
        event
        (back log.size (next_place log.size log.head) k)
      ≡ e
kept log evs event keeps zero e low found =
    ap (update log.ev_array (next_place log.size log.head) event)
      (back-zero log.size (next_place log.size log.head))
    ∙ update_self log.ev_array (next_place log.size log.head) event
    ∙ ground (arith, found)
kept log evs event keeps (suc k) e low found =
    let more : suc k < log.size = omega (arith, low) in
    let at : back log.size (next_place log.size log.head) (suc k) ≡ back log.size log.head k =
      back-next_place log.size log.head k keeps.head_in more in
    ap (update log.ev_array (next_place log.size log.head) event) at
    ∙ update_ne log.ev_array (next_place log.size log.head) (back log.size log.head k) event
        (back-ne-next_place log.size log.head k keeps.head_in more)
    ∙ keeps.stored k e found

-- LogAdd keeps the event, and the events before it as far as there is room: a log keeps at most one fewer
-- than it has places.
pub log_add-Keeps :
    (log : Log) (evs : List Event) (event : Event)
    → Keeps log evs
    → Keeps (log_add log event) (take (log.size - 1) (event ∷ evs))
log_add-Keeps log evs event keeps =
    let next : ℕ = next_place log.size log.head in
    let long = length-take (log.size - 1) (event ∷ evs) in
    subst (λ l. Keeps l (take (log.size - 1) (event ∷ evs)))
      (sym (log_add-eq log event keeps.head_in (tail_in log evs keeps)))
      (record {
        small = keeps.small;
        head_in = ground (arith, keeps.head_in);
        fits = ground (arith, long, keeps.head_in);
        tail_at = ground (arith, long, keeps.tail_at, keeps.head_in, keeps.fits);
        stored = λ k e found.
            let (low, was) = get_elem?-take (log.size - 1) (event ∷ evs) k e found in
            kept log evs event keeps k e low was;
      })

-- The events are numbered without a gap up to the log's next number.
abbrev pub Numbered : Log → List Event → Type 0
Numbered log evs = (k : ℕ) (e : Event) → get_elem? evs k ≡ some e → e.seq_no + suc k ≡ log.seq_no

-- the event with its number
abbrev pub stamped : Log → Event → Event
stamped log event = record event { seq_no = log.seq_no }

-- The log keeps the events, which are numbered.
abbrev pub Logs : Log → List Event → Type 0
Logs log evs = Keeps log evs × Numbered log evs

pub log_add-seq_no : (log : Log) (event : Event) → (log_add log event).seq_no ≡ log.seq_no
unfolding log_add
log_add-seq_no log event = refl

pub log_add-size : (log : Log) (event : Event) → (log_add log event).size ≡ log.size
unfolding log_add
log_add-size log event = refl

-- LogEvent returns the log's next number; the log then keeps the event under this number, and the events
-- before it as far as there is room, still numbered without a gap.
pub log_event-Logs :
    (log : Log) (evs : List Event) (event : Event)
    → Logs log evs
    → log.seq_no + 1 < 2 ^ 64
    → Logs (log_event log event).0 (take (log.size - 1) (stamped log event ∷ evs))
      × ((log_event log event).1 ≡ log.seq_no)
unfolding log_event
log_event-Logs log evs event (keeps, numbered) fits =
    let counted : Log = record log { seq_no = add64 log.seq_no 1 } in
    let new : Event = stamped log event in
    (
      (
        log_add-Keeps counted evs new (record {
          small = keeps.small;
          head_in = keeps.head_in;
          fits = keeps.fits;
          tail_at = keeps.tail_at;
          stored = keeps.stored;
        }),
        λ k e found.
            let (low, was) = get_elem?-take (log.size - 1) (new ∷ evs) k e found in
            number k e was ∙ omega (arith, fits) ∙ sym (log_add-seq_no counted new),
      ),
      refl,
    )
  where
    number :
        (k : ℕ) (e : Event)
        → get_elem? (stamped log event ∷ evs) k ≡ some e
        → e.seq_no + suc k ≡ log.seq_no + 1
    number zero e found = ground (arith, found)
    number (suc k) e found = omega (arith, numbered k e found)

pub log_create-Logs :
    (host_id size : ℕ) → 0 < size → size < 2 ^ 64 → Logs (log_create host_id size) []
log_create-Logs host_id size room small = (
  record {
    small = small;
    head_in = room;
    fits = room;
    tail_at = sym (back-zero size 0);
    stored = λ k e found. absurd (ground (arith, found));
  },
  λ k e found. absurd (ground (arith, found)),
)
