-- ===== src/Process/TimelineEventHistory/Laws.antt =====
-- TimelineEventHistory.cpp: retention and the chronological queries.
use data_exfiltration_detect.Common.{
  ℕ, ◌+◌, ◌-◌, ◌≤◌, ◌<◌, ◌≡◌, List, [], ◌∷◌, ◌++◌, not, arith, ◌==◌, length, length-drop,
  length-filter-le, if◌then◌else◌, bool_dec,
}
use data_exfiltration_detect.Common.Sorting.{length-stable_sort}
use data_exfiltration_detect.Process.Types.{ProcessActivityEvent}
use data_exfiltration_detect.Process.Ordering.{earlier_than, sort_events}
use data_exfiltration_detect.Process.TimelineEventHistory.{
  TimelineEventHistory, new_history, is_stale, drop_stale, drop_overflow, cleanup, add, add_all,
  size, set_max_events, set_max_age, clear,
}

-- A history never holds more events than its limit, which is at least one.
pub record IsBounded (h : TimelineEventHistory) : Type 0 where
  pub positive : 0 < h.max_events
  pub within : length h.events ≤ h.max_events

length-drop_overflow :
    (n : ℕ) (events : List ProcessActivityEvent) → length (drop_overflow n events) ≤ n
unfolding drop_overflow
length-drop_overflow n events = ground (
  arith,
  length-drop (length events - n) (sort_events events),
  length-stable_sort earlier_than events,
)

length-drop_overflow-le :
    (n : ℕ) (events : List ProcessActivityEvent) → length (drop_overflow n events) ≤ length events
unfolding drop_overflow
length-drop_overflow-le n events = ground (
  arith,
  length-drop (length events - n) (sort_events events),
  length-stable_sort earlier_than events,
)

length-drop_stale-le :
    (now age : ℕ) (events : List ProcessActivityEvent)
    → length (drop_stale now age events) ≤ length events
unfolding drop_stale
length-drop_stale-le now age events =
    ground (arith, length-filter-le (λ e. bool_dec (not (is_stale now age e))) events)

-- The calls that change a history, each with the clock's reading.
pub data Operation : Type 0 where
  adds : ProcessActivityEvent → Operation
  adds_all : List ProcessActivityEvent → Operation
  sets_max_events : ℕ → Operation
  sets_max_age : ℕ → Operation
  cleans : Operation
  clears : Operation

pub apply : TimelineEventHistory → ℕ × Operation → TimelineEventHistory
apply h (now, adds event) = add now h event
apply h (now, adds_all events) = add_all now h events
apply h (now, sets_max_events n) = set_max_events now h n
apply h (now, sets_max_age age) = set_max_age now h age
apply h (now, cleans) = (cleanup now h).0
apply h (now, clears) = clear h

pub run : TimelineEventHistory → List (ℕ × Operation) → TimelineEventHistory
run h [] = h
run h (op ∷ ops) = run (apply h op) ops

-- A cleanup under a positive limit bounds the history whatever it held, and returns how many
-- events it removed.
pub cleanup-IsBounded :
    (now : ℕ) (h : TimelineEventHistory)
    → 0 < h.max_events
    → let r = cleanup now h in IsBounded r.0 × (size r.0 + r.1 ≡ size h)
unfolding cleanup size
cleanup-IsBounded now h pos = ground (
  arith,
  length-drop_overflow h.max_events (drop_stale now h.max_age h.events),
  length-drop_overflow-le h.max_events (drop_stale now h.max_age h.events),
  length-drop_stale-le now h.max_age h.events,
)

apply-IsBounded :
    (h : TimelineEventHistory) (op : ℕ × Operation) → IsBounded h → IsBounded (apply h op)
unfolding apply add add_all set_max_events set_max_age clear
apply-IsBounded h (now, adds event) b =
    (cleanup-IsBounded now (record h { events = h.events ++ event ∷ [] }) b.positive).0
apply-IsBounded h (now, adds_all []) b = b
apply-IsBounded h (now, adds_all (e ∷ es)) b =
    (cleanup-IsBounded now (record h { events = h.events ++ e ∷ es }) b.positive).0
apply-IsBounded h (now, sets_max_events n) b =
    (cleanup-IsBounded now (record h { max_events = if n == 0 then 1 else n }) (ground arith)).0
apply-IsBounded h (now, sets_max_age age) b =
    (cleanup-IsBounded now (record h { max_age = age }) b.positive).0
apply-IsBounded h (now, cleans) b = (cleanup-IsBounded now h b.positive).0
apply-IsBounded h (now, clears) b = record { positive = b.positive; within = omega arith }

run-IsBounded :
    (h : TimelineEventHistory) (ops : List (ℕ × Operation)) → IsBounded h → IsBounded (run h ops)
unfolding run
run-IsBounded h [] b = b
run-IsBounded h (op ∷ ops) b = run-IsBounded (apply h op) ops (apply-IsBounded h op b)

-- After any sequence of calls on a new history, whatever limits it was given, its limit is at
-- least one event and it never holds more events than its limit.
pub run-new_history-IsBounded :
    (max_events max_age : ℕ) (ops : List (ℕ × Operation))
    → IsBounded (run (new_history max_events max_age) ops)
unfolding new_history
run-new_history-IsBounded max_events max_age ops =
    run-IsBounded (new_history max_events max_age) ops (ground arith)
