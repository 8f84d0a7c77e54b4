-- ===== src/Process/TimelineEventHistory.antt =====
-- src/process/tracker/TimelineEventHistory.h and .cpp. The clock's reading is an argument of each
-- operation that cleans up; a duration is its count of clock ticks.
pub mod Laws
pub mod Retention
pub mod Queries
mod Tests
use data_exfiltration_detect.Common.{
  ℕ, ◌+◌, ◌-◌, List, [], ◌∷◌, ◌++◌, Bool, true, false, not, ltb, leb, ◌||◌, ◌==◌, if◌then◌else◌,
  length, is_empty, drop, keep_if,
}
use data_exfiltration_detect.Common.Text.{Text, text_equal}
use data_exfiltration_detect.Common.Maps.{Visit}
use data_exfiltration_detect.Process.TimelineEventCollector.{TimelineEventCollector, get_all_events}
use data_exfiltration_detect.Process.Types.{ProcessActivityEvent}
use data_exfiltration_detect.Process.Ordering.{sort_events}

pub record TimelineEventHistory : Type 0 where
  pub max_events : ℕ
  pub max_age : ℕ
  pub events : List ProcessActivityEvent

abbrev at_least_one : ℕ → ℕ
at_least_one n = if n == 0 then 1 else n

-- The constructor; the defaults are 1000 events and 3600 seconds.
unfoldable pub new_history : ℕ → ℕ → TimelineEventHistory
new_history max_events max_age = record {
  max_events = at_least_one max_events;
  max_age = max_age;
  events = [];
}

-- The predicate of `std::remove_if`, whose difference of times is signed.
unfoldable pub is_stale : ℕ → ℕ → ProcessActivityEvent → Bool
is_stale now max_age event =
    if event.timestamp == 0 then false else ltb (event.timestamp + max_age) now

-- The events after the removal by age, which a maximum age of zero turns off.
unfoldable pub drop_stale : ℕ → ℕ → List ProcessActivityEvent → List ProcessActivityEvent
unfolding is_stale
drop_stale now max_age events =
    if ltb 0 max_age then keep_if (λ e. not (is_stale now max_age e)) events else events

-- The events after the removal of an overflow: the earliest in sorted order go.
unfoldable pub drop_overflow : ℕ → List ProcessActivityEvent → List ProcessActivityEvent
drop_overflow max_events events =
    if ltb max_events (length events)
    then drop (length events - max_events) (sort_events events)
    else events

unfoldable pub cleanup : ℕ → TimelineEventHistory → TimelineEventHistory × ℕ
cleanup now h =
    let kept = drop_overflow h.max_events (drop_stale now h.max_age h.events) in
    if is_empty h.events
    then (h, 0)
    else (record h { events = kept }, length h.events - length kept)

-- `add` of one event.
unfoldable pub add : ℕ → TimelineEventHistory → ProcessActivityEvent → TimelineEventHistory
add now h event = (cleanup now (record h { events = h.events ++ event ∷ [] })).0

-- `add` of many events.
unfoldable pub add_all : ℕ → TimelineEventHistory → List ProcessActivityEvent → TimelineEventHistory
add_all now h events =
    if is_empty events then h else (cleanup now (record h { events = h.events ++ events })).0

-- `add` of all that a collector holds.
unfoldable pub add_collected :
    Visit ℕ → ℕ → TimelineEventHistory → TimelineEventCollector → TimelineEventHistory
unfolding add_all get_all_events
add_collected order now h collector = add_all now h (get_all_events order collector)

unfoldable pub get_by_process_id : TimelineEventHistory → ℕ → List ProcessActivityEvent
get_by_process_id h process_id =
    sort_events (keep_if (λ (e : ProcessActivityEvent). e.process_id == process_id) h.events)

unfoldable pub get_by_process_name : TimelineEventHistory → Text → List ProcessActivityEvent
unfolding text_equal
get_by_process_name h process_name =
    sort_events
      (keep_if (λ (e : ProcessActivityEvent). text_equal e.process_name process_name) h.events)

-- The newest events of a list, all of them if the limit is 0 or not below their number.
unfoldable pub newest : ℕ → List ProcessActivityEvent → List ProcessActivityEvent
newest limit recent =
    if limit == 0 || leb (length recent) limit then recent else drop (length recent - limit) recent

unfoldable pub get_recent : TimelineEventHistory → ℕ → List ProcessActivityEvent
get_recent h limit = newest limit (sort_events h.events)

unfoldable pub size : TimelineEventHistory → ℕ
size h = length h.events

unfoldable pub set_max_events : ℕ → TimelineEventHistory → ℕ → TimelineEventHistory
set_max_events now h max_events =
    (cleanup now (record h { max_events = at_least_one max_events })).0

unfoldable pub set_max_age : ℕ → TimelineEventHistory → ℕ → TimelineEventHistory
set_max_age now h max_age = (cleanup now (record h { max_age = max_age })).0

unfoldable pub clear : TimelineEventHistory → TimelineEventHistory
clear h = record h { events = [] }
