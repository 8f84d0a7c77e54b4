-- ===== src/Process/TimelineQuery/Laws.antt =====
-- TimelineQuery.cpp: what the queries answer, and that they agree with their sources.
use data_exfiltration_detect.Common.{
  ℕ, ◌≡◌, refl, sym, ◌∙◌, ap, subst, List, [], ◌∷◌, Bool, false, ◌==◌, keep_if, bool_dec, is_empty,
  if◌then◌else◌,
}
use data_exfiltration_detect.Common.Text.{Text, text_equal}
use data_exfiltration_detect.Common.Sorting.{stable_sort, stable_sort_idem, filter-stable_sort}
use data_exfiltration_detect.Process.Types.{
  ProcessActivityEvent, ProcessActivityEventType, event_type_index,
}
use data_exfiltration_detect.Process.Ordering.{
  sort_events, IsAnswer, sort_events-IsAnswer, earlier_than-IsStrictWeak,
}
use data_exfiltration_detect.Process.TimelineEventHistory.{
  TimelineEventHistory, get_recent, newest, get_by_process_id, get_by_process_name,
}
use data_exfiltration_detect.Process.TimelineEventHistory.Queries.{IsRecent, newest-IsRecent}
use data_exfiltration_detect.Process.ProcessTimelineBuilder.{
  ProcessTimelineBuilder, build, get_process_timeline,
}
use data_exfiltration_detect.Process.ProcessTimelineBuilder.Laws.{
  build-global, timeline-build, of_process,
}
use data_exfiltration_detect.Process.TimelineQuery.{
  TimelineQuery, from_history, from_builder, matches_remote_destination, by_process_id,
  by_process_name, by_remote_destination, by_event_type, recent,
}

-- The test of a query by destination: an empty query matches nothing.
abbrev pub to_destination : Text → ProcessActivityEvent → Bool
to_destination query e = if is_empty query then false else matches_remote_destination e query

keep_if_none : (events : List ProcessActivityEvent) → keep_if (λ _. false) events ≡ []
keep_if_none [] = refl
keep_if_none (e ∷ events) = keep_if_none events

by_remote_destination-IsAnswer :
    (q : TimelineQuery) (query : Text)
    → IsAnswer (to_destination query) q.events (by_remote_destination q query)
unfolding by_remote_destination stable_sort
by_remote_destination-IsAnswer q [] =
    subst (IsAnswer (λ _. false) q.events) (ap sort_events (keep_if_none q.events))
      (sort_events-IsAnswer (λ _. false) q.events)
by_remote_destination-IsAnswer q (c ∷ query) =
    sort_events-IsAnswer (λ e. matches_remote_destination e (c ∷ query)) q.events

-- Each of the four filters answers exactly with the events that pass its test, each as often as
-- it is held, in chronological order.
pub by-IsAnswer :
    (q : TimelineQuery) (process_id : ℕ) (text : Text) (event_type : ProcessActivityEventType)
    → IsAnswer (λ e. e.process_id == process_id) q.events (by_process_id q process_id)
      × IsAnswer (λ e. text_equal e.process_name text) q.events (by_process_name q text)
      × IsAnswer (to_destination text) q.events (by_remote_destination q text)
      × IsAnswer
          (λ e. event_type_index e.event_type == event_type_index event_type)
          q.events
          (by_event_type q event_type)
unfolding by_process_id by_process_name by_event_type
by-IsAnswer q process_id text event_type = (
  sort_events-IsAnswer (λ e. e.process_id == process_id) q.events,
  sort_events-IsAnswer (λ e. text_equal e.process_name text) q.events,
  by_remote_destination-IsAnswer q text,
  sort_events-IsAnswer (λ e. event_type_index e.event_type == event_type_index event_type) q.events,
)

-- The recent events of a query, for every count, 0 meaning all.
pub recent-IsRecent : (q : TimelineQuery) (count : ℕ) → IsRecent count q.events (recent q count)
unfolding recent
recent-IsRecent q count = newest-IsRecent count q.events

sort_keep_sort :
    (test : ProcessActivityEvent → Bool) (events : List ProcessActivityEvent)
    → sort_events (keep_if test (sort_events events)) ≡ sort_events (keep_if test events)
sort_keep_sort test events =
    ap sort_events (filter-stable_sort earlier_than-IsStrictWeak (λ e. bool_dec (test e)) events)
    ∙ stable_sort_idem earlier_than-IsStrictWeak (keep_if test events)

-- A query over a history answers by process id, by name and by recency as the history itself
-- does.
pub query-from_history :
    (h : TimelineEventHistory) (process_id : ℕ) (process_name : Text) (count : ℕ)
    → (by_process_id (from_history h) process_id ≡ get_by_process_id h process_id)
      × (by_process_name (from_history h) process_name ≡ get_by_process_name h process_name)
      × (recent (from_history h) count ≡ get_recent h count)
unfolding by_process_id by_process_name recent from_history get_by_process_id get_by_process_name
    get_recent newest
query-from_history h process_id process_name count = (
  sort_keep_sort (λ e. e.process_id == process_id) h.events,
  sort_keep_sort (λ e. text_equal e.process_name process_name) h.events,
  ap (newest count) (stable_sort_idem earlier_than-IsStrictWeak h.events),
)

-- A query by process id over a built timeline gives the timeline of the process.
pub query-from_builder :
    (b : ProcessTimelineBuilder) (events : List ProcessActivityEvent) (process_id : ℕ)
    → by_process_id (from_builder (build b events)) process_id
      ≡ get_process_timeline (build b events) process_id
unfolding by_process_id from_builder
query-from_builder b events process_id =
    ap (λ t. sort_events (keep_if (of_process process_id) t)) (build-global b events)
    ∙ sort_keep_sort (of_process process_id) events
    ∙ sym (
        timeline-build b events process_id
        ∙ filter-stable_sort earlier_than-IsStrictWeak (λ e. bool_dec (of_process process_id e))
            events)
