-- ===== src/Process/TimelineEventHistory/Queries.antt =====
-- TimelineEventHistory.cpp: what the queries answer.
use data_exfiltration_detect.Common.{
  ℕ, zero, suc, ◌-◌, ◌≡◌, List, ◌||◌, arith, leb, ◌==◌, length, length-drop, drop, Bool-cases, inl,
  inr, if◌then◌else◌, min,
}
use mathlib.Core.List.{[], ◌∷◌, Pairwise}
use data_exfiltration_detect.Common.Text.{Text, text_equal}
use data_exfiltration_detect.Common.Sorting.{length-stable_sort, stable_sort-IsSortedBy}
use data_exfiltration_detect.Process.Types.{ProcessActivityEvent}
use data_exfiltration_detect.Process.Ordering.{
  earlier_than, sort_events, IsChronological, IsAnswer, earlier_than-IsStrictWeak,
  sort_events-IsAnswer,
}
use data_exfiltration_detect.Process.TimelineEventHistory.Retention.{IsNewest, drop-IsNewest}
use data_exfiltration_detect.Process.TimelineEventHistory.{
  TimelineEventHistory, get_by_process_id, get_by_process_name, get_recent, newest,
}

-- Both lookups answer exactly with the held events of the process, in chronological order.
pub get_by_process-IsAnswer :
    (h : TimelineEventHistory) (process_id : ℕ) (process_name : Text)
    → IsAnswer (λ e. e.process_id == process_id) h.events (get_by_process_id h process_id)
      × IsAnswer
          (λ e. text_equal e.process_name process_name)
          h.events
          (get_by_process_name h process_name)
unfolding get_by_process_id get_by_process_name
get_by_process-IsAnswer h process_id process_name = (
  sort_events-IsAnswer (λ e. e.process_id == process_id) h.events,
  sort_events-IsAnswer (λ e. text_equal e.process_name process_name) h.events,
)

-- The answer is chronological, of the newest events, and as long as the limit allows.
pub record IsRecent (limit : ℕ) (held answer : List ProcessActivityEvent) : Type 0 where
  pub chronological : IsChronological answer
  pub newest_part : IsNewest held answer
  pub full : length answer ≡ (if limit == 0 then length held else min limit (length held))

drop-IsChronological :
    (n : ℕ) (events : List ProcessActivityEvent)
    → IsChronological events
    → IsChronological (drop n events)
drop-IsChronological zero events s = s
drop-IsChronological (suc n) [] s = s
drop-IsChronological (suc n) (x ∷ events) (Pairwise.cons h s) = drop-IsChronological n events s

newest-drop :
    (limit : ℕ) (events : List ProcessActivityEvent)
    → newest limit events ≡ drop (if limit == 0 then 0 else length events - limit) events
unfolding newest
newest-drop limit events = elim (Bool-cases (limit == 0 || leb (length events) limit)) [
  | inl whole ↦
      let none_dropped : (if limit == 0 then 0 else length events - limit) ≡ 0 = ground arith in
      rw (whole, none_dropped)
  | inr part ↦ rw part (ground arith)
]

-- For every limit, 0 meaning none: the newest events in chronological order.
pub newest-IsRecent :
    (limit : ℕ) (held : List ProcessActivityEvent)
    → IsRecent limit held (newest limit (sort_events held))
newest-IsRecent limit held =
    let sorted = sort_events held in
    let n : ℕ = if limit == 0 then 0 else length sorted - limit in
    rw (newest-drop limit sorted) (record {
      chronological =
          drop-IsChronological n sorted (stable_sort-IsSortedBy earlier_than-IsStrictWeak held);
      newest_part = drop-IsNewest n held;
      full = ground (arith, length-drop n sorted, length-stable_sort earlier_than held);
    })

-- For every limit, 0 meaning none, getRecent answers with the newest events in chronological
-- order.
pub get_recent-IsRecent :
    (h : TimelineEventHistory) (limit : ℕ) → IsRecent limit h.events (get_recent h limit)
unfolding get_recent
get_recent-IsRecent h limit = newest-IsRecent limit h.events
