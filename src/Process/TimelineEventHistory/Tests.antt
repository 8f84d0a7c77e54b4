-- ===== src/Process/TimelineEventHistory/Tests.antt =====
-- A history of two events at most, and of 150 ticks of age.
use data_exfiltration_detect.Common.{◌≡◌, refl, ◌↔◌, List, [], ◌∷◌, Mem, length, min}
use data_exfiltration_detect.Common.Sorting.{stable_sort}
use data_exfiltration_detect.Process.Types.{ProcessActivityEvent}
use data_exfiltration_detect.Process.Ordering.{earlier_than}
use data_exfiltration_detect.Process.Samples.{late, middle, mixed}
use data_exfiltration_detect.Process.TimelineEventHistory.{
  TimelineEventHistory, drop_overflow, drop_stale, new_history, cleanup,
}
use data_exfiltration_detect.Process.TimelineEventHistory.Laws.{
  adds_all, sets_max_events, run, IsBounded, run-new_history-IsBounded,
}
use data_exfiltration_detect.Process.TimelineEventHistory.Retention.{
  IsNewest, IsCurrent, cleanup-IsNewest,
}

abbrev held : TimelineEventHistory
held = record { max_events = 2; max_age = 150; events = mixed }

keeps_newest : (cleanup 240 held).0.events ≡ middle ∷ late ∷ []
unfolding cleanup drop_overflow drop_stale stable_sort earlier_than
keeps_newest = refl

drops_stale : (cleanup 400 held).0.events ≡ late ∷ []
unfolding cleanup drop_overflow drop_stale stable_sort earlier_than
drops_stale = refl

run-new_history-IsBounded_example :
    IsBounded (run (new_history 0 150) ((240, adds_all mixed) ∷ (250, sets_max_events 2) ∷ []))
run-new_history-IsBounded_example =
    run-new_history-IsBounded 0 150 ((240, adds_all mixed) ∷ (250, sets_max_events 2) ∷ [])

cleanup-IsNewest_example :
    (current : List ProcessActivityEvent) × ((e : ProcessActivityEvent)
      → Mem e current ↔ (Mem e held.events × IsCurrent 240 held e))
    × IsNewest current (cleanup 240 held).0.events
    × (length (cleanup 240 held).0.events ≡ min 2 (length current))
cleanup-IsNewest_example = cleanup-IsNewest 240 held
