-- ===== src/Process/ProcessTimelineBuilder/Laws.antt =====
-- ProcessTimelineBuilder.cpp: the global timeline and those of the processes.
use mathlib.Core.List.{append-nil, append_assoc}
use data_exfiltration_detect.Common.{
  ℕ, ◌≡◌, refl, sym, ◌∙◌, ap, List, [], ◌∷◌, ◌++◌, Perm, Bool, arith, ◌==◌, keep_if, ℕ_discrete,
}
use data_exfiltration_detect.Common.Maps.{bucket, push_back, bucket-push_back}
use data_exfiltration_detect.Common.Sorting.{stable_sort, stable_sort-IsSortedBy, stable_sort-perm}
use data_exfiltration_detect.Process.Types.{ProcessActivityEvent}
use data_exfiltration_detect.Process.Ordering.{
  earlier_than, sort_events, IsChronological, earlier_than-IsStrictWeak,
}
use data_exfiltration_detect.Process.ProcessTimelineBuilder.{
  ProcessTimelineBuilder, group_events, build, get_process_timeline,
}

-- The event is of the process.
abbrev pub of_process : ℕ → ProcessActivityEvent → Bool
of_process q e = e.process_id == q

bucket-group_events :
    (q : ℕ) (m : List (ℕ × List ProcessActivityEvent)) (events : List ProcessActivityEvent)
    → bucket ℕ_discrete q (group_events m events)
      ≡ bucket ℕ_discrete q m ++ keep_if (of_process q) events
unfolding group_events
bucket-group_events q m [] = sym (append-nil _)
bucket-group_events q m (e ∷ events) =
    bucket-group_events q (push_back ℕ_discrete e.process_id e m) events
    ∙ ground (
      arith,
      bucket-push_back ℕ_discrete q e.process_id e m,
      append_assoc (bucket ℕ_discrete e.process_id m) (e ∷ []) (keep_if (of_process q) events),
    )

pub build-global :
    (b : ProcessTimelineBuilder) (events : List ProcessActivityEvent)
    → (build b events).global_timeline ≡ sort_events events
unfolding build stable_sort
build-global b [] = refl
build-global b (e ∷ events) = refl

pub timeline-build :
    (b : ProcessTimelineBuilder) (events : List ProcessActivityEvent) (q : ℕ)
    → get_process_timeline (build b events) q ≡ keep_if (of_process q) (sort_events events)
unfolding build get_process_timeline stable_sort
timeline-build b [] q = refl
timeline-build b (e ∷ events) q = bucket-group_events q [] (sort_events (e ∷ events))

-- The global timeline is a chronological arrangement of the given events, and the timeline of
-- each process is the part of it with that process id, whatever the builder held before.
pub build_lem :
    (b : ProcessTimelineBuilder) (events : List ProcessActivityEvent)
    → let r = build b events in
      IsChronological r.global_timeline
      × Perm r.global_timeline events
      × ((q : ℕ) → get_process_timeline r q ≡ keep_if (of_process q) r.global_timeline)
build_lem b events = (
  rw (build-global b events) (stable_sort-IsSortedBy earlier_than-IsStrictWeak events),
  rw (build-global b events) (stable_sort-perm earlier_than events),
  λ q. timeline-build b events q ∙ ap (keep_if (of_process q)) (sym (build-global b events)),
)
