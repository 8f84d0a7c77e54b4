-- ===== src/Process/ProcessTimelineBuilder/Tests.antt =====
-- A timeline of three events.
use data_exfiltration_detect.Common.{ℕ, ◌≡◌, refl, [], ◌∷◌, Perm, keep_if}
use data_exfiltration_detect.Common.Sorting.{stable_sort}
use data_exfiltration_detect.Process.Ordering.{IsChronological, earlier_than}
use data_exfiltration_detect.Process.Samples.{late, early, middle, mixed}
use data_exfiltration_detect.Process.ProcessTimelineBuilder.{
  ProcessTimelineBuilder, build, get_process_timeline,
}
use data_exfiltration_detect.Process.ProcessTimelineBuilder.Laws.{of_process, build_lem}

abbrev builder : ProcessTimelineBuilder
builder = record { global_timeline = late ∷ []; process_timelines = [] }

sorts : (build builder mixed).global_timeline ≡ early ∷ middle ∷ late ∷ []
unfolding build stable_sort earlier_than
sorts = refl

build_lem_example :
    let r = build builder mixed in
    IsChronological r.global_timeline
    × Perm r.global_timeline mixed
    × ((q : ℕ) → get_process_timeline r q ≡ keep_if (of_process q) r.global_timeline)
build_lem_example = build_lem builder mixed
