-- ===== src/Process/ActivityReports/Laws.antt =====
-- ProcessActivitySummary.cpp over a summary that TimelineSummaryBuilder.cpp made.
use data_exfiltration_detect.Common.{ℕ, ◌-◌, ◌/◌, ◌≤◌, ◌≡◌, Mem, arith, subst}
use data_exfiltration_detect.Common.Text.{Text}
use data_exfiltration_detect.Common.Maps.{Visit}
use data_exfiltration_detect.Process.Types.{ProcessActivityEvent}
use data_exfiltration_detect.Process.TimelineSummaryBuilder.{
  ProcessActivitySummary, TimelineSummaryBuilder, for_process_id,
}
use data_exfiltration_detect.Process.TimelineSummaryBuilder.Laws.{Covers, for_process_id-Covers}
use data_exfiltration_detect.Process.ActivityReports.{active_duration}

quotient_mono : (a b n : ℕ) → a ≤ b → a / n ≤ b / n
quotient_mono a b n h = grind arith

-- The duration of a window is at least the time between two points in it.
active_duration-window :
    (ticks_per_second : ℕ) (s : ProcessActivitySummary) (a b : ℕ)
    → s.first_seen ≤ a
    → b ≤ s.last_seen
    → a ≤ b
    → (b - a) / ticks_per_second ≤ active_duration ticks_per_second s
unfolding active_duration
active_duration-window n s a b first last le =
    ground (arith, quotient_mono (b - a) (s.last_seen - s.first_seen) n (omega arith))

-- Between any two events of one process that a summary builder holds, no more whole seconds
-- passed than the active duration of the summary of that process, in whatever order the map of
-- destinations is visited.
pub active_duration-for_process_id :
    (ticks_per_second : ℕ) (order : Visit Text) (b : TimelineSummaryBuilder)
    (e later : ProcessActivityEvent)
    → Mem e b.events
    → Mem later b.events
    → later.process_id ≡ e.process_id
    → e.timestamp ≤ later.timestamp
    → (later.timestamp - e.timestamp) / ticks_per_second
      ≤ active_duration ticks_per_second (for_process_id order b e.process_id)
active_duration-for_process_id n order b e later here there same le =
    let s = for_process_id order b e.process_id in
    let window = for_process_id-Covers order b e here in
    let window' : Covers s e.process_id later.timestamp =
      subst (λ q. Covers (for_process_id order b q) q later.timestamp) same
        (for_process_id-Covers order b later there) in
    active_duration-window n s e.timestamp later.timestamp window.1 window'.2 le
