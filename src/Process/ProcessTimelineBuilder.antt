-- ===== src/Process/ProcessTimelineBuilder.antt =====
-- src/process/tracker/ProcessTimelineBuilder.h and .cpp. The print of a time of day, which the C
-- library makes, and that of a byte count, which is made in floating point, are parameters of the
-- formatting functions.
pub mod Laws
mod Tests
use data_exfiltration_detect.Common.{ℕ, List, [], ◌∷◌, ◌++◌, if◌then◌else◌, is_empty, ℕ_discrete}
use data_exfiltration_detect.Common.Text.{Text, codes}
use data_exfiltration_detect.Common.Maps.{Visit, bucket, push_back}
use data_exfiltration_detect.Process.TimelineEventCollector.{TimelineEventCollector, get_all_events}
use data_exfiltration_detect.Process.Types.{
  ProcessActivityEvent, process_seen, connection_opened, upload_activity, download_activity,
  connection_closed, suspicious_activity,
}
use data_exfiltration_detect.Process.Ordering.{sort_events}

pub record ProcessTimelineBuilder : Type 0 where
  pub global_timeline : List ProcessActivityEvent
  pub process_timelines : List (ℕ × List ProcessActivityEvent)

unfoldable pub reset : ProcessTimelineBuilder → ProcessTimelineBuilder
reset b = record { global_timeline = []; process_timelines = [] }

-- The loop that pushes each event to the timeline of its process.
unfoldable pub group_events :
    List (ℕ × List ProcessActivityEvent)
    → List ProcessActivityEvent
    → List (ℕ × List ProcessActivityEvent)
unfolding push_back ℕ_discrete
group_events timelines [] = timelines
group_events timelines (e ∷ events) =
    group_events (push_back ℕ_discrete e.process_id e timelines) events

unfoldable pub build : ProcessTimelineBuilder → List ProcessActivityEvent → ProcessTimelineBuilder
unfolding reset
build b events =
    let sorted = sort_events events in
    if is_empty events
    then reset b
    else record { global_timeline = sorted; process_timelines = group_events [] sorted }

-- `build` from all that a collector holds.
unfoldable pub build_collected :
    Visit ℕ → ProcessTimelineBuilder → TimelineEventCollector → ProcessTimelineBuilder
unfolding build get_all_events
build_collected order b collector = build b (get_all_events order collector)

unfoldable pub get_process_timeline : ProcessTimelineBuilder → ℕ → List ProcessActivityEvent
unfolding bucket ℕ_discrete
get_process_timeline b process_id = bucket ℕ_discrete process_id b.process_timelines

module _ (format_time : ℕ → Text) (format_bytes : ℕ → Text) where
  unfoldable pub format_summary : ProcessActivityEvent → Text
  format_summary e = elim e.event_type [
    | process_seen ↦ codes "Process Seen"
    | connection_opened ↦
        if is_empty e.remote_address
        then codes "Connected"
        else codes "Connected to " ++ e.remote_address
    | upload_activity ↦ codes "Upload Activity: " ++ format_bytes e.uploaded_bytes
    | download_activity ↦ codes "Download Activity: " ++ format_bytes e.downloaded_bytes
    | connection_closed ↦
        if is_empty e.remote_address
        then codes "Connection Closed"
        else codes "Disconnected from " ++ e.remote_address
    | suspicious_activity ↦
        if is_empty e.description then codes "Suspicious Activity" else e.description
  ]

  unfoldable pub format_entry : ProcessActivityEvent → Text
  unfolding format_summary
  format_entry e =
      let label = (if is_empty e.process_name then codes "Unknown" else e.process_name) in
      format_time e.timestamp ++ (codes " | " ++ (label ++ (codes " | " ++ format_summary e)))

  unfoldable pub format_lines : List ProcessActivityEvent → Text
  unfolding format_entry
  format_lines [] = []
  format_lines (e ∷ []) = format_entry e
  format_lines (e ∷ f ∷ events) = format_entry e ++ 10 ∷ format_lines (f ∷ events)

  unfoldable pub format_global_timeline : ProcessTimelineBuilder → Text
  unfolding format_lines
  format_global_timeline b = format_lines b.global_timeline

  unfoldable pub format_process_timeline : ProcessTimelineBuilder → ℕ → Text
  unfolding format_lines get_process_timeline
  format_process_timeline b process_id = format_lines (get_process_timeline b process_id)
