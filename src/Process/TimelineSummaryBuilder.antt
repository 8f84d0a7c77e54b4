-- ===== src/Process/TimelineSummaryBuilder.antt =====
-- src/process/tracker/TimelineSummaryBuilder.h and .cpp, with the record of
-- src/process/models/ProcessActivitySummary.h. The order in which the map of destinations is visited
-- is an argument; byte counts are added and multiplied below `2 ^ 64`.
pub mod Loops
pub mod Laws
pub mod Destinations
pub mod Volumes
pub mod Ranking
pub mod Activity
pub mod Orders
mod Tests
use mathlib.Core.List.{lookup}
use mathlib.Core.Option
use data_exfiltration_detect.Common.{
  ℕ, ◌+◌, ◌*◌, ◌%◌, ◌^◌, List, [], ◌∷◌, ◌++◌, foldl, map, Bool, true, false, not, ◌&&◌, ◌||◌,
  Option, none, some, ◌==◌, ltb, leb, if◌then◌else◌, length, is_empty, keep_if,
}
use data_exfiltration_detect.Common.Text.{Text, codes, text_discrete, text_equal}
use data_exfiltration_detect.Common.Maps.{Visit, contains, assign}
use data_exfiltration_detect.Common.Sorting.{stable_sort}
use data_exfiltration_detect.Process.Types.{
  ProcessActivityEvent, event_type_index, connection_opened, upload_activity, suspicious_activity,
}
use data_exfiltration_detect.Process.TimelineEventHistory.{TimelineEventHistory, get_recent}
use data_exfiltration_detect.Process.ProcessTimelineBuilder.{ProcessTimelineBuilder, group_events}
use data_exfiltration_detect.Process.TimelineSummaryBuilder.Loops.{
  DestinationStats, no_stats, is_more_active, Scan, grow, grow_destination, insert_remote,
  scan_event, start_scan, scan_events, start_ranking, rank,
}

pub record ProcessActivitySummary : Type 0 where
  pub process_id : ℕ
  pub process_name : Text
  pub first_seen : ℕ
  pub last_seen : ℕ
  pub remote_endpoint_count : ℕ
  pub connection_open_count : ℕ
  pub total_uploaded_bytes : ℕ
  pub total_downloaded_bytes : ℕ
  pub most_active_destination : Text
  pub behavior_hints : List Text

abbrev no_summary : ProcessActivitySummary
no_summary = record {
  process_id = 0;
  process_name = [];
  first_seen = 0;
  last_seen = 0;
  remote_endpoint_count = 0;
  connection_open_count = 0;
  total_uploaded_bytes = 0;
  total_downloaded_bytes = 0;
  most_active_destination = [];
  behavior_hints = [];
}

-- The hint about suspicious events, with the first description if there is one.
suspicious_hint : List Text → Text
suspicious_hint [] = codes "Timeline includes suspicious_activity observations."
suspicious_hint (description ∷ descriptions) =
    codes "Timeline includes suspicious_activity observations (" ++ (description ++ codes ").")

-- `if (condition) hints.push_back(hint)`.
hint_if : Bool → Text → List Text
hint_if true hint = hint ∷ []
hint_if false hint = []

unfoldable pub build_behavior_hints : ProcessActivitySummary → ℕ → ℕ → List Text → List Text
unfolding suspicious_hint hint_if
build_behavior_hints summary upload_event_count suspicious_event_count suspicious_descriptions =
    hint_if (leb 10485760 summary.total_uploaded_bytes)
      (codes "Elevated outbound transfer volume observed.")
    ++ (hint_if
          (ltb 0 summary.total_uploaded_bytes
            && leb (summary.total_downloaded_bytes * 5 % 2 ^ 64) summary.total_uploaded_bytes
            && leb 1048576 summary.total_uploaded_bytes)
          (codes "Outbound transfer is high relative to inbound traffic.")
        ++ (hint_if (leb 8 summary.remote_endpoint_count)
              (codes "Connected to many distinct remote endpoints.")
            ++ (hint_if (leb 5 upload_event_count)
                  (codes "Repeated upload activity observed over the timeline.")
                ++ hint_if (ltb 0 suspicious_event_count)
                    (suspicious_hint suspicious_descriptions))))

-- The summary of what the loops leave in their variables, with its hints.
unfoldable pub summarize_scan : Visit Text → Scan → ProcessActivitySummary
unfolding rank build_behavior_hints
summarize_scan order s =
    let ranking = rank start_ranking (order.visit s.by_destination) in
    let summary : ProcessActivitySummary = record {
      process_id = s.process_id;
      process_name = s.process_name;
      first_seen = s.first_seen;
      last_seen = s.last_seen;
      remote_endpoint_count = length s.remotes;
      connection_open_count = s.connection_open_count;
      total_uploaded_bytes = ranking.total_uploaded;
      total_downloaded_bytes = ranking.total_downloaded;
      most_active_destination = ranking.most_active_destination;
      behavior_hints = [];
    } in
    record summary {
      behavior_hints =
          build_behavior_hints summary s.upload_event_count s.suspicious_event_count
            s.suspicious_descriptions;
    }

unfoldable pub summarize : Visit Text → List ProcessActivityEvent → ProcessActivitySummary
unfolding summarize_scan scan_events start_scan
summarize order [] = no_summary
summarize order (event ∷ events) =
    summarize_scan order (scan_events (start_scan event) (event ∷ events))

pub record TimelineSummaryBuilder : Type 0 where
  pub events : List ProcessActivityEvent

-- The constructors from a history and from a builder, and `setEvents`.
unfoldable pub from_history : TimelineEventHistory → TimelineSummaryBuilder
from_history h = record { events = get_recent h 0 }

unfoldable pub from_builder : ProcessTimelineBuilder → TimelineSummaryBuilder
from_builder b = record { events = b.global_timeline }

unfoldable pub set_events :
    TimelineSummaryBuilder → List ProcessActivityEvent → TimelineSummaryBuilder
set_events b events = record { events = events }

unfoldable pub for_process_id : Visit Text → TimelineSummaryBuilder → ℕ → ProcessActivitySummary
unfolding summarize
for_process_id order b process_id =
    summarize order (keep_if (λ (e : ProcessActivityEvent). e.process_id == process_id) b.events)

unfoldable pub for_process_name :
    Visit Text → TimelineSummaryBuilder → Text → ProcessActivitySummary
unfolding summarize text_equal
for_process_name order b process_name =
    summarize order
      (keep_if (λ (e : ProcessActivityEvent). text_equal e.process_name process_name) b.events)

-- A `std::map` from process ids visits them in increasing order.
unfoldable pub for_all_processes : Visit Text → TimelineSummaryBuilder → List ProcessActivitySummary
unfolding summarize group_events stable_sort
for_all_processes order b =
    map (λ (entry : ℕ × List ProcessActivityEvent). summarize order entry.1)
      (stable_sort
        (λ (x : ℕ × List ProcessActivityEvent) (y : ℕ × List ProcessActivityEvent). ltb x.0 y.0)
        (group_events [] b.events))

unfoldable pub event_count : TimelineSummaryBuilder → ℕ
event_count b = length b.events
