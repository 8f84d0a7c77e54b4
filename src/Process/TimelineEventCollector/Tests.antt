-- ===== src/Process/TimelineEventCollector/Tests.antt =====
-- A collector that is fed with one process, one connection that opens twice, and its transfers.
use data_exfiltration_detect.Common.{ℕ, ◌≡◌, refl, List, [], ◌∷◌, true}
use data_exfiltration_detect.Common.Text.{codes}
use data_exfiltration_detect.Common.Maps.{in_order}
use data_exfiltration_detect.Network.Types.{
  Connection, ConnectionState, ProtocolType, ConnectionEvent, ConnectionEventType,
}
use data_exfiltration_detect.Network.TransferStats.{ConnectionUploadStats}
use data_exfiltration_detect.Process.Types.{
  ProcessInfo, ProcessStatus, ProcessEvent, ProcessEventType,
}
use data_exfiltration_detect.Process.Ordering.{sort_events}
use data_exfiltration_detect.Process.ProcessTimelineBuilder.{
  ProcessTimelineBuilder, build_collected, get_process_timeline,
}
use data_exfiltration_detect.Process.TimelineEventCollector.{
  TimelineEventCollector, reset, collect, collect_connection_events, get_events_for_process,
}
use data_exfiltration_detect.Process.TimelineEventCollector.Deduplication.{
  collect_again, collect_connection_events_repeated,
}
use data_exfiltration_detect.Process.TimelineEventCollector.Timelines.{timeline_of_collected}
use data_exfiltration_detect.Process.TimelineEventCollector.Grouping.{
  IsValid, Operation, collects, run, run-reset-IsValid,
}

abbrev empty : TimelineEventCollector
empty = record { events_by_process = []; seen_event_keys = [] }

abbrev shell : ProcessInfo
shell = record {
  process_id = 7;
  process_name = codes "sh";
  parent_process_id = 1;
  status = ProcessStatus.running;
}

abbrev connection : Connection
connection = record {
  process_id = 7;
  local_address = codes "10.0.0.5";
  local_port = 50000;
  remote_address = codes "1.1.1.1";
  remote_port = 443;
  protocol = ProtocolType.tcp;
  state = ConnectionState.established;
  timestamp = 100;
}

abbrev opened_at : ℕ → ConnectionEvent
opened_at time = record {
  type = ConnectionEventType.created;
  connection = connection;
  timestamp = time;
}

abbrev started : List ProcessEvent
started = record { type = ProcessEventType.created; process_info = shell; timestamp = 90 } ∷ []

abbrev opened : List ConnectionEvent
opened = opened_at 100 ∷ opened_at 200 ∷ []

abbrev uploads : List ConnectionUploadStats
uploads =
    record {
      process_id = 7;
      process_name = codes "sh";
      remote_address = codes "1.1.1.1";
      remote_port = 443;
      protocol = ProtocolType.tcp;
      uploaded_bytes = 10;
      first_observed = 100;
      last_updated = 300;
      is_active = true;
    }
    ∷ []

abbrev known : List (ℕ × ProcessInfo)
known = (7, shell) ∷ []

abbrev operations : List Operation
operations = collects started opened uploads [] known ∷ []

abbrev collected : TimelineEventCollector
collected = run (reset empty) operations

collect_again_example :
    let r = collect empty started opened uploads [] known in
    collect r.0 started opened uploads [] known ≡ (r.0, 0)
collect_again_example = collect_again empty started opened uploads [] known

collect_connection_events_repeated_example :
    let r = collect_connection_events empty (opened_at 100 ∷ []) known in
    collect_connection_events r.0 (opened_at 200 ∷ []) known ≡ (r.0, 0)
collect_connection_events_repeated_example =
    collect_connection_events_repeated empty (opened_at 100) (opened_at 200) [] known known refl
      (refl, refl, refl, refl, refl, refl)

run-reset-IsValid_example : IsValid (run (reset empty) operations)
run-reset-IsValid_example = run-reset-IsValid empty operations

abbrev builder : ProcessTimelineBuilder
builder = record { global_timeline = []; process_timelines = [] }

timeline_of_collected_example :
    get_process_timeline (build_collected in_order builder collected) 7
    ≡ sort_events (get_events_for_process collected 7)
timeline_of_collected_example =
    timeline_of_collected in_order collected builder 7 (run-reset-IsValid empty operations)
