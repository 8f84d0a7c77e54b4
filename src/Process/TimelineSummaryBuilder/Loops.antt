-- ===== src/Process/TimelineSummaryBuilder/Loops.antt =====
-- The loops of `summarize` of TimelineSummaryBuilder.cpp: over the events, and over the map of
-- destinations. Byte counts are added below `2 ^ 64`.
use mathlib.Core.List.{lookup}
use mathlib.Core.Option
use data_exfiltration_detect.Common.{
  ℕ, ◌+◌, ◌%◌, ◌^◌, List, [], ◌∷◌, ◌++◌, Bool, not, ◌&&◌, ◌||◌, ◌==◌, ltb, if◌then◌else◌, is_empty,
}
use data_exfiltration_detect.Common.Text.{Text, text_discrete}
use data_exfiltration_detect.Common.Maps.{contains, assign}
use data_exfiltration_detect.Process.Types.{
  ProcessActivityEvent, event_type_index, connection_opened, upload_activity, suspicious_activity,
}

pub record DestinationStats : Type 0 where
  pub uploaded_bytes : ℕ
  pub downloaded_bytes : ℕ
  pub event_count : ℕ

abbrev pub no_stats : DestinationStats
no_stats = record { uploaded_bytes = 0; downloaded_bytes = 0; event_count = 0 }

unfoldable pub is_more_active : DestinationStats → DestinationStats → Bool
is_more_active left right =
    let left_total = (left.uploaded_bytes + left.downloaded_bytes) % 2 ^ 64 in
    let right_total = (right.uploaded_bytes + right.downloaded_bytes) % 2 ^ 64 in
    if not (left_total == right_total)
    then ltb right_total left_total
    else if not (left.uploaded_bytes == right.uploaded_bytes)
    then ltb right.uploaded_bytes left.uploaded_bytes
    else ltb right.event_count left.event_count

-- The local variables of the loop over the events.
pub record Scan : Type 0 where
  pub process_id : ℕ
  pub process_name : Text
  pub first_seen : ℕ
  pub last_seen : ℕ
  pub remotes : List Text
  pub connection_open_count : ℕ
  pub upload_event_count : ℕ
  pub suspicious_event_count : ℕ
  pub suspicious_descriptions : List Text
  pub by_destination : List (Text × DestinationStats)

-- The peak of what was observed of a destination.
unfoldable pub grow : DestinationStats → ProcessActivityEvent → DestinationStats
grow stats event = record {
  uploaded_bytes =
      if ltb stats.uploaded_bytes event.uploaded_bytes
      then event.uploaded_bytes
      else stats.uploaded_bytes;
  downloaded_bytes =
      if ltb stats.downloaded_bytes event.downloaded_bytes
      then event.downloaded_bytes
      else stats.downloaded_bytes;
  event_count = stats.event_count + 1;
}

-- What the loop keeps of the destinations: the map after an event.
unfoldable pub grow_destination :
    List (Text × DestinationStats) → ProcessActivityEvent → List (Text × DestinationStats)
unfolding grow assign lookup text_discrete
grow_destination m event =
    if is_empty event.remote_address
    then m
    else assign text_discrete event.remote_address
        (grow (Option.get_or (lookup text_discrete event.remote_address m) no_stats) event) m

unfoldable pub insert_remote : List Text → Text → List Text
unfolding contains text_discrete
insert_remote remotes address =
    if is_empty address || contains text_discrete address remotes
    then remotes
    else address ∷ remotes

-- One turn of the loop over the events.
unfoldable pub scan_event : Scan → ProcessActivityEvent → Scan
unfolding event_type_index grow_destination insert_remote
scan_event s event =
    let kind = event_type_index event.event_type in
    record {
      process_id = event.process_id;
      process_name =
          if is_empty s.process_name && not (is_empty event.process_name)
          then event.process_name
          else s.process_name;
      first_seen = if ltb event.timestamp s.first_seen then event.timestamp else s.first_seen;
      last_seen = if ltb s.last_seen event.timestamp then event.timestamp else s.last_seen;
      remotes = insert_remote s.remotes event.remote_address;
      connection_open_count =
          if kind == event_type_index connection_opened
          then s.connection_open_count + 1
          else s.connection_open_count;
      upload_event_count =
          if kind == event_type_index upload_activity
          then s.upload_event_count + 1
          else s.upload_event_count;
      suspicious_event_count =
          if kind == event_type_index suspicious_activity
          then s.suspicious_event_count + 1
          else s.suspicious_event_count;
      suspicious_descriptions =
          if kind == event_type_index suspicious_activity && not (is_empty event.description)
          then s.suspicious_descriptions ++ event.description ∷ []
          else s.suspicious_descriptions;
      by_destination = grow_destination s.by_destination event;
    }

-- The local variables before the loop, from the first event.
unfoldable pub start_scan : ProcessActivityEvent → Scan
start_scan event = record {
  process_id = event.process_id;
  process_name = event.process_name;
  first_seen = event.timestamp;
  last_seen = event.timestamp;
  remotes = [];
  connection_open_count = 0;
  upload_event_count = 0;
  suspicious_event_count = 0;
  suspicious_descriptions = [];
  by_destination = [];
}

unfoldable pub scan_events : Scan → List ProcessActivityEvent → Scan
unfolding scan_event
scan_events s [] = s
scan_events s (event ∷ events) = scan_events (scan_event s event) events

-- The local variables of the loop over the destinations.
pub record Ranking : Type 0 where
  pub total_uploaded : ℕ
  pub total_downloaded : ℕ
  pub most_active_destination : Text
  pub best_stats : DestinationStats

abbrev pub start_ranking : Ranking
start_ranking = record {
  total_uploaded = 0;
  total_downloaded = 0;
  most_active_destination = [];
  best_stats = no_stats;
}

unfoldable pub rank : Ranking → List (Text × DestinationStats) → Ranking
unfolding is_more_active
rank r [] = r
rank r ((destination, stats) ∷ destinations) =
    let better = is_empty r.most_active_destination || is_more_active stats r.best_stats in
    rank
      (record {
        total_uploaded = (r.total_uploaded + stats.uploaded_bytes) % 2 ^ 64;
        total_downloaded = (r.total_downloaded + stats.downloaded_bytes) % 2 ^ 64;
        most_active_destination = if better then destination else r.most_active_destination;
        best_stats = if better then stats else r.best_stats;
      })
      destinations
