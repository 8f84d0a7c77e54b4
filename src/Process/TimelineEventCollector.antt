-- ===== src/Process/TimelineEventCollector.antt =====
-- src/process/tracker/TimelineEventCollector.h and .cpp. A collection returns the collector beside
-- the number of events that it stored.
pub mod Laws
pub mod Deduplication
pub mod Grouping
pub mod Timelines
mod Tests
use mathlib.Core.List.{lookup}
use data_exfiltration_detect.Common.{
  ℕ, ◌+◌, List, [], ◌∷◌, ◌++◌, Bool, true, false, Option, none, some, ◌==◌, if◌then◌else◌, length,
  is_empty, ℕ_discrete,
}
use data_exfiltration_detect.Common.Text.{Text, codes, text_discrete, to_decimal}
use data_exfiltration_detect.Common.Maps.{Visit, contains, bucket, push_back}
use data_exfiltration_detect.Network.Types.{
  Connection, ConnectionEvent, ConnectionEventType, ProtocolType, protocol_index,
}
use data_exfiltration_detect.Network.TransferStats.{ConnectionUploadStats, ConnectionDownloadStats}
use data_exfiltration_detect.Network.NetworkUtils.Addresses.{has_remote_port}
use data_exfiltration_detect.Process.Types.{
  ProcessInfo, ProcessEvent, ProcessEventType, ProcessActivityEvent, ProcessActivityEventType,
  process_seen, connection_opened, connection_closed, upload_activity, download_activity,
  event_type_to_string, default_description,
}

pub record TimelineEventCollector : Type 0 where
  pub events_by_process : List (ℕ × List ProcessActivityEvent)
  pub seen_event_keys : List Text

unfoldable pub reset : TimelineEventCollector → TimelineEventCollector
reset c = record { events_by_process = []; seen_event_keys = [] }

unfoldable pub try_add :
    TimelineEventCollector → ProcessActivityEvent → Text → TimelineEventCollector × Bool
unfolding contains text_discrete push_back ℕ_discrete
try_add c event dedupe_key =
    if contains text_discrete dedupe_key c.seen_event_keys then (c, false) else (
      record {
        events_by_process = push_back ℕ_discrete event.process_id event c.events_by_process;
        seen_event_keys = dedupe_key ∷ c.seen_event_keys;
      },
      true,
    )

unfoldable pub format_endpoint : Text → ℕ → Text
unfolding has_remote_port to_decimal
format_endpoint address port =
    if is_empty address
    then []
    else if has_remote_port port
    then address ++ b':' ∷ to_decimal port
    else address

process_name_of : Option ProcessInfo → Text
process_name_of none = []
process_name_of (some info) = info.process_name

unfoldable pub resolve_process_name : ℕ → Text → List (ℕ × ProcessInfo) → Text
unfolding lookup ℕ_discrete process_name_of
resolve_process_name process_id preferred_name process_lookup =
    if is_empty preferred_name
    then process_name_of (lookup ℕ_discrete process_id process_lookup)
    else preferred_name

unfoldable pub make_process_seen_key : ℕ → Text
unfolding to_decimal
make_process_seen_key process_id = codes "process_seen|" ++ to_decimal process_id

unfoldable pub make_connection_key : ProcessActivityEventType → Connection → Text
unfolding event_type_to_string to_decimal protocol_index
make_connection_key type c =
    event_type_to_string type
    ++ b'|'
      ∷ (to_decimal c.process_id
          ++ b'|'
            ∷ (to_decimal (protocol_index c.protocol)
                ++ b'|'
                  ∷ (c.local_address
                      ++ b'|'
                        ∷ (to_decimal c.local_port
                            ++ b'|' ∷ (c.remote_address ++ b'|' ∷ to_decimal c.remote_port)))))

-- The tail that the keys of uploads and downloads share.
abbrev transfer_key : ℕ → ProtocolType → Text → ℕ → ℕ → Text
transfer_key process_id protocol remote_address remote_port bytes =
    to_decimal process_id
    ++ b'|'
      ∷ (to_decimal (protocol_index protocol)
          ++ b'|' ∷ (remote_address ++ b'|' ∷ (to_decimal remote_port ++ b'|' ∷ to_decimal bytes)))

unfoldable pub make_upload_key : ConnectionUploadStats → Text
unfolding to_decimal protocol_index
make_upload_key s =
    codes "upload_activity|"
    ++ transfer_key s.process_id s.protocol s.remote_address s.remote_port s.uploaded_bytes

unfoldable pub make_download_key : ConnectionDownloadStats → Text
unfolding to_decimal protocol_index
make_download_key s =
    codes "download_activity|"
    ++ transfer_key s.process_id s.protocol s.remote_address s.remote_port s.downloaded_bytes

-- What one turn of a collecting loop does with its row: nothing, where the loop continues, or it
-- tries to add an activity under a key.
abbrev pub Turn : Type 0 → Type 0
Turn R = R → Option (Text × ProcessActivityEvent)

-- The loop: every turn, and the number of activities that were added.
unfoldable pub collect_rows :
    {R : Type 0} → Turn R → TimelineEventCollector → List R → TimelineEventCollector × ℕ
collect_rows turn c [] = (c, 0)
collect_rows turn c (row ∷ rows) = elim (turn row) [
  | none ↦ collect_rows turn c rows
  | some (key, activity) ↦
      let tried = try_add c activity key in
      let rest = collect_rows turn tried.0 rows in (rest.0, (if tried.1 then 1 else 0) + rest.1)
]

-- The activity of a process that was seen.
unfoldable pub seen_activity : ℕ → ProcessInfo → ProcessActivityEvent
unfolding default_description
seen_activity timestamp info = record {
  timestamp = timestamp;
  process_id = info.process_id;
  process_name = info.process_name;
  event_type = process_seen;
  local_address = [];
  remote_address = [];
  protocol = ProtocolType.unknown;
  uploaded_bytes = 0;
  downloaded_bytes = 0;
  description = default_description process_seen;
}

unfoldable pub process_turn : Turn ProcessEvent
unfolding make_process_seen_key seen_activity
process_turn event = elim event.type [
  | ProcessEventType.created ↦ some (
    make_process_seen_key event.process_info.process_id,
    seen_activity event.timestamp event.process_info,
  )
  | ProcessEventType.terminated ↦ none
]

-- A turn for a process of a snapshot that was taken at one time.
unfoldable pub active_turn : ℕ → Turn ProcessInfo
unfolding make_process_seen_key seen_activity
active_turn now info = some (make_process_seen_key info.process_id, seen_activity now info)

unfoldable pub activity_type : ConnectionEventType → ProcessActivityEventType
activity_type ConnectionEventType.created = connection_opened
activity_type ConnectionEventType.closed = connection_closed

unfoldable pub connection_activity : List (ℕ × ProcessInfo) → ConnectionEvent → ProcessActivityEvent
unfolding activity_type resolve_process_name format_endpoint default_description
connection_activity process_lookup event =
    let c = event.connection in
    record {
      timestamp = event.timestamp;
      process_id = c.process_id;
      process_name = resolve_process_name c.process_id [] process_lookup;
      event_type = activity_type event.type;
      local_address = format_endpoint c.local_address c.local_port;
      remote_address = format_endpoint c.remote_address c.remote_port;
      protocol = c.protocol;
      uploaded_bytes = 0;
      downloaded_bytes = 0;
      description = default_description (activity_type event.type);
    }

unfoldable pub connection_turn : List (ℕ × ProcessInfo) → Turn ConnectionEvent
unfolding activity_type make_connection_key connection_activity
connection_turn process_lookup event = some (
  make_connection_key (activity_type event.type) event.connection,
  connection_activity process_lookup event,
)

unfoldable pub upload_activity_of : ConnectionUploadStats → ProcessActivityEvent
unfolding format_endpoint default_description
upload_activity_of entry = record {
  timestamp = entry.last_updated;
  process_id = entry.process_id;
  process_name = entry.process_name;
  event_type = upload_activity;
  local_address = [];
  remote_address = format_endpoint entry.remote_address entry.remote_port;
  protocol = entry.protocol;
  uploaded_bytes = entry.uploaded_bytes;
  downloaded_bytes = 0;
  description = default_description upload_activity;
}

unfoldable pub upload_turn : Turn ConnectionUploadStats
unfolding make_upload_key upload_activity_of
upload_turn entry =
    if entry.uploaded_bytes == 0
    then none
    else some (make_upload_key entry, upload_activity_of entry)

unfoldable pub download_activity_of : ConnectionDownloadStats → ProcessActivityEvent
unfolding format_endpoint default_description
download_activity_of entry = record {
  timestamp = entry.last_updated;
  process_id = entry.process_id;
  process_name = entry.process_name;
  event_type = download_activity;
  local_address = [];
  remote_address = format_endpoint entry.remote_address entry.remote_port;
  protocol = entry.protocol;
  uploaded_bytes = 0;
  downloaded_bytes = entry.downloaded_bytes;
  description = default_description download_activity;
}

unfoldable pub download_turn : Turn ConnectionDownloadStats
unfolding make_download_key download_activity_of
download_turn entry =
    if entry.downloaded_bytes == 0
    then none
    else some (make_download_key entry, download_activity_of entry)

unfoldable pub collect_process_events :
    TimelineEventCollector → List ProcessEvent → TimelineEventCollector × ℕ
collect_process_events c events = collect_rows process_turn c events

unfoldable pub collect_active_processes :
    ℕ → TimelineEventCollector → List ProcessInfo → TimelineEventCollector × ℕ
collect_active_processes now c processes = collect_rows (active_turn now) c processes

unfoldable pub collect_connection_events :
    TimelineEventCollector
    → List ConnectionEvent
    → List (ℕ × ProcessInfo)
    → TimelineEventCollector × ℕ
collect_connection_events c events process_lookup =
    collect_rows (connection_turn process_lookup) c events

unfoldable pub collect_upload_stats :
    TimelineEventCollector → List ConnectionUploadStats → TimelineEventCollector × ℕ
collect_upload_stats c stats = collect_rows upload_turn c stats

unfoldable pub collect_download_stats :
    TimelineEventCollector → List ConnectionDownloadStats → TimelineEventCollector × ℕ
collect_download_stats c stats = collect_rows download_turn c stats

-- The four collections in one call.
unfoldable pub collect :
    TimelineEventCollector
    → List ProcessEvent
    → List ConnectionEvent
    → List ConnectionUploadStats
    → List ConnectionDownloadStats
    → List (ℕ × ProcessInfo)
    → TimelineEventCollector × ℕ
collect c process_events connection_events upload_stats download_stats process_lookup =
    let first = collect_process_events c process_events in
    let second = collect_connection_events first.0 connection_events process_lookup in
    let third = collect_upload_stats second.0 upload_stats in
    let fourth = collect_download_stats third.0 download_stats in
    (fourth.0, first.1 + second.1 + third.1 + fourth.1)

unfoldable pub get_events_for_process : TimelineEventCollector → ℕ → List ProcessActivityEvent
unfolding bucket ℕ_discrete
get_events_for_process c process_id = bucket ℕ_discrete process_id c.events_by_process

-- The loop that joins the vectors of all processes.
unfoldable pub join_events : List (ℕ × List ProcessActivityEvent) → List ProcessActivityEvent
join_events [] = []
join_events ((pid, events) ∷ m) = events ++ join_events m

unfoldable pub get_all_events : Visit ℕ → TimelineEventCollector → List ProcessActivityEvent
unfolding join_events
get_all_events order c = join_events (order.visit c.events_by_process)

-- The loop that adds up their sizes.
unfoldable pub count_events : List (ℕ × List ProcessActivityEvent) → ℕ
count_events [] = 0
count_events ((pid, events) ∷ m) = length events + count_events m

unfoldable pub event_count : TimelineEventCollector → ℕ
unfolding count_events
event_count c = count_events c.events_by_process
