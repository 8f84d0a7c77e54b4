-- ===== src/Network/ConnectionAttributor.antt =====
-- src/network/attribution: ConnectionAttributor.h and .cpp, and the record of AttributedConnection.h.
-- The order in which the map of active processes is visited is an argument.
pub mod Laws
mod Tests
use mathlib.Core.List.{lookup}
use data_exfiltration_detect.Common.{
  ℕ, List, [], ◌∷◌, Bool, true, false, Option, none, some, if◌then◌else◌, ℕ_discrete,
}
use data_exfiltration_detect.Common.Text.{Text, text_discrete}
use data_exfiltration_detect.Common.Maps.{Visit, contains, assign, emplace, push_back}
use data_exfiltration_detect.Network.Types.{Connection, make_key}
use data_exfiltration_detect.Process.Types.{
  ProcessInfo, ProcessStatus, ProcessEvent, ProcessEventType,
}

pub record AttributedConnection : Type 0 where
  pub connection : Connection
  pub process_info : ProcessInfo
  pub has_process_info : Bool
  pub process_terminated : Bool

pub record ConnectionAttributor : Type 0 where
  pub process_cache : List (ℕ × ProcessInfo)
  pub connections_by_process : List (ℕ × List AttributedConnection)
  pub attributed_connections : List (Text × AttributedConnection)

-- `process::ProcessInfo{}`.
abbrev default_process : ProcessInfo
default_process = record {
  process_id = 0;
  process_name = [];
  parent_process_id = 0;
  status = ProcessStatus.running;
}

-- The loop over the active processes: each is cached under its key, as running.
unfoldable pub cache_active :
    List (ℕ × ProcessInfo) → List (ℕ × ProcessInfo) → List (ℕ × ProcessInfo)
unfolding assign ℕ_discrete
cache_active cache [] = cache
cache_active cache ((pid, info) ∷ active) =
    cache_active (assign ℕ_discrete pid (record info { status = ProcessStatus.running }) cache)
      active

-- The process of an event, as terminated if the event says so.
unfoldable pub event_process : ProcessEvent → ProcessInfo
event_process event = elim event.type [
  | ProcessEventType.terminated ↦ record event.process_info { status = ProcessStatus.terminated }
  | ProcessEventType.created ↦ event.process_info
]

-- The loop over the events: each is cached under its own process id.
unfoldable pub cache_events : List (ℕ × ProcessInfo) → List ProcessEvent → List (ℕ × ProcessInfo)
unfolding assign ℕ_discrete event_process
cache_events cache [] = cache
cache_events cache (event ∷ events) =
    let info = event_process event in
    cache_events (assign ℕ_discrete info.process_id info cache) events

unfoldable pub sync_processes :
    Visit ℕ
    → ConnectionAttributor
    → List (ℕ × ProcessInfo)
    → List ProcessEvent
    → ConnectionAttributor
unfolding cache_active cache_events
sync_processes order a active_processes process_events = record a {
  process_cache =
      cache_events (cache_active a.process_cache (order.visit active_processes)) process_events;
}

unfoldable pub get_last_known_process : ConnectionAttributor → ℕ → Option ProcessInfo
unfolding lookup ℕ_discrete
get_last_known_process a process_id = lookup ℕ_discrete process_id a.process_cache

is_terminated : ProcessStatus → Bool
is_terminated ProcessStatus.terminated = true
is_terminated ProcessStatus.running = false

unfoldable pub build_attributed_connection :
    ConnectionAttributor → Connection → AttributedConnection
unfolding get_last_known_process is_terminated
build_attributed_connection a connection = elim (get_last_known_process a connection.process_id) [
  | none ↦ record {
    connection = connection;
    process_info = default_process;
    has_process_info = false;
    process_terminated = false;
  }
  | some info ↦ record {
    connection = connection;
    process_info = info;
    has_process_info = true;
    process_terminated = is_terminated info.status;
  }
]

-- The local variables of the loop over the connections.
pub record Attribution : Type 0 where
  pub seen : List Text
  pub by_process : List (ℕ × List AttributedConnection)
  pub by_key : List (Text × AttributedConnection)

-- The loop over the connections: its variables at the end, and the results.
unfoldable pub attribute_loop :
    ConnectionAttributor → Attribution → List Connection → Attribution × List AttributedConnection
unfolding contains emplace push_back ℕ_discrete text_discrete make_key build_attributed_connection
attribute_loop a v [] = (v, [])
attribute_loop a v (connection ∷ connections) =
    let key = make_key connection in
    let attributed = build_attributed_connection a connection in
    let skipped = attribute_loop a v connections in
    let rest =
      attribute_loop a
        (record {
          seen = key ∷ v.seen;
          by_process = push_back ℕ_discrete connection.process_id attributed v.by_process;
          by_key = emplace text_discrete key attributed v.by_key;
        })
        connections in
    if contains text_discrete key v.seen then skipped else (rest.0, attributed ∷ rest.1)

unfoldable pub attribute :
    ConnectionAttributor → List Connection → ConnectionAttributor × List AttributedConnection
unfolding attribute_loop
attribute a connections =
    let r = attribute_loop a (record { seen = []; by_process = []; by_key = [] }) connections in
    (record a { connections_by_process = r.0.by_process; attributed_connections = r.0.by_key }, r.1)

unfoldable pub reset : ConnectionAttributor → ConnectionAttributor
reset a = record { process_cache = []; connections_by_process = []; attributed_connections = [] }
