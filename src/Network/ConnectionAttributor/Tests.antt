-- ===== src/Network/ConnectionAttributor/Tests.antt =====
-- A process that terminates while its connection is still listed.
use mathlib.Core.List.{lookup, Nodup-nil, Nodup-cons, not-mem-nil}
use mathlib.Core.Option
use data_exfiltration_detect.Common.{◌≡◌, refl, List, [], ◌∷◌, ℕ_discrete, true}
use data_exfiltration_detect.Common.Text.{codes}
use data_exfiltration_detect.Common.Maps.{in_order}
use data_exfiltration_detect.Network.Types.{Connection, ConnectionState, ProtocolType}
use data_exfiltration_detect.Process.Types.{
  ProcessInfo, ProcessStatus, ProcessEvent, ProcessEventType,
}
use data_exfiltration_detect.Network.ConnectionAttributor.{
  ConnectionAttributor, sync_processes, get_last_known_process, build_attributed_connection,
}
use data_exfiltration_detect.Network.ConnectionAttributor.Laws.{
  running, or_else, last_event, get_last_known_process-sync_processes,
}

abbrev shell : ProcessInfo
shell = record {
  process_id = 7;
  process_name = codes "sh";
  parent_process_id = 1;
  status = ProcessStatus.running;
}

abbrev connection : Connection
connection = record {
  process_id = 7;
  local_address = codes "10.0.0.5";
  local_port = 50000;
  remote_address = codes "1.1.1.1";
  remote_port = 443;
  protocol = ProtocolType.tcp;
  state = ConnectionState.established;
  timestamp = 100;
}

abbrev attributor : ConnectionAttributor
attributor = record {
  process_cache = (7, record shell { status = ProcessStatus.terminated }) ∷ [];
  connections_by_process = [];
  attributed_connections = [];
}

abbrev ended : List ProcessEvent
ended = record { type = ProcessEventType.terminated; process_info = shell; timestamp = 200 } ∷ []

marks_terminated : (build_attributed_connection attributor connection).process_terminated ≡ true
unfolding build_attributed_connection
marks_terminated = refl

get_last_known_process-sync_processes_example :
    get_last_known_process (sync_processes in_order attributor ((7, shell) ∷ []) ended) 7
    ≡ or_else (last_event 7 ended) (
        or_else
          (Option.map running (lookup ℕ_discrete 7 ((7, shell) ∷ [])))
          (get_last_known_process attributor 7))
get_last_known_process-sync_processes_example =
    get_last_known_process-sync_processes in_order attributor ((7, shell) ∷ []) ended 7
      (Nodup-cons.1 (not-mem-nil, Nodup-nil))
