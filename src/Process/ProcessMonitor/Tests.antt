-- ===== src/Process/ProcessMonitor/Tests.antt =====
-- A snapshot with two processes.
use data_exfiltration_detect.Common.{◌≡◌, refl, [], ◌∷◌, map, true, some, arith}
use data_exfiltration_detect.Common.Text.{codes}
use data_exfiltration_detect.Process.ProcessMonitor.{ProcessEntry, Toolhelp, get_active_processes}
use data_exfiltration_detect.Process.ProcessMonitor.Laws.{
  entry_at, running, get_active_processes_lem,
}

abbrev system : ProcessEntry
system = record { process_id = 4; exe_file = codes "System"; parent_process_id = 0 }

abbrev curl : ProcessEntry
curl = record { process_id = 7; exe_file = codes "curl.exe"; parent_process_id = 4 }

abbrev os : Toolhelp
os = record { valid = true; first = some system; next = entry_at (curl ∷ []) }

get_active_processes_lem_example :
    get_active_processes os 2 ≡ some (map running (system ∷ curl ∷ []))
get_active_processes_lem_example =
    get_active_processes_lem os 2 system (curl ∷ []) refl refl (λ i. refl) (omega arith)
