-- ===== src/Process/ProcessMonitor.antt =====
-- src/process/collectors/ProcessMonitor.h and .cpp. The snapshot of the processes that Windows gives,
-- and the calls that walk through it, are an argument. The destructor that closes the handle has no
-- effect on the result.
pub mod Laws
mod Tests
use data_exfiltration_detect.Common.{
  ℕ, zero, suc, ◌+◌, List, [], ◌∷◌, ◌++◌, Bool, true, false, not, Option, none, some, if◌then◌else◌,
}
use data_exfiltration_detect.Common.Text.{Text}
use data_exfiltration_detect.Process.Types.{ProcessStatus, ProcessInfo}

-- `PROCESSENTRY32A`.
pub record ProcessEntry : Type 0 where
  pub process_id : ℕ
  pub exe_file : Text
  pub parent_process_id : ℕ

-- Whether `CreateToolhelp32Snapshot` gives a handle, what `Process32FirstA` writes, and what the
-- n-th call of `Process32NextA` writes; `none` is a call that fails.
pub record Toolhelp : Type 0 where
  pub valid : Bool
  pub first : Option ProcessEntry
  pub next : ℕ → Option ProcessEntry

-- `ProcessInfo(pid, name, parent)`, whose status is RUNNING by default.
unfoldable pub to_process_info : ProcessEntry → ProcessInfo
to_process_info entry = record {
  process_id = entry.process_id;
  process_name = entry.exe_file;
  parent_process_id = entry.parent_process_id;
  status = ProcessStatus.running;
}

-- `do { emplace_back(entry) } while (Process32NextA(...))`; `none` means that the fuel ran out.
unfoldable pub walk : Toolhelp → ℕ → ℕ → ProcessEntry → List ProcessInfo → Option (List ProcessInfo)
unfolding to_process_info
walk os zero i entry processes = none
walk os (suc fuel) i entry processes =
    let pushed = processes ++ (to_process_info entry ∷ []) in
    elim (os.next i) [ none ↦ some pushed | some entry' ↦ walk os fuel (i + 1) entry' pushed ]

unfoldable pub get_active_processes : Toolhelp → ℕ → Option (List ProcessInfo)
unfolding walk
get_active_processes os fuel =
    if not os.valid
    then some []
    else elim os.first [ none ↦ some [] | some entry ↦ walk os fuel 0 entry [] ]
