-- ===== src/Process/ProcessTracker.antt =====
-- src/process/tracker/ProcessTracker.h and .cpp. The clock's reading and the order in which the
-- loops visit the maps are arguments of `update`.
pub mod Laws
mod Tests
use mathlib.Core.List.{lookup}
use data_exfiltration_detect.Common.{
  ℕ, List, [], ◌++◌, Bool, true, false, Option, if◌then◌else◌, ℕ_discrete,
}
use data_exfiltration_detect.Common.Maps.{Visit}
use data_exfiltration_detect.Common.Snapshots.{Pass, start, scan_rows, missing_from}
use data_exfiltration_detect.Process.Types.{
  ProcessInfo, ProcessStatus, ProcessEvent, ProcessEventType,
}

pub record ProcessTracker : Type 0 where
  pub tracked_processes : List (ℕ × ProcessInfo)
  pub seeded : Bool

-- A tracker as it is constructed.
abbrev pub initial : ProcessTracker
initial = record { tracked_processes = []; seeded = false }

-- `processInfo.status = RUNNING`.
abbrev pub running_process : ProcessInfo → ProcessInfo
running_process p = record p { status = ProcessStatus.running }

abbrev pub created_event : ℕ → ProcessInfo → ProcessEvent
created_event now p = record { type = ProcessEventType.created; process_info = p; timestamp = now }

abbrev pub terminated_event : ℕ → ProcessInfo → ProcessEvent
terminated_event now p = record {
  type = ProcessEventType.terminated;
  process_info = record p { status = ProcessStatus.terminated };
  timestamp = now;
}

-- The loop over the snapshot: the first row of each process id, as running.
pub next_tracked : List ProcessInfo → List (ℕ × ProcessInfo)
unfolding scan_rows ℕ_discrete
next_tracked current =
    (scan_rows ℕ_discrete (λ (p : ProcessInfo). p.process_id) running_process start current).next

pub update : Visit ℕ → ℕ → ProcessTracker → List ProcessInfo → ProcessTracker × List ProcessEvent
unfolding next_tracked missing_from
update order now t current =
    let next = next_tracked current in
    if t.seeded
    then (
      record { tracked_processes = next; seeded = true },
      missing_from ℕ_discrete t.tracked_processes (created_event now) (order.visit next)
          ++ missing_from ℕ_discrete next (terminated_event now) (order.visit t.tracked_processes),
    )
    else (record { tracked_processes = next; seeded = true }, [])

pub get_process : ProcessTracker → ℕ → Option ProcessInfo
unfolding lookup ℕ_discrete
get_process t process_id = lookup ℕ_discrete process_id t.tracked_processes

pub reset : ProcessTracker → ProcessTracker
reset t = record { tracked_processes = []; seeded = false }
