-- ===== src/Process/ProcessTracker/Tests.antt =====
-- The tracker on two snapshots of a process.
use data_exfiltration_detect.Common.{ℕ, ◌≡◌, refl, ◌↔◌, ◌∨₁◌, [], ◌∷◌, Mem, none, true}
use mathlib.Core.Option
use data_exfiltration_detect.Common.Text.{codes}
use data_exfiltration_detect.Common.Maps.{in_order}
use data_exfiltration_detect.Common.Snapshots.{first_row}
use data_exfiltration_detect.Process.Types.{ProcessInfo, ProcessStatus}
use data_exfiltration_detect.Process.ProcessTracker.{
  ProcessTracker, initial, running_process, created_event, terminated_event, update, get_process,
}
use data_exfiltration_detect.Process.ProcessTracker.Laws.{
  row_of, update-IsValid, get_process-update, Created, Terminated, mem-update_processes_iff,
}

abbrev shell : ℕ → ProcessInfo
shell id = record {
  process_id = id;
  process_name = codes "sh";
  parent_process_id = 1;
  status = ProcessStatus.running;
}

abbrev seeded_tracker : ProcessTracker
seeded_tracker = record { tracked_processes = (7, shell 7) ∷ []; seeded = true }

seeds : (update in_order 100 initial (shell 7 ∷ [])).0 ≡ seeded_tracker
unfolding update
seeds = refl

two_events :
    (update in_order 200 seeded_tracker (shell 8 ∷ [])).1
    ≡ created_event 200 (shell 8) ∷ terminated_event 200 (shell 7) ∷ []
unfolding update
two_events = refl

get_process-update_example :
    get_process (update in_order 200 seeded_tracker (shell 8 ∷ [])).0 8
    ≡ Option.map running_process (row_of 8 (shell 8 ∷ []))
get_process-update_example = get_process-update in_order 200 seeded_tracker (shell 8 ∷ []) 8

mem-update_processes_iff_example :
    let r = update in_order 200 seeded_tracker (shell 8 ∷ []) in
    Mem (created_event 200 (shell 8)) r.1 ↔ (
      Created 200 seeded_tracker r.0 (created_event 200 (shell 8))
      ∨₁ Terminated 200 seeded_tracker r.0 (created_event 200 (shell 8)))
unfolding update
mem-update_processes_iff_example =
    mem-update_processes_iff in_order 200 seeded_tracker (shell 8 ∷ []) refl
      (update-IsValid in_order 100 initial (shell 7 ∷ [])) (created_event 200 (shell 8))

same_ids : (q : ℕ) → (get_process seeded_tracker q ≡ none) ↔ (row_of q (shell 7 ∷ []) ≡ none)
unfolding get_process first_row
same_ids q = (λ h. h, λ h. h)
