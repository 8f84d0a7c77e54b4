-- ===== src/Process/ProcessMonitor/Laws.antt =====
-- ProcessMonitor.cpp: the walk ends, and it finds every process of the snapshot.
use mathlib.Core.List.{append_assoc}
use data_exfiltration_detect.Common.{
  ℕ, zero, suc, ◌+◌, ◌<◌, ◌≡◌, refl, ap, ◌∙◌, List, [], ◌∷◌, ◌++◌, map, true, Option, none, some,
  arith, length,
}
use data_exfiltration_detect.Process.Types.{ProcessStatus, ProcessInfo}
use data_exfiltration_detect.Process.ProcessMonitor.{
  ProcessEntry, Toolhelp, to_process_info, walk, get_active_processes,
}

-- The entry at a position.
abbrev pub entry_at : List ProcessEntry → ℕ → Option ProcessEntry
entry_at [] i = none
entry_at (e ∷ entries) zero = some e
entry_at (e ∷ entries) (suc i) = entry_at entries i

-- A process as the snapshot names it, which runs.
abbrev pub running : ProcessEntry → ProcessInfo
running entry = record {
  process_id = entry.process_id;
  process_name = entry.exe_file;
  parent_process_id = entry.parent_process_id;
  status = ProcessStatus.running;
}

walk_lem :
    (os : Toolhelp) (fuel i : ℕ) (entry : ProcessEntry) (entries : List ProcessEntry)
    (processes : List ProcessInfo)
    → ((j : ℕ) → os.next (i + j) ≡ entry_at entries j)
    → length entries < fuel
    → walk os fuel i entry processes ≡ some (processes ++ map to_process_info (entry ∷ entries))
unfolding walk
walk_lem os zero i entry entries processes h lt = absurd (omega arith)
walk_lem os (suc fuel) i entry [] processes h lt =
    let ended : os.next i ≡ none = ap os.next (omega arith) ∙ h 0 in rw (ended, walk) refl
walk_lem os (suc fuel) i entry (e ∷ entries) processes h lt =
    let more : os.next i ≡ some e = ap os.next (omega arith) ∙ h 0 in
    let later : (j : ℕ) → os.next (i + 1 + j) ≡ entry_at entries j =
      λ j. ap os.next (omega arith) ∙ h (suc j) in
    rw (more, walk)
      (walk_lem os fuel (i + 1) e entries (processes ++ (to_process_info entry ∷ [])) later
          (omega arith)
        ∙ ap (λ x. some x) (append_assoc processes (to_process_info entry ∷ []) _))

-- If the walk through a valid snapshot gives an entry and then some number of others before it
-- fails, getActiveProcesses ends after as many rounds, and it returns all of them, each once, in
-- order, marked as running.
pub get_active_processes_lem :
    (os : Toolhelp) (fuel : ℕ) (entry : ProcessEntry) (entries : List ProcessEntry)
    → os.valid ≡ true
    → os.first ≡ some entry
    → ((i : ℕ) → os.next i ≡ entry_at entries i)
    → length entries < fuel
    → get_active_processes os fuel ≡ some (map running (entry ∷ entries))
unfolding get_active_processes to_process_info
get_active_processes_lem os fuel entry entries valid first h lt =
    let found = walk_lem os fuel 0 entry entries [] (λ j. ap os.next (omega arith) ∙ h j) lt in
    ground (arith, valid, first, found)
