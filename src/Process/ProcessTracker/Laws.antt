-- ===== src/Process/ProcessTracker/Laws.antt =====
-- ProcessTracker.cpp: what a snapshot changes and what it reports.
use mathlib.Core.List.{lookup, mem-append}
use mathlib.Core.Logic.Iff
use mathlib.Core.Option
use data_exfiltration_detect.Common.{
  ℕ, ◌≡◌, refl, ◌↔◌, ◌∨₁◌, List, [], Mem, true, Option, none, some, arith, Option-cases, Bool-cases,
  inl, inr, ℕ_discrete, ap, ◌∙◌, sym,
}
use data_exfiltration_detect.Common.Maps.{Visit, HasUniqueKeys}
use data_exfiltration_detect.Common.Snapshots.{
  first_row, first_row-key, lookup-scan_rows, scan_rows-HasUniqueKeys, mem-missing_from_iff,
  missing_from-visit_none,
}
use data_exfiltration_detect.Process.Types.{ProcessInfo, ProcessStatus, ProcessEvent}
use data_exfiltration_detect.Process.ProcessTracker.{
  ProcessTracker, running_process, created_event, terminated_event, next_tracked, update,
  get_process, reset,
}

-- The first row of a snapshot with a process id.
abbrev pub row_of : ℕ → List ProcessInfo → Option ProcessInfo
row_of = first_row ℕ_discrete (λ (p : ProcessInfo). p.process_id)

-- Each process is held once, under its own id, as running.
pub record IsValid (t : ProcessTracker) : Type 0 where
  pub unique : HasUniqueKeys t.tracked_processes
  pub own_entry :
      (q : ℕ) (p : ProcessInfo)
      → get_process t q ≡ some p
      → (p.process_id ≡ q) × (p.status ≡ ProcessStatus.running)

ProcessInfo-set : IsSet ProcessInfo
ProcessInfo-set = hlevel

next_tracked-HasUniqueKeys : (current : List ProcessInfo) → HasUniqueKeys (next_tracked current)
unfolding next_tracked
next_tracked-HasUniqueKeys current = scan_rows-HasUniqueKeys ℕ_discrete _ running_process current

lookup-next_tracked :
    (q : ℕ) (current : List ProcessInfo)
    → lookup ℕ_discrete q (next_tracked current) ≡ Option.map running_process (row_of q current)
unfolding next_tracked
lookup-next_tracked q current = lookup-scan_rows ℕ_discrete _ running_process q current

-- After any update a process id is tracked exactly when the snapshot has a row with it, and what
-- is tracked is the first such row, marked as running.
pub get_process-update :
    (order : Visit ℕ) (now : ℕ) (t : ProcessTracker) (current : List ProcessInfo) (q : ℕ)
    → get_process (update order now t current).0 q ≡ Option.map running_process (row_of q current)
unfolding get_process update
get_process-update order now t current q = ground (arith, lookup-next_tracked q current)

running_row :
    (q : ℕ) (current : List ProcessInfo) (p : ProcessInfo)
    → Option.map running_process (row_of q current) ≡ some p
    → (p.process_id ≡ q) × (p.status ≡ ProcessStatus.running)
running_row q current p h = elim (Option-cases (row_of q current)) [
  | inl e ↦ cc (rw e at h)
  | inr (r, e) ↦
      ground (
        arith,
        rw e at h,
        first_row-key ℕ_discrete (λ (x : ProcessInfo). x.process_id) q current r e,
      )
]

-- Every update leaves a valid tracker, whatever the tracker and the snapshot were.
pub update-IsValid :
    (order : Visit ℕ) (now : ℕ) (t : ProcessTracker) (current : List ProcessInfo)
    → IsValid (update order now t current).0
unfolding update
update-IsValid order now t current = record {
  unique = ground (arith, next_tracked-HasUniqueKeys current);
  own_entry = λ q p h. running_row q current p (sym (get_process-update order now t current q) ∙ h);
}

-- The first snapshot after construction or `reset` reports nothing and seeds the tracker.
update_baseline :
    (order : Visit ℕ) (now : ℕ) (t : ProcessTracker) (current : List ProcessInfo)
    → let r = update order now (reset t) current in (r.1 ≡ []) × (r.0.seeded ≡ true)
unfolding update reset
update_baseline order now t current = (refl, refl)

-- The id and entry that a CREATED event reports: tracked now, and not before.
abbrev pub Created : ℕ → ProcessTracker → ProcessTracker → ProcessEvent → Type 0
Created now t t' e = ∥ (
    (q : ℕ) × (p : ProcessInfo) × (get_process t' q ≡ some p)
    × (get_process t q ≡ none)
    × (e ≡ created_event now p)) ∥₁

-- The id and entry that a TERMINATED event reports: tracked before, and not now.
abbrev pub Terminated : ℕ → ProcessTracker → ProcessTracker → ProcessEvent → Type 0
Terminated now t t' e = ∥ (
    (q : ℕ) × (p : ProcessInfo) × (get_process t q ≡ some p)
    × (get_process t' q ≡ none)
    × (e ≡ terminated_event now p)) ∥₁

-- A seeded, valid tracker reports exactly the processes that appeared, as CREATED, and those that
-- went, as TERMINATED, in whatever order the loops visit the maps.
pub mem-update_processes_iff :
    (order : Visit ℕ) (now : ℕ) (t : ProcessTracker) (current : List ProcessInfo)
    → t.seeded ≡ true
    → IsValid t
    → (e : ProcessEvent)
    → let r = update order now t current in
      Mem e r.1 ↔ (Created now t r.0 e ∨₁ Terminated now t r.0 e)
unfolding update get_process
mem-update_processes_iff order now t current seeded v e = rw seeded (
    Iff.trans mem-append (
      Iff.or
        (mem-missing_from_iff ℕ_discrete t.tracked_processes (created_event now) order
          ProcessInfo-set (next_tracked current) (next_tracked-HasUniqueKeys current) e)
        (mem-missing_from_iff ℕ_discrete (next_tracked current) (terminated_event now) order
          ProcessInfo-set t.tracked_processes v.unique e)))

-- An update of a valid tracker by a snapshot with the process ids that it tracks reports nothing.
pub update_steady :
    (order : Visit ℕ) (now : ℕ) (t : ProcessTracker) (current : List ProcessInfo)
    → IsValid t
    → ((q : ℕ) → (get_process t q ≡ none) ↔ (row_of q current ≡ none))
    → (update order now t current).1 ≡ []
unfolding update get_process
update_steady order now t current v same = elim (Bool-cases t.seeded) [
  | inl seeded ↦ rw (
    seeded,
    missing_from-visit_none ℕ_discrete t.tracked_processes (created_event now) order ProcessInfo-set
        (next_tracked current) (next_tracked-HasUniqueKeys current)
        (λ q held gone.
          held (lookup-next_tracked q current ∙ ap (Option.map running_process) ((same q).0 gone))),
    missing_from-visit_none ℕ_discrete (next_tracked current) (terminated_event now) order
        ProcessInfo-set t.tracked_processes v.unique
        (λ q held gone.
          held (
            (same q).1 (map-none (row_of q current) (sym (lookup-next_tracked q current) ∙ gone)))),
  )
  | inr fresh ↦ rw fresh
]
  where
    map-none : (o : Option ProcessInfo) → Option.map running_process o ≡ none → o ≡ none
    map-none none h = refl
    map-none (some p) h = cc
