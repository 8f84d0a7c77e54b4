-- ===== src/Process/TimelineSummaryBuilder/Laws.antt =====
-- TimelineSummaryBuilder.cpp: the process of a summary and its window of time.
use mathlib.Core.List.{
  Mem, not-mem-nil, mem-cons_self, mem-cons_of_mem, mem-filter, eq-or-mem_of_mem-cons,
}
use mathlib.Core.Logic.Or
use native.Mathlib.Bridge.{le_prop}
use data_exfiltration_detect.Common.{
  ℕ, ◌≤◌, ◌≡◌, refl, List, [], ◌∷◌, arith, ◌==◌, keep_if, bool_dec, ==_iff,
}
use data_exfiltration_detect.Common.Text.{Text}
use data_exfiltration_detect.Common.Maps.{Visit}
use data_exfiltration_detect.Process.Types.{ProcessActivityEvent}
use data_exfiltration_detect.Process.TimelineSummaryBuilder.Loops.{
  Scan, scan_event, start_scan, scan_events,
}
use data_exfiltration_detect.Process.TimelineSummaryBuilder.{
  summarize, summarize_scan, ProcessActivitySummary, TimelineSummaryBuilder, for_process_id,
}

-- The window of a scan holds a time.
abbrev Holds : Scan → ℕ → Type 0
Holds s t = (s.first_seen ≤ t) × (t ≤ s.last_seen)

Holds-scan_event :
    (s : Scan) (event : ProcessActivityEvent) (t : ℕ) → Holds s t → Holds (scan_event s event) t
unfolding scan_event
Holds-scan_event s event t h = ground (arith, h)

Holds-scan_event_self :
    (s : Scan) (event : ProcessActivityEvent)
    → Holds s s.first_seen
    → Holds (scan_event s event) event.timestamp
unfolding scan_event
Holds-scan_event_self s event h = ground (arith, h)

Holds-scan_event_first :
    (s : Scan) (event : ProcessActivityEvent)
    → Holds s s.first_seen
    → Holds (scan_event s event) (scan_event s event).first_seen
unfolding scan_event
Holds-scan_event_first s event h = ground (arith, h)

Holds-scan_events :
    (s : Scan) (events : List ProcessActivityEvent) (t : ℕ)
    → Holds s t
    → Holds (scan_events s events) t
unfolding scan_events
Holds-scan_events s [] t h = h
Holds-scan_events s (x ∷ events) t h =
    Holds-scan_events (scan_event s x) events t (Holds-scan_event s x t h)

Holds-prop : (s : Scan) (t : ℕ) → IsProp (Holds s t)
Holds-prop s t = hlevel (le_prop)

Holds-scan_events_mem :
    (s : Scan) (events : List ProcessActivityEvent) (e : ProcessActivityEvent)
    → Holds s s.first_seen
    → Mem e events
    → Holds (scan_events s events) e.timestamp
unfolding scan_events
Holds-scan_events_mem s [] e h m = absurd (not-mem-nil m)
Holds-scan_events_mem s (x ∷ events) e h m =
    Or.elim (Holds-prop (scan_events (scan_event s x) events) e.timestamp) (eq-or-mem_of_mem-cons m)
      (λ here.
        Holds-scan_events (scan_event s x) events e.timestamp
          (rw here (Holds-scan_event_self s x h)))
      (Holds-scan_events_mem (scan_event s x) events e (Holds-scan_event_first s x h))

-- The process of a scan of events of one process.
process_id-scan_events :
    (q : ℕ) (s : Scan) (events : List ProcessActivityEvent)
    → s.process_id ≡ q
    → ((x : ProcessActivityEvent) → Mem x events → x.process_id ≡ q)
    → (scan_events s events).process_id ≡ q
unfolding scan_events scan_event
process_id-scan_events q s [] same own = same
process_id-scan_events q s (x ∷ events) same own =
    process_id-scan_events q (scan_event s x) events (own x mem-cons_self)
      (λ y m. own y (mem-cons_of_mem x m))

-- The summary of events of one process is of that process, and each of them is in its window.
abbrev pub Covers : ProcessActivitySummary → ℕ → ℕ → Type 0
Covers summary q t = (summary.process_id ≡ q) × (summary.first_seen ≤ t) × (t ≤ summary.last_seen)

summarize-Covers :
    (order : Visit Text) (q : ℕ) (events : List ProcessActivityEvent) (e : ProcessActivityEvent)
    → ((x : ProcessActivityEvent) → Mem x events → x.process_id ≡ q)
    → Mem e events
    → Covers (summarize order events) q e.timestamp
unfolding summarize summarize_scan start_scan
summarize-Covers order q [] e own m = absurd (not-mem-nil m)
summarize-Covers order q (x ∷ events) e own m = (
  process_id-scan_events q (start_scan x) (x ∷ events) (own x mem-cons_self) own,
  (Holds-scan_events_mem (start_scan x) (x ∷ events) e (omega arith, omega arith) m).0,
  (Holds-scan_events_mem (start_scan x) (x ∷ events) e (omega arith, omega arith) m).1,
)

-- Of an event that a summary builder holds, the summary for its process id is of that process,
-- and its window from first to last seen holds the time of the event, in whatever order the map
-- of destinations is visited.
pub for_process_id-Covers :
    (order : Visit Text) (b : TimelineSummaryBuilder) (e : ProcessActivityEvent)
    → Mem e b.events
    → Covers (for_process_id order b e.process_id) e.process_id e.timestamp
unfolding for_process_id
for_process_id-Covers order b e m =
    let test = λ (x : ProcessActivityEvent). x.process_id == e.process_id in
    summarize-Covers order e.process_id (keep_if test b.events) e
      (λ x held.
        (==_iff x.process_id e.process_id).0 ((mem-filter (λ y. bool_dec (test y))).0 held).1)
      ((mem-filter (λ y. bool_dec (test y))).1 (m, (==_iff e.process_id e.process_id).1 refl))
