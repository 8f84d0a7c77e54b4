-- ===== src/Process/TimelineEventCollector/Laws.antt =====
-- TimelineEventCollector.cpp: what a collection counts.
use mathlib.Core.List.{lookup}
use data_exfiltration_detect.Common.{
  ℕ, ◌+◌, ◌≡◌, inl, inr, List, [], ◌∷◌, ◌++◌, Bool, arith, Bool-cases, Option-cases, length,
  length-append, if◌then◌else◌, ℕ_discrete,
}
use data_exfiltration_detect.Common.Text.{Text, text_discrete}
use data_exfiltration_detect.Common.Maps.{contains, bucket, push_back, assign}
use data_exfiltration_detect.Network.Types.{ConnectionEvent}
use data_exfiltration_detect.Network.TransferStats.{ConnectionUploadStats, ConnectionDownloadStats}
use data_exfiltration_detect.Process.Types.{ProcessInfo, ProcessEvent, ProcessActivityEvent}
use data_exfiltration_detect.Process.TimelineEventCollector.{
  TimelineEventCollector, try_add, Turn, collect_rows, collect, collect_process_events,
  collect_connection_events, collect_upload_stats, collect_download_stats, connection_turn,
  process_turn, upload_turn, download_turn, count_events, event_count,
}

-- A key that was added before.
abbrev pub seen : TimelineEventCollector → Text → Bool
seen c k = contains text_discrete k c.seen_event_keys

count_events-assign :
    (k : ℕ) (vs : List ProcessActivityEvent) (m : List (ℕ × List ProcessActivityEvent))
    → count_events (assign ℕ_discrete k vs m) + length (bucket ℕ_discrete k m)
      ≡ count_events m + length vs
unfolding count_events assign bucket lookup
count_events-assign k vs [] = ground arith
count_events-assign k vs ((j, ws) ∷ m) = ground (arith, count_events-assign k vs m)

pub count_events-push_back :
    (k : ℕ) (v : ProcessActivityEvent) (m : List (ℕ × List ProcessActivityEvent))
    → count_events (push_back ℕ_discrete k v m) ≡ count_events m + 1
unfolding push_back
count_events-push_back k v m =
    let vs = bucket ℕ_discrete k m in
    omega (arith, count_events-assign k (vs ++ v ∷ []) m, length-append vs (v ∷ []))

event_count-try_add :
    (c : TimelineEventCollector) (event : ProcessActivityEvent) (key : Text)
    → let r = try_add c event key in event_count r.0 ≡ event_count c + (if r.1 then 1 else 0)
unfolding try_add event_count
event_count-try_add c event key = elim (Bool-cases (seen c key)) [
  | inl old ↦ rw old (omega arith)
  | inr new ↦ rw new (count_events-push_back event.process_id event c.events_by_process)
]

event_count-collect_rows :
    {R : Type 0} (turn : Turn R) (c : TimelineEventCollector) (rows : List R)
    → event_count (collect_rows turn c rows).0 ≡ event_count c + (collect_rows turn c rows).1
unfolding collect_rows
event_count-collect_rows turn c [] = omega arith
event_count-collect_rows turn c (row ∷ rows) = elim (Option-cases (turn row)) [
  | inl e ↦ rw (e, collect_rows) (event_count-collect_rows turn c rows)
  | inr ((key, activity), e) ↦
      rw (e, collect_rows)
        (omega (
          arith,
          event_count-try_add c activity key,
          event_count-collect_rows turn (try_add c activity key).0 rows,
        ))
]

-- A collection of all four kinds of rows returns the number of events that it added, whatever the
-- collector held before.
pub event_count-collect :
    (c : TimelineEventCollector) (process_events : List ProcessEvent)
    (connection_events : List ConnectionEvent) (uploads : List ConnectionUploadStats)
    (downloads : List ConnectionDownloadStats) (process_lookup : List (ℕ × ProcessInfo))
    → let r = collect c process_events connection_events uploads downloads process_lookup in
      event_count r.0 ≡ event_count c + r.1
unfolding collect collect_process_events collect_connection_events collect_upload_stats
    collect_download_stats
event_count-collect c process_events connection_events uploads downloads process_lookup =
    let first = collect_process_events c process_events in
    let second = collect_connection_events first.0 connection_events process_lookup in
    let third = collect_upload_stats second.0 uploads in
    omega (
      arith,
      event_count-collect_rows process_turn c process_events,
      event_count-collect_rows (connection_turn process_lookup) first.0 connection_events,
      event_count-collect_rows upload_turn second.0 uploads,
      event_count-collect_rows download_turn third.0 downloads,
    )
