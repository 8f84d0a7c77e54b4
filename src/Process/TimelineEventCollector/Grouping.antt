-- ===== src/Process/TimelineEventCollector/Grouping.antt =====
-- TimelineEventCollector.cpp: what a collector holds after any sequence of calls.
use mathlib.Core.List.{
  lookup, Nodup-nil, Nodup-cons, mem-append, eq-or-mem_of_mem-cons, not-mem-nil,
}
use mathlib.Core.Logic.Or
use data_exfiltration_detect.Common.{
  ℕ, ◌≡◌, refl, sym, ◌∙◌, ap, subst, inl, inr, List, [], ◌∷◌, ◌++◌, Mem, Nodup, false, arith,
  Bool-cases, Option-cases, length, ℕ_discrete, if_pos, if_neg,
}
use data_exfiltration_detect.Common.Text.{Text, text_discrete}
use data_exfiltration_detect.Common.Maps.{
  HasUniqueKeys, contains, contains_iff, bucket, push_back, push_back-HasUniqueKeys,
  bucket-push_back,
}
use data_exfiltration_detect.Network.Types.{ConnectionEvent}
use data_exfiltration_detect.Network.TransferStats.{ConnectionUploadStats, ConnectionDownloadStats}
use data_exfiltration_detect.Process.Types.{ProcessInfo, ProcessEvent, ProcessActivityEvent}
use data_exfiltration_detect.Process.TimelineEventCollector.{
  TimelineEventCollector, reset, try_add, Turn, collect_rows, get_events_for_process, count_events,
  event_count, collect, collect_active_processes, collect_process_events, collect_connection_events,
  collect_upload_stats, collect_download_stats, process_turn, active_turn, connection_turn,
  upload_turn, download_turn,
}
use data_exfiltration_detect.Process.TimelineEventCollector.Laws.{seen, count_events-push_back}

-- Every process has one entry, which holds events of that process only, and as many events are held
-- as keys, which are distinct.
pub record IsValid (c : TimelineEventCollector) : Type 0 where
  pub unique : HasUniqueKeys c.events_by_process
  pub own_events :
      (q : ℕ) (e : ProcessActivityEvent) → Mem e (get_events_for_process c q) → e.process_id ≡ q
  pub distinct : Nodup c.seen_event_keys
  pub counted : event_count c ≡ length c.seen_event_keys

ℕ_paths-prop : {m n : ℕ} → IsProp (m ≡ n)
ℕ_paths-prop = hlevel

contains→mem : (k : Text) (s : List Text) → contains text_discrete k s ≡ false → ¬ Mem k s
contains→mem k s h = λ m. ground (arith, h, (contains_iff text_discrete k s).1 m)

IsValid-reset : (c : TimelineEventCollector) → IsValid (reset c)
unfolding reset get_events_for_process bucket event_count count_events lookup
IsValid-reset c = record {
  unique = Nodup-nil;
  own_events = λ q e m. absurd (not-mem-nil m);
  distinct = Nodup-nil;
  counted = refl;
}

own_events-push_back :
    (m : List (ℕ × List ProcessActivityEvent)) (event : ProcessActivityEvent)
    → ((q : ℕ) (e : ProcessActivityEvent) → Mem e (bucket ℕ_discrete q m) → e.process_id ≡ q)
    → (q : ℕ) (e : ProcessActivityEvent)
    → Mem e (bucket ℕ_discrete q (push_back ℕ_discrete event.process_id event m))
    → e.process_id ≡ q
own_events-push_back m event own q e h = elim (ℕ_discrete q event.process_id) [
  | yes p ↦
      Or.elim ℕ_paths-prop
        (mem-append.0 (
          subst (Mem e)
            (bucket-push_back ℕ_discrete q event.process_id event m
              ∙ if_pos (ℕ_discrete q event.process_id) p
                  (bucket ℕ_discrete event.process_id m ++ event ∷ []) (bucket ℕ_discrete q m))
            h))
        (λ old. own event.process_id e old ∙ sym p)
        (λ new.
          Or.elim ℕ_paths-prop (eq-or-mem_of_mem-cons {b = event} {l = []} new)
            (λ same. ap (λ (x : ProcessActivityEvent). x.process_id) same ∙ sym p)
            (λ none_left. absurd (not-mem-nil none_left)))
  | no p ↦ own q e (
      subst (Mem e)
        (bucket-push_back ℕ_discrete q event.process_id event m
          ∙ if_neg (ℕ_discrete q event.process_id) p
              (bucket ℕ_discrete event.process_id m ++ event ∷ []) (bucket ℕ_discrete q m))
        h)
]

try_add-IsValid :
    (c : TimelineEventCollector) (event : ProcessActivityEvent) (key : Text)
    → IsValid c
    → IsValid (try_add c event key).0
unfolding try_add get_events_for_process event_count
try_add-IsValid c event key v = elim (Bool-cases (seen c key)) [
  | inl old ↦ rw old v
  | inr new ↦ rw new (record {
    unique = push_back-HasUniqueKeys ℕ_discrete event.process_id event c.events_by_process v.unique;
    own_events = own_events-push_back c.events_by_process event v.own_events;
    distinct = Nodup-cons.1 (contains→mem key c.seen_event_keys new, v.distinct);
    counted =
        omega (arith, count_events-push_back event.process_id event c.events_by_process, v.counted);
  })
]

collect_rows-IsValid :
    {R : Type 0} (turn : Turn R) (c : TimelineEventCollector) (rows : List R)
    → IsValid c
    → IsValid (collect_rows turn c rows).0
unfolding collect_rows
collect_rows-IsValid turn c [] v = v
collect_rows-IsValid turn c (row ∷ rows) v = elim (Option-cases (turn row)) [
  | inl e ↦ rw (e, collect_rows) (collect_rows-IsValid turn c rows v)
  | inr ((key, activity), e) ↦
      rw (e, collect_rows)
        (collect_rows-IsValid turn (try_add c activity key).0 rows
          (try_add-IsValid c activity key v))
]

-- The calls that change a collector.
pub data Operation : Type 0 where
  collects :
      List ProcessEvent
      → List ConnectionEvent
      → List ConnectionUploadStats
      → List ConnectionDownloadStats
      → List (ℕ × ProcessInfo)
      → Operation
  collects_active : ℕ → List ProcessInfo → Operation
  resets : Operation

pub apply : TimelineEventCollector → Operation → TimelineEventCollector
apply c (collects process_events connection_events uploads downloads process_lookup) =
    (collect c process_events connection_events uploads downloads process_lookup).0
apply c (collects_active now processes) = (collect_active_processes now c processes).0
apply c resets = reset c

pub run : TimelineEventCollector → List Operation → TimelineEventCollector
run c [] = c
run c (op ∷ ops) = run (apply c op) ops

apply-IsGrouped : (c : TimelineEventCollector) (op : Operation) → IsValid c → IsValid (apply c op)
unfolding apply collect collect_active_processes collect_process_events collect_connection_events
    collect_upload_stats collect_download_stats
apply-IsGrouped c (collects process_events connection_events uploads downloads process_lookup) v =
    let first = collect_rows process_turn c process_events in
    let second = collect_rows (connection_turn process_lookup) first.0 connection_events in
    let third = collect_rows upload_turn second.0 uploads in
    collect_rows-IsValid download_turn third.0 downloads (
      collect_rows-IsValid upload_turn second.0 uploads (
        collect_rows-IsValid (connection_turn process_lookup) first.0 connection_events
          (collect_rows-IsValid process_turn c process_events v)))
apply-IsGrouped c (collects_active now processes) v =
    collect_rows-IsValid (active_turn now) c processes v
apply-IsGrouped c resets v = IsValid-reset c

run-IsGrouped :
    (c : TimelineEventCollector) (ops : List Operation) → IsValid c → IsValid (run c ops)
unfolding run
run-IsGrouped c [] v = v
run-IsGrouped c (op ∷ ops) v = run-IsGrouped (apply c op) ops (apply-IsGrouped c op v)

-- After any sequence of collections and resets on a collector that was reset, each process has
-- one entry with events of its own only, and the events are as many as the keys, which are
-- distinct.
pub run-reset-IsValid :
    (c : TimelineEventCollector) (ops : List Operation) → IsValid (run (reset c) ops)
run-reset-IsValid c ops = run-IsGrouped (reset c) ops (IsValid-reset c)
