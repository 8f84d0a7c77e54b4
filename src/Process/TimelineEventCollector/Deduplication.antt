-- ===== src/Process/TimelineEventCollector/Deduplication.antt =====
-- TimelineEventCollector.cpp: what a collection leaves out.
use mathlib.Core.List.{Mem, not-mem-nil, mem-cons_self, mem-cons_of_mem, eq-or-mem_of_mem-cons}
use mathlib.Core.Logic.Or
use mathlib.Core.Bool.{Bool-set}
use data_exfiltration_detect.Common.{
  ℕ, ◌≡◌, refl, sym, subst, inl, inr, List, [], ◌∷◌, true, some, arith, Bool-cases, Option-cases,
}
use data_exfiltration_detect.Common.Text.{Text}
use data_exfiltration_detect.Common.Maps.{contains}
use data_exfiltration_detect.Network.Types.{ConnectionEvent, SameIdentity}
use data_exfiltration_detect.Network.TransferStats.{ConnectionUploadStats, ConnectionDownloadStats}
use data_exfiltration_detect.Process.Types.{ProcessInfo, ProcessEvent, ProcessActivityEvent}
use data_exfiltration_detect.Process.TimelineEventCollector.{
  TimelineEventCollector, try_add, Turn, collect_rows, collect, collect_process_events,
  collect_connection_events, collect_upload_stats, collect_download_stats, make_connection_key,
  activity_type, connection_turn, process_turn, upload_turn, download_turn, connection_activity,
}
use data_exfiltration_detect.Process.TimelineEventCollector.Laws.{seen}

-- A key that was seen stays seen.
seen-try_add :
    (c : TimelineEventCollector) (event : ProcessActivityEvent) (key k : Text)
    → seen c k ≡ true
    → seen (try_add c event key).0 k ≡ true
unfolding try_add contains
seen-try_add c event key k h = elim (Bool-cases (seen c key)) [
  | inl old ↦ rw old h
  | inr new ↦ ground (arith, new, h)
]

-- The key of a row that was tried is seen.
seen-try_add_self :
    (c : TimelineEventCollector) (event : ProcessActivityEvent) (key : Text)
    → seen (try_add c event key).0 key ≡ true
unfolding try_add contains
seen-try_add_self c event key = elim (Bool-cases (seen c key)) [
  | inl old ↦ rw old old
  | inr new ↦ ground (arith, new)
]

seen-collect_rows :
    {R : Type 0} (turn : Turn R) (c : TimelineEventCollector) (rows : List R) (k : Text)
    → seen c k ≡ true
    → seen (collect_rows turn c rows).0 k ≡ true
unfolding collect_rows
seen-collect_rows turn c [] k h = h
seen-collect_rows turn c (row ∷ rows) k h = elim (Option-cases (turn row)) [
  | inl e ↦ rw (e, collect_rows) (seen-collect_rows turn c rows k h)
  | inr ((key, activity), e) ↦
      rw (e, collect_rows)
        (seen-collect_rows turn (try_add c activity key).0 rows k (seen-try_add c activity key k h))
]

-- Every row that a loop would still store has a key that is seen.
AllSeen : {R : Type 0} → Turn R → TimelineEventCollector → List R → Type 0
AllSeen {R} turn c rows =
    (row : R)
    → Mem row rows
    → (key : Text) (activity : ProcessActivityEvent) → turn row ≡ some (key, activity)
    → seen c key ≡ true

seen-collect_rows_head :
    {R : Type 0} (turn : Turn R) (c : TimelineEventCollector) (r : R) (rows : List R) (key : Text)
    (activity : ProcessActivityEvent)
    → turn r ≡ some (key, activity)
    → seen (collect_rows turn c (r ∷ rows)).0 key ≡ true
unfolding collect_rows
seen-collect_rows_head turn c r rows key activity e =
    rw (e, collect_rows)
      (seen-collect_rows turn (try_add c activity key).0 rows key
        (seen-try_add_self c activity key))

-- The rows after the first are collected from the collector that the first left behind.
after_row : {R : Type 0} → Turn R → TimelineEventCollector → R → TimelineEventCollector
unfolding collect_rows
after_row turn c r = (collect_rows turn c (r ∷ [])).0

collect_rows-cons :
    {R : Type 0} (turn : Turn R) (c : TimelineEventCollector) (r : R) (rows : List R)
    → (collect_rows turn c (r ∷ rows)).0 ≡ (collect_rows turn (after_row turn c r) rows).0
unfolding after_row collect_rows
collect_rows-cons turn c r rows = elim (Option-cases (turn r)) [
  | inl e ↦ rw (e, after_row, collect_rows) refl
  | inr ((key, activity), e) ↦ rw (e, after_row, collect_rows) refl
]

AllSeen-collect_rows :
    {R : Type 0} (turn : Turn R) (c : TimelineEventCollector) (rows : List R)
    → AllSeen turn (collect_rows turn c rows).0 rows
unfolding AllSeen
AllSeen-collect_rows turn c [] row mem key activity e = absurd (not-mem-nil mem)
AllSeen-collect_rows turn c (r ∷ rows) row mem key activity e =
    Or.elim (Bool-set _ _) (eq-or-mem_of_mem-cons mem)
      (λ here.
        seen-collect_rows_head turn c r rows key activity
          (subst (λ x. turn x ≡ some (key, activity)) here e))
      (λ there.
        rw (collect_rows-cons turn c r rows)
          (AllSeen-collect_rows turn (after_row turn c r) rows row there key activity e))

-- Events that were all collected before are not collected again.
collect_rows_seen :
    {R : Type 0} (turn : Turn R) (c : TimelineEventCollector) (rows : List R)
    → AllSeen turn c rows
    → collect_rows turn c rows ≡ (c, 0)
unfolding AllSeen collect_rows try_add
collect_rows_seen turn c [] h = refl
collect_rows_seen turn c (r ∷ rows) h =
    let rest = collect_rows_seen turn c rows (λ row m. h row (mem-cons_of_mem r m)) in
    elim (Option-cases (turn r)) [
      | inl e ↦ rw (e, collect_rows) rest
      | inr ((key, activity), e) ↦
          rw (e, collect_rows, try_add, h r mem-cons_self key activity e, rest) refl
    ]

AllSeen-later :
    {R S : Type 0} (turn : Turn R) (other : Turn S) (c : TimelineEventCollector) (rows : List R)
    (others : List S)
    → AllSeen turn c rows
    → AllSeen turn (collect_rows other c others).0 rows
unfolding AllSeen
AllSeen-later turn other c rows others h row mem key activity e =
    seen-collect_rows other c others key (h row mem key activity e)

-- The collector that a collection leaves behind is a fixed point of the same collection:
-- collecting the same rows again changes nothing and adds nothing.
pub collect_again :
    (c : TimelineEventCollector) (process_events : List ProcessEvent)
    (connection_events : List ConnectionEvent) (uploads : List ConnectionUploadStats)
    (downloads : List ConnectionDownloadStats) (process_lookup : List (ℕ × ProcessInfo))
    → let r = collect c process_events connection_events uploads downloads process_lookup in
      collect r.0 process_events connection_events uploads downloads process_lookup ≡ (r.0, 0)
unfolding collect collect_process_events collect_connection_events collect_upload_stats
    collect_download_stats
collect_again c process_events connection_events uploads downloads process_lookup =
    let first = collect_rows process_turn c process_events in
    let by_connection = connection_turn process_lookup in
    let second = collect_rows by_connection first.0 connection_events in
    let third = collect_rows upload_turn second.0 uploads in
    let fourth = collect_rows download_turn third.0 downloads in
    let one = collect_rows_seen process_turn fourth.0 process_events (
      AllSeen-later process_turn download_turn third.0 process_events downloads (
        AllSeen-later process_turn upload_turn second.0 process_events uploads (
          AllSeen-later process_turn by_connection first.0 process_events connection_events
            (AllSeen-collect_rows process_turn c process_events)))) in
    let two = collect_rows_seen by_connection fourth.0 connection_events (
      AllSeen-later by_connection download_turn third.0 connection_events downloads (
        AllSeen-later by_connection upload_turn second.0 connection_events uploads
          (AllSeen-collect_rows by_connection first.0 connection_events))) in
    let three = collect_rows_seen upload_turn fourth.0 uploads (
      AllSeen-later upload_turn download_turn third.0 uploads downloads
        (AllSeen-collect_rows upload_turn second.0 uploads)) in
    let four =
      collect_rows_seen download_turn fourth.0 downloads
        (AllSeen-collect_rows download_turn third.0 downloads) in
    rw (one, two, three, four) refl

-- The key of a connection's event depends on its type and on the identity of the connection.
make_connection_key-SameIdentity :
    (earlier later : ConnectionEvent)
    → earlier.type ≡ later.type
    → SameIdentity earlier.connection later.connection
    → make_connection_key (activity_type earlier.type) earlier.connection
      ≡ make_connection_key (activity_type later.type) later.connection
unfolding make_connection_key
make_connection_key-SameIdentity earlier later t (p, id, la, lp, ra, rp) =
    rw (t, p, id, la, lp, ra, rp) refl

-- Once an event of a connection was collected, a later event of the same type about a connection
-- with the same process and five-tuple adds nothing, whatever was collected with the first.
pub collect_connection_events_repeated :
    (c : TimelineEventCollector) (earlier later : ConnectionEvent) (between : List ConnectionEvent)
    (process_lookup later_lookup : List (ℕ × ProcessInfo))
    → earlier.type ≡ later.type
    → SameIdentity earlier.connection later.connection
    → let r = collect_connection_events c (earlier ∷ between) process_lookup in
      collect_connection_events r.0 (later ∷ []) later_lookup ≡ (r.0, 0)
unfolding collect_connection_events collect_rows try_add connection_turn
collect_connection_events_repeated c earlier later between process_lookup later_lookup t same =
    rw
      (
        sym (make_connection_key-SameIdentity earlier later t same),
        try_add,
        seen-collect_rows_head (connection_turn process_lookup) c earlier between
            (make_connection_key (activity_type earlier.type) earlier.connection)
            (connection_activity process_lookup earlier) refl,
      )
      refl
