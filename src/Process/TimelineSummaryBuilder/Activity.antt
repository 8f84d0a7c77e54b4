-- ===== src/Process/TimelineSummaryBuilder/Activity.antt =====
-- TimelineSummaryBuilder.cpp: the most active destination of a summary.
use mathlib.Core.List.{lookup, not-mem-nil, mem-map_of_mem}
use mathlib.Core.List.Perm
use mathlib.Core.Option
use data_exfiltration_detect.Common.{
  ℕ, ◌+◌, ◌≡◌, ◌≢◌, sym, ap₂, ◌∙◌, List, [], ◌∷◌, Mem, false, some, inl, inr, Option-cases, ite,
  arith,
}
use data_exfiltration_detect.Common.Text.{Text, text_discrete}
use data_exfiltration_detect.Common.Maps.{
  Visit, keys, lookup-assign, mem-lookup_iff, lookup→mem, lookup-none_iff,
}
use data_exfiltration_detect.Process.Types.{ProcessActivityEvent}
use data_exfiltration_detect.Process.TimelineSummaryBuilder.Loops.{
  DestinationStats, no_stats, is_more_active, Scan, start_ranking, rank, grow, grow_destination,
  scan_event, start_scan, scan_events,
}
use data_exfiltration_detect.Process.TimelineSummaryBuilder.Destinations.{
  destinations, peak, is_remote-empty, scanned, mem-destinations_iff, scanned-HasUniqueKeys,
  keys-perm,
}
use data_exfiltration_detect.Process.TimelineSummaryBuilder.Volumes.{
  uploaded-IsPeakOf, downloaded-IsPeakOf, DestinationStats-set, held-scanned, entry-held,
}
use data_exfiltration_detect.Process.TimelineSummaryBuilder.{summarize, summarize_scan}
use data_exfiltration_detect.Process.TimelineSummaryBuilder.Ranking.{IsNotMore, ranked-IsBest}

-- How many events have an address.
unfoldable pub visits : List ProcessActivityEvent → Text → ℕ
unfolding text_discrete
visits [] a = 0
visits (event ∷ events) a =
    let rest = visits events a in ite (text_discrete a event.remote_address) (rest + 1) rest

-- What the events show of an address.
abbrev pub activity_of : List ProcessActivityEvent → Text → DestinationStats
activity_of events a = record {
  uploaded_bytes = peak (λ e. e.uploaded_bytes) events a;
  downloaded_bytes = peak (λ e. e.downloaded_bytes) events a;
  event_count = visits events a;
}

abbrev count_held : List (Text × DestinationStats) → Text → ℕ
count_held m a = (Option.get_or (lookup text_discrete a m) no_stats).event_count

count_held-grow_destination :
    (m : List (Text × DestinationStats)) (e : ProcessActivityEvent) (a : Text)
    → a ≢ []
    → count_held (grow_destination m e) a
      ≡ ite (text_discrete a e.remote_address) (count_held m a + 1) (count_held m a)
unfolding grow_destination grow
count_held-grow_destination m e a h =
    let at = Option.get_or (lookup text_discrete e.remote_address m) no_stats in
    ground (arith, h, lookup-assign text_discrete a e.remote_address (grow at e) m)

count_held-scan_events :
    (s : Scan) (events : List ProcessActivityEvent) (a : Text)
    → a ≢ []
    → count_held (scan_events s events).by_destination a
      ≡ count_held s.by_destination a + visits events a
unfolding scan_events scan_event visits
count_held-scan_events s [] a h = omega arith
count_held-scan_events s (e ∷ events) a h = ground (
  arith,
  count_held-scan_events (scan_event s e) events a h,
  count_held-grow_destination s.by_destination e a h,
)

module _ (first : ProcessActivityEvent) (events : List ProcessActivityEvent) where
  pub key-destination :
      (a : Text) (stats : DestinationStats)
      → Mem (a, stats) (scanned first events).by_destination
      → Mem a (destinations events)
  key-destination a stats mem =
      (Perm.mem_iff (keys-perm first events)).0 (mem-map_of_mem (λ x. x.0) mem)

  named : (a : Text) → Mem a (destinations events) → a ≢ []
  named a mem e =
      ground (arith, e, (mem-destinations_iff first events a).0 mem, is_remote-empty events)

  -- The statistics that the map holds are what the events show.
  entry-activity :
      (a : Text) (stats : DestinationStats)
      → Mem (a, stats) (scanned first events).by_destination
      → stats ≡ activity_of events a
  unfolding start_scan lookup
  entry-activity a stats mem =
      let m = (scanned first events).by_destination in
      let inside = key-destination a stats mem in
      let unique = scanned-HasUniqueKeys first events in
      let found = (mem-lookup_iff text_discrete DestinationStats-set a stats m unique).0 mem in
      let up : stats.uploaded_bytes ≡ peak (λ e. e.uploaded_bytes) events a =
        sym (entry-held uploaded-IsPeakOf m unique (a, stats) mem)
        ∙ held-scanned first events uploaded-IsPeakOf a inside in
      let down : stats.downloaded_bytes ≡ peak (λ e. e.downloaded_bytes) events a =
        sym (entry-held downloaded-IsPeakOf m unique (a, stats) mem)
        ∙ held-scanned first events downloaded-IsPeakOf a inside in
      let count : stats.event_count ≡ visits events a =
        ground
          (arith, found, count_held-scan_events (start_scan first) events a (named a inside)) in
      λ i. record { uploaded_bytes = up i; downloaded_bytes = down i; event_count = count i }

key-found :
    (m : List (Text × DestinationStats)) (a : Text)
    → Mem a (keys m)
    → (v : DestinationStats) × (lookup text_discrete a m ≡ some v)
key-found m a mem = elim (Option-cases (lookup text_discrete a m)) [
  | inl e ↦ absurd ((lookup-none_iff text_discrete a m).0 e mem)
  | inr found ↦ found
]

module _ (order : Visit Text) where
  -- The ranking of what the loop over the events leaves, for an address of the events.
  pub scanned-IsBest :
      (first : ProcessActivityEvent) (events : List ProcessActivityEvent) (a : Text)
      → Mem a (destinations events)
      → let r = rank start_ranking (order.visit (scanned first events).by_destination) in
        Mem r.most_active_destination (destinations events)
        × IsNotMore (activity_of events a) (activity_of events r.most_active_destination)
  scanned-IsBest first events a mem =
      let m = (scanned first events).by_destination in
      let visited = order.visit-perm m in
      let r = rank start_ranking (order.visit m) in
      let (v, e) = key-found m a ((Perm.mem_iff (keys-perm first events)).1 mem) in
      let there = (Perm.mem_iff visited).1 (lookup→mem text_discrete a v m e) in
      let best =
        ranked-IsBest (order.visit m)
          (λ x t.
            named first events x.0
              (key-destination first events x.0 x.1 ((Perm.mem_iff visited).0 t)))
          (a, v) there in
      let chosen = (Perm.mem_iff visited).0 best.0 in
      (
        key-destination first events r.most_active_destination r.best_stats chosen,
        sym (
              ap₂ is_more_active
                (entry-activity first events a v (lookup→mem text_discrete a v m e))
                (entry-activity first events r.most_active_destination r.best_stats chosen))
            ∙ best.1 (a, v) there,
      )

  -- Where the events have an address, in whatever order the map of destinations is visited, the
  -- most active destination of their summary is one of their addresses, and none is more active
  -- by what the events show.
  pub most_active_destination-summarize :
      (events : List ProcessActivityEvent) (a : Text)
      → Mem a (destinations events)
      → let s = summarize order events in
        Mem s.most_active_destination (destinations events)
        × (is_more_active (activity_of events a) (activity_of events s.most_active_destination)
            ≡ false)
  unfolding summarize summarize_scan destinations
  most_active_destination-summarize [] a mem = absurd (not-mem-nil mem)
  most_active_destination-summarize (e ∷ events) a mem = scanned-IsBest e (e ∷ events) a mem
