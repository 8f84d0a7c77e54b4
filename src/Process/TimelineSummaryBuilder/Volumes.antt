-- ===== src/Process/TimelineSummaryBuilder/Volumes.antt =====
-- TimelineSummaryBuilder.cpp: the totals of a summary and its count of endpoints, against a description
-- that reads the events alone.
use mathlib.Core.List.{lookup}
use mathlib.Core.Option
use data_exfiltration_detect.Common.{
  ℕ, ◌+◌, ◌%◌, ◌^◌, ◌≡◌, ◌≢◌, refl, sym, ap, ◌∙◌, List, [], ◌∷◌, Mem, ltb, ite, arith,
  if◌then◌else◌, length, length-perm,
}
use data_exfiltration_detect.Common.Text.{Text, text_discrete}
use data_exfiltration_detect.Common.Maps.{Visit, lookup-assign, HasUniqueKeys, mem-lookup_iff}
use data_exfiltration_detect.Common.Sums.{sum_by, sum_by-perm, sum_by-congr, sum_by-map}
use data_exfiltration_detect.Process.Types.{ProcessActivityEvent}
use data_exfiltration_detect.Process.TimelineSummaryBuilder.Loops.{
  DestinationStats, no_stats, Scan, Ranking, start_ranking, rank, grow, grow_destination,
  scan_event, start_scan, scan_events,
}
use data_exfiltration_detect.Process.TimelineSummaryBuilder.Destinations.{
  destinations, peak, is_remote-empty, scanned, mem-destinations_iff, scanned-HasUniqueKeys,
  remotes-perm, keys-perm,
}
use data_exfiltration_detect.Process.TimelineSummaryBuilder.{summarize, summarize_scan}

-- A counter of the events, and the part of the map's statistics that holds its peak.
pub record IsPeakOf (counter : ProcessActivityEvent → ℕ) (part : DestinationStats → ℕ)
    : Type 0 where
  pub at_first : part no_stats ≡ 0
  pub at_each :
      (stats : DestinationStats) (e : ProcessActivityEvent)
      → part (grow stats e) ≡ (if ltb (part stats) (counter e) then counter e else part stats)

pub uploaded-IsPeakOf : IsPeakOf (λ e. e.uploaded_bytes) (λ stats. stats.uploaded_bytes)
unfolding grow
uploaded-IsPeakOf = record { at_first = refl; at_each = λ stats e. refl }

pub downloaded-IsPeakOf : IsPeakOf (λ e. e.downloaded_bytes) (λ stats. stats.downloaded_bytes)
unfolding grow
downloaded-IsPeakOf = record { at_first = refl; at_each = λ stats e. refl }

pub DestinationStats-set : IsSet DestinationStats
DestinationStats-set = hlevel

module _ {counter : ProcessActivityEvent → ℕ} {part : DestinationStats → ℕ}
    (law : IsPeakOf counter part) where
  -- What a map holds of an address.
  abbrev pub held : List (Text × DestinationStats) → Text → ℕ
  held m a = part (Option.get_or (lookup text_discrete a m) no_stats)

  held-grow_destination :
      (m : List (Text × DestinationStats)) (e : ProcessActivityEvent) (a : Text)
      → a ≢ []
      → held (grow_destination m e) a
        ≡ ite
            (text_discrete a e.remote_address)
            (if ltb (held m a) (counter e) then counter e else held m a)
            (held m a)
  unfolding grow_destination
  held-grow_destination m e a h =
      let at = Option.get_or (lookup text_discrete e.remote_address m) no_stats in
      ground
        (arith, h, lookup-assign text_discrete a e.remote_address (grow at e) m, law.at_each at e)

  held-scan_events :
      (s : Scan) (events : List ProcessActivityEvent) (a : Text)
      → a ≢ []
      → held (scan_events s events).by_destination a ≡ (
          let first = held s.by_destination a in
          if ltb first (peak counter events a) then peak counter events a else first)
  unfolding scan_events scan_event peak
  held-scan_events s [] a h = ground arith
  held-scan_events s (e ∷ events) a h = ground (
    arith,
    held-scan_events (scan_event s e) events a h,
    held-grow_destination s.by_destination e a h,
  )

  pub entry-held :
      (m : List (Text × DestinationStats))
      → HasUniqueKeys m
      → (x : Text × DestinationStats) → Mem x m
      → held m x.0 ≡ part x.1
  entry-held m u (a, stats) mem =
      rw ((mem-lookup_iff text_discrete DestinationStats-set a stats m u).0 mem, held) refl

module _ (first : ProcessActivityEvent) (events : List ProcessActivityEvent) where
  pub held-scanned :
      {counter : ProcessActivityEvent → ℕ} {part : DestinationStats → ℕ}
      (law : IsPeakOf counter part) (a : Text)
      → Mem a (destinations events)
      → held law (scanned first events).by_destination a ≡ peak counter events a
  unfolding start_scan lookup
  held-scanned law a mem =
      let filled : a ≢ [] = λ e.
        ground (arith, e, (mem-destinations_iff first events a).0 mem, is_remote-empty events) in
      ground (arith, held-scan_events law (start_scan first) events a filled, law.at_first)

  -- In whatever order the map is visited, the parts add up to the peaks.
  parts-peaks :
      {counter : ProcessActivityEvent → ℕ} {part : DestinationStats → ℕ}
      → IsPeakOf counter part
      → (order : Visit Text)
      → sum_by
          (λ (x : Text × DestinationStats). part x.1)
          (order.visit (scanned first events).by_destination)
        ≡ sum_by (peak counter events) (destinations events)
  parts-peaks {counter} {part} law order =
      let m = (scanned first events).by_destination in
      sum_by-perm (λ x. part x.1) (order.visit-perm m)
      ∙ sum_by-congr (λ x. part x.1) (λ x. held law m x.0) m
          (λ x mem. sym (entry-held law m (scanned-HasUniqueKeys first events) x mem))
      ∙ sym (sum_by-map (held law m) (λ x. x.0) m)
      ∙ sum_by-perm (held law m) (keys-perm first events)
      ∙ sum_by-congr (held law m) (peak counter events) (destinations events) (held-scanned law)

total_uploaded-rank :
    (m : List (Text × DestinationStats)) (r : Ranking)
    → r.total_uploaded % 2 ^ 64 ≡ r.total_uploaded
    → (rank r m).total_uploaded
      ≡ (r.total_uploaded + sum_by (λ (x : Text × DestinationStats). x.1.uploaded_bytes) m) % 2 ^ 64
unfolding rank sum_by
total_uploaded-rank [] r h = omega (arith, h)
total_uploaded-rank ((a, stats) ∷ m) r h = total_uploaded-rank m _ (omega arith) ∙ omega arith

total_downloaded-rank :
    (m : List (Text × DestinationStats)) (r : Ranking)
    → r.total_downloaded % 2 ^ 64 ≡ r.total_downloaded
    → (rank r m).total_downloaded
      ≡ (r.total_downloaded + sum_by (λ (x : Text × DestinationStats). x.1.downloaded_bytes) m)
        % 2 ^ 64
unfolding rank sum_by
total_downloaded-rank [] r h = omega (arith, h)
total_downloaded-rank ((a, stats) ∷ m) r h = total_downloaded-rank m _ (omega arith) ∙ omega arith

-- In whatever order the map of destinations is visited, a summary counts the distinct addresses
-- of its events, and its totals are the sums over these addresses of the largest counters that
-- the events show of each, modulo 2^64.
pub summarize-volumes :
    (order : Visit Text) (events : List ProcessActivityEvent)
    → let s = summarize order events in
      (s.remote_endpoint_count ≡ length (destinations events))
      × (s.total_uploaded_bytes
          ≡ sum_by (peak (λ e. e.uploaded_bytes) events) (destinations events) % 2 ^ 64)
      × (s.total_downloaded_bytes
          ≡ sum_by (peak (λ e. e.downloaded_bytes) events) (destinations events) % 2 ^ 64)
unfolding summarize summarize_scan
summarize-volumes order [] = unfold destinations sum_by in (refl, refl, refl)
summarize-volumes order (e ∷ events) =
    let s = scan_events (start_scan e) (e ∷ events) in
    (
      length-perm (remotes-perm e (e ∷ events)),
      total_uploaded-rank (order.visit s.by_destination) start_ranking (omega arith)
          ∙ ap (λ n. (0 + n) % 2 ^ 64) (parts-peaks e (e ∷ events) uploaded-IsPeakOf order)
          ∙ omega arith,
      total_downloaded-rank (order.visit s.by_destination) start_ranking (omega arith)
          ∙ ap (λ n. (0 + n) % 2 ^ 64) (parts-peaks e (e ∷ events) downloaded-IsPeakOf order)
          ∙ omega arith,
    )
