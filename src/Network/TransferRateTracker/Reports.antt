-- ===== src/Network/TransferRateTracker/Reports.antt =====
-- TransferRateTracker.cpp: the rates of connections, what is reported of connections that closed, and
-- the list of `getProcessBandwidthStats`.
use mathlib.Core.List.{exists_of_mem-map}
use mathlib.Core.List.Perm
use mathlib.Core.Option
use mathlib.Core.Option.{is_set as Option-set}
use data_exfiltration_detect.Common.{
  ℕ, ◌≡◌, sym, ap, ◌∙◌, List, map, Mem, Perm, some, true, false, arith, ℕ_discrete, if◌then◌else◌,
  ∥∥₁_elim,
}
use data_exfiltration_detect.Common.Text.{Text, text_discrete}
use data_exfiltration_detect.Common.Maps.{Visit, mem-lookup_iff}
use data_exfiltration_detect.Common.Snapshots.{first_row-key}
use data_exfiltration_detect.Common.Sorting.{
  IsStrictWeak, IsSortedBy, HasNoTies, stable_sort-perm, stable_sort-IsSortedBy,
  stable_sort-perm_eq,
}
use data_exfiltration_detect.Common.Statistics.{closing}
use data_exfiltration_detect.Network.Floats.{Floats, HasOrder}
use data_exfiltration_detect.Network.Types.{ConnectionTransferSnapshot}
use data_exfiltration_detect.Network.BandwidthStats.{
  ConnectionBandwidthStats, ProcessBandwidthStats,
}
use data_exfiltration_detect.Network.TransferRateTracker.State.{
  TrackedTransfer, TransferRateTracker, compute_delta, compute_rate, to_connection_stats,
}
use data_exfiltration_detect.Network.TransferRateTracker.Rows.{
  row_key, row_time, next_track, safe_elapsed, track,
}
use data_exfiltration_detect.Network.TransferRateTracker.Aggregates.{
  process_less, get_process_bandwidth_stats,
}
use data_exfiltration_detect.Network.TransferRateTracker.Updates.{update}
use data_exfiltration_detect.Network.TransferRateTracker.Connections.{
  row_of, tracked, active_stats, closed_stats, tracked-update, active_stats-update,
  closed_stats-update, results-update,
}
use data_exfiltration_detect.Network.TransferRateTracker.Processes.{active_process}
use data_exfiltration_detect.Network.TransferRateTracker.Closing.{ProcessBandwidthStats-set}
use data_exfiltration_detect.Network.TransferRateTracker.Invariant.{IsValid}

module _ {Double : Type 0} (f : Floats Double) where
  -- Bytes over the time between two readings; zero where that time is not above `1e-9` seconds.
  abbrev pub rate : ℕ → ℕ → ℕ → Double
  rate bytes first last =
      if f.less_equal (f.seconds first last) f.nano
      then f.zero
      else f.divide (f.of_bytes bytes) (f.seconds first last)

  -- What a tracked connection is to report: its process, remote end, totals, times and rates.
  abbrev pub live_stats : TrackedTransfer Double → ConnectionBandwidthStats Double
  live_stats v = record {
    process_id = v.connection.process_id;
    process_name = v.process_name;
    remote_address = v.connection.remote_address;
    remote_port = v.connection.remote_port;
    protocol = v.connection.protocol;
    uploaded_bytes = v.cumulative_uploaded_bytes;
    downloaded_bytes = v.cumulative_downloaded_bytes;
    upload_rate_bps = v.upload_rate_bps;
    download_rate_bps = v.download_rate_bps;
    first_observed = v.first_observed;
    last_updated = v.last_updated;
    is_active = true;
  }

  -- What is to be kept of a connection that went: the same without rates.
  abbrev pub final_stats_of : TrackedTransfer Double → ConnectionBandwidthStats Double
  final_stats_of v = record {
    process_id = v.connection.process_id;
    process_name = v.process_name;
    remote_address = v.connection.remote_address;
    remote_port = v.connection.remote_port;
    protocol = v.connection.protocol;
    uploaded_bytes = v.cumulative_uploaded_bytes;
    downloaded_bytes = v.cumulative_downloaded_bytes;
    upload_rate_bps = f.zero;
    download_rate_bps = f.zero;
    first_observed = v.first_observed;
    last_updated = v.last_updated;
    is_active = false;
  }

  compute_rate-safe_elapsed :
      HasOrder f
      → (bytes first last : ℕ)
      → compute_rate f bytes (safe_elapsed f first last) ≡ rate bytes first last
  unfolding compute_rate safe_elapsed
  compute_rate-safe_elapsed h bytes first last =
      ground (arith, h.greater_not (f.seconds first last) f.nano, h.zero_small)

  module _ (set : IsSet Double) (order : Visit Text) (pids : Visit ℕ) (now : ℕ)
      (t : TransferRateTracker Double) (rows : List ConnectionTransferSnapshot) where
    -- Over a set of floating-point numbers with the order laws, an update of a seeded tracker in
    -- which a tracked connection has a row gives the connection the rates of what its counters
    -- grew by since its last update, and zero rates where the time since then is not above 1e-9
    -- seconds: there it never divides.
    pub rates-update :
        (k : Text) (u : TrackedTransfer Double) (r : ConnectionTransferSnapshot)
        → HasOrder f
        → t.seeded ≡ true
        → tracked t k ≡ some u
        → row_of k rows ≡ some r
        → (v : TrackedTransfer Double) × (tracked (update f order pids now t rows).0 k ≡ some v)
          × (v.upload_rate_bps
              ≡ rate
                  (compute_delta u.baseline_bytes_sent r.bytes_sent)
                  u.last_updated
                  (row_time now r))
          × (v.download_rate_bps
              ≡ rate
                  (compute_delta u.baseline_bytes_received r.bytes_received)
                  u.last_updated
                  (row_time now r))
    unfolding next_track
    rates-update k u r h seeded held row =
        let key = first_row-key text_discrete row_key k rows r row in
        let held' : tracked t (row_key r) ≡ some u = ap (tracked t) key ∙ held in
        let new : track f t now r ≡ next_track f true now u r =
          unfold track in (rw (held', track) (ap (λ b. next_track f b now u r) seeded)) in
        (
          next_track f true now u r,
          tracked-update f set order pids now t rows k
              ∙ ap (Option.map (track f t now)) row
              ∙ ap (λ x. some x) new,
          compute_rate-safe_elapsed h _ u.last_updated (row_time now r),
          compute_rate-safe_elapsed h _ u.last_updated (row_time now r),
        )

    -- After an update of a seeded tracker with the invariant, in any order of its maps and
    -- whatever set the rates are from, the tracked connections are built of the first row with
    -- each key, the active statistics and the result are what is held of them, marked as active,
    -- and the final statistics of a connection that went are what was last tracked of it, with
    -- zero rates, marked as not active.
    pub active_transfers-update :
        t.seeded ≡ true
        → IsValid t
        → let r = update f order pids now t rows in
          ((k : Text) → tracked r.0 k ≡ Option.map (track f t now) (row_of k rows))
          × ((k : Text) → active_stats r.0 k ≡ Option.map live_stats (tracked r.0 k))
          × ((k : Text)
              → closed_stats r.0 k
                ≡ closing final_stats_of (tracked r.0 k) (tracked t k) (closed_stats t k))
          × Perm r.1
              (map (λ (e : Text × TrackedTransfer Double). live_stats e.1) r.0.active_transfers)
    unfolding to_connection_stats
    active_transfers-update seeded v = (
      tracked-update f set order pids now t rows,
      active_stats-update f set order pids now t rows,
      λ k. closed_stats-update f set order pids now t rows k seeded v.unique_transfers,
      results-update f set order pids now t rows,
    )

module _ {Double : Type 0} where
  process_less-IsStrictWeak : IsStrictWeak (process_less {Double = Double})
  unfolding process_less
  process_less-IsStrictWeak = record {
    asymm = λ x y h. ground arith;
    negatively_transitive = λ x y z h k. ground arith;
  }

  listed : TransferRateTracker Double → List (ProcessBandwidthStats Double)
  listed t = map (λ e. e.1) t.active_process_stats

  held-listed :
      IsSet Double
      → (t : TransferRateTracker Double) → IsValid t
      → (s : ProcessBandwidthStats Double) → Mem s (listed t)
      → active_process t s.process_id ≡ some s
  unfolding listed
  held-listed set t v s mem =
      ∥∥₁_elim (exists_of_mem-map mem) ((Option-set (ProcessBandwidthStats-set set)) _ _)
        (λ (e, here, p).
          let found =
            (mem-lookup_iff ℕ_discrete (ProcessBandwidthStats-set set) e.0 e.1
                t.active_process_stats v.unique_processes).0
              here in
          let key : s.process_id ≡ e.0 =
            ap (λ (x : ProcessBandwidthStats Double). x.process_id) (sym p)
            ∙ v.process_keyed e.0 e.1 found in
          ap (active_process t) key ∙ found ∙ ap (λ x. some x) p)

  -- No two processes have one id.
  listed-HasNoTies :
      IsSet Double
      → (t : TransferRateTracker Double) → IsValid t
      → (xs : List (ProcessBandwidthStats Double)) → Perm xs (listed t)
      → HasNoTies (process_less-IsStrictWeak) xs
  unfolding process_less
  listed-HasNoTies set t v xs p a b ma mb h k =
      let fa = held-listed set t v a ((Perm.mem_iff p).0 ma) in
      let fb = held-listed set t v b ((Perm.mem_iff p).0 mb) in
      let same : a.process_id ≡ b.process_id = ground (arith, h, k) in
      some_injective (sym fa ∙ ap (active_process t) same ∙ fb)
    where
      some_injective : {x y : ProcessBandwidthStats Double} → some x ≡ some y → x ≡ y
      some_injective e = cc

  -- Of a rate tracker with the invariant, with rates from any set, the list of process statistics
  -- is in order of the process ids, it has the statistics of every active process, and it does
  -- not depend on the order in which the map is visited.
  pub get_process_bandwidth_stats_lem :
      IsSet Double
      → (pids others : Visit ℕ) (t : TransferRateTracker Double) → IsValid t
      → IsSortedBy process_less (get_process_bandwidth_stats pids t)
        × Perm
            (get_process_bandwidth_stats pids t)
            (map (λ (e : ℕ × ProcessBandwidthStats Double). e.1) t.active_process_stats)
        × (get_process_bandwidth_stats pids t ≡ get_process_bandwidth_stats others t)
  unfolding get_process_bandwidth_stats listed
  get_process_bandwidth_stats_lem set pids others t v =
      let p =
        Perm.map (λ (e : ℕ × ProcessBandwidthStats Double). e.1)
          (pids.visit-perm t.active_process_stats) in
      let q =
        Perm.map (λ (e : ℕ × ProcessBandwidthStats Double). e.1)
          (others.visit-perm t.active_process_stats) in
      let xs : List (ProcessBandwidthStats Double) =
        map (λ e. e.1) (pids.visit t.active_process_stats) in
      (
        stable_sort-IsSortedBy process_less-IsStrictWeak xs,
        Perm.trans (stable_sort-perm process_less xs) p,
        stable_sort-perm_eq process_less-IsStrictWeak xs _ (listed-HasNoTies set t v xs p)
            (Perm.trans p (Perm.symm q)),
      )
