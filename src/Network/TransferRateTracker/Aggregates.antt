-- ===== src/Network/TransferRateTracker/Aggregates.antt =====
-- TransferRateTracker.cpp, `rebuildProcessStats` and `getProcessBandwidthStats`: the statistics of
-- processes, built anew of what is tracked of connections.
use mathlib.Core.List.{lookup}
use mathlib.Core.Option
use data_exfiltration_detect.Common.{
  ℕ, ◌+◌, ◌%◌, ◌^◌, List, [], ◌∷◌, map, Bool, true, false, Option, none, some, not, ◌&&◌, ◌||◌, ltb,
  is_empty, ℕ_discrete, if◌then◌else◌,
}
use data_exfiltration_detect.Common.Text.{Text}
use data_exfiltration_detect.Common.Maps.{Visit, contains, keys, assign, emplace, erase}
use data_exfiltration_detect.Common.Sorting.{stable_sort}
use data_exfiltration_detect.Network.Floats.{Floats}
use data_exfiltration_detect.Network.BandwidthStats.{ProcessBandwidthStats}
use data_exfiltration_detect.Network.TransferRateTracker.State.{
  TrackedTransfer, TransferRateTracker,
}
use data_exfiltration_detect.Network.TransferRateTracker.Rows.{note_first}

pub record Aggregate (Double : Type 0) : Type 0 where
  pub process_name : Text
  pub uploaded_bytes : ℕ
  pub downloaded_bytes : ℕ
  pub upload_rate_bps : Double
  pub download_rate_bps : Double
  pub first_observed : ℕ
  pub last_updated : ℕ
  pub active_connection_count : ℕ
  pub has_first : Bool

module _ {Double : Type 0} (f : Floats Double) where
  abbrev pub empty_aggregate : Aggregate Double
  empty_aggregate = record {
    process_name = [];
    uploaded_bytes = 0;
    downloaded_bytes = 0;
    upload_rate_bps = f.zero;
    download_rate_bps = f.zero;
    first_observed = 0;
    last_updated = 0;
    active_connection_count = 0;
    has_first = false;
  }

  -- What one tracked connection adds to its process.
  unfoldable pub add_transfer : TrackedTransfer Double → Aggregate Double → Aggregate Double
  add_transfer tracked agg = record {
    process_name =
        if is_empty agg.process_name && not (is_empty tracked.process_name)
        then tracked.process_name
        else agg.process_name;
    uploaded_bytes = (agg.uploaded_bytes + tracked.cumulative_uploaded_bytes) % 2 ^ 64;
    downloaded_bytes = (agg.downloaded_bytes + tracked.cumulative_downloaded_bytes) % 2 ^ 64;
    upload_rate_bps = f.add agg.upload_rate_bps tracked.upload_rate_bps;
    download_rate_bps = f.add agg.download_rate_bps tracked.download_rate_bps;
    first_observed =
        if not agg.has_first || ltb tracked.first_observed agg.first_observed
        then tracked.first_observed
        else agg.first_observed;
    last_updated =
        if ltb agg.last_updated tracked.last_updated
        then tracked.last_updated
        else agg.last_updated;
    active_connection_count = (agg.active_connection_count + 1) % 2 ^ 64;
    has_first = true;
  }

  -- `aggregates[pid]`.
  abbrev pub aggregate_of : ℕ → List (ℕ × Aggregate Double) → Aggregate Double
  aggregate_of pid aggregates = Option.get_or (lookup ℕ_discrete pid aggregates) empty_aggregate

  -- The loop over the tracked connections.
  unfoldable pub aggregate :
      List (ℕ × Aggregate Double)
      → List (Text × TrackedTransfer Double)
      → List (ℕ × Aggregate Double)
  unfolding add_transfer assign lookup ℕ_discrete
  aggregate aggregates [] = aggregates
  aggregate aggregates ((key, tracked) ∷ transfers) =
      let pid = tracked.connection.process_id in
      aggregate
        (assign ℕ_discrete pid (add_transfer tracked (aggregate_of pid aggregates)) aggregates)
        transfers

-- The optional entry of a map of byte totals.
abbrev pub held_total : ℕ → List (ℕ × ℕ) → Option ℕ
held_total = lookup ℕ_discrete

abbrev pub add_total : ℕ → Option ℕ → ℕ
add_total n none = n
add_total n (some total) = (n + total) % 2 ^ 64

abbrev pub known_name : Text → Option Text → Text
known_name name none = name
known_name name (some named) = if is_empty name then named else name

module _ {Double : Type 0} where
  -- The time of the first observation, and whether there is one.
  unfoldable pub fold_first : Option ℕ → Aggregate Double → ℕ × Bool
  fold_first none agg = (agg.first_observed, agg.has_first)
  fold_first (some seen) agg =
      if not agg.has_first || ltb seen agg.first_observed
      then (seen, true)
      else (agg.first_observed, agg.has_first)

  -- The preserved totals, name and first observation of a process, folded into its aggregate.
  unfoldable pub fold_closed : TransferRateTracker Double → ℕ → Aggregate Double → Aggregate Double
  unfolding fold_first lookup ℕ_discrete
  fold_closed t pid agg =
      let first = fold_first (lookup ℕ_discrete pid t.process_first_observed) agg in
      record agg {
        uploaded_bytes = add_total agg.uploaded_bytes (held_total pid t.closed_uploaded_by_process);
        downloaded_bytes =
            add_total agg.downloaded_bytes (held_total pid t.closed_downloaded_by_process);
        process_name = known_name agg.process_name (lookup ℕ_discrete pid t.process_names);
        first_observed = first.0;
        has_first = first.1;
      }

  -- The loop that changes each aggregate in its place.
  unfoldable pub fold_all :
      TransferRateTracker Double → List (ℕ × Aggregate Double) → List (ℕ × Aggregate Double)
  unfolding fold_closed
  fold_all t = map (λ e. (e.0, fold_closed t e.0 e.1))

  -- `for (pid : aggregates) closedProcessStats_.erase(pid);`
  unfoldable pub erase_all :
      List ℕ → List (ℕ × ProcessBandwidthStats Double) → List (ℕ × ProcessBandwidthStats Double)
  unfolding erase ℕ_discrete
  erase_all [] closed = closed
  erase_all (pid ∷ pids) closed = erase_all pids (erase ℕ_discrete pid closed)

  unfoldable pub to_process_stats : ℕ → Aggregate Double → ProcessBandwidthStats Double
  to_process_stats pid agg = record {
    process_id = pid;
    process_name = agg.process_name;
    uploaded_bytes = agg.uploaded_bytes;
    downloaded_bytes = agg.downloaded_bytes;
    upload_rate_bps = agg.upload_rate_bps;
    download_rate_bps = agg.download_rate_bps;
    first_observed = agg.first_observed;
    last_updated = agg.last_updated;
    active_connection_count = agg.active_connection_count;
  }

-- The three maps that the last loop writes to.
pub record Published (Double : Type 0) : Type 0 where
  pub names : List (ℕ × Text)
  pub first : List (ℕ × ℕ)
  pub active : List (ℕ × ProcessBandwidthStats Double)

module _ {Double : Type 0} where
  unfoldable pub publish_aggregate : ℕ → Aggregate Double → Published Double → Published Double
  unfolding note_first to_process_stats assign emplace ℕ_discrete
  publish_aggregate pid agg p = record {
    names = assign ℕ_discrete pid agg.process_name p.names;
    first = if agg.has_first then note_first pid agg.first_observed p.first else p.first;
    active = emplace ℕ_discrete pid (to_process_stats pid agg) p.active;
  }

  unfoldable pub publish_aggregates :
      Published Double → List (ℕ × Aggregate Double) → Published Double
  unfolding publish_aggregate
  publish_aggregates p [] = p
  publish_aggregates p ((pid, agg) ∷ aggregates) =
      publish_aggregates (publish_aggregate pid agg p) aggregates

module _ {Double : Type 0} (f : Floats Double) where
  -- The final statistics of a process that lost its last connection.
  unfoldable pub final_stats :
      TransferRateTracker Double → ℕ → ProcessBandwidthStats Double → ProcessBandwidthStats Double
  unfolding lookup ℕ_discrete
  final_stats t pid previous = record {
    process_id = pid;
    process_name = previous.process_name;
    uploaded_bytes =
        Option.get_or (held_total pid t.closed_uploaded_by_process) previous.uploaded_bytes;
    downloaded_bytes =
        Option.get_or (held_total pid t.closed_downloaded_by_process) previous.downloaded_bytes;
    upload_rate_bps = f.zero;
    download_rate_bps = f.zero;
    first_observed = previous.first_observed;
    last_updated = previous.last_updated;
    active_connection_count = 0;
  }

  -- The loop over the processes that were active.
  unfoldable pub close_processes :
      TransferRateTracker Double
      → List ℕ
      → List (ℕ × ProcessBandwidthStats Double)
      → List (ℕ × ProcessBandwidthStats Double)
      → List (ℕ × ProcessBandwidthStats Double)
  unfolding contains assign ℕ_discrete final_stats
  close_processes t still_active closed [] = closed
  close_processes t still_active closed ((pid, previous) ∷ active) =
      close_processes t still_active
        (if contains ℕ_discrete pid still_active
          then closed
          else assign ℕ_discrete pid (final_stats t pid previous) closed)
        active

  unfoldable pub rebuild_process_stats :
      Visit Text → Visit ℕ → TransferRateTracker Double → TransferRateTracker Double
  unfolding aggregate fold_all erase_all close_processes publish_aggregates
  rebuild_process_stats order pids t =
      let aggregates = fold_all t (aggregate f [] (order.visit t.active_transfers)) in
      let still_active = keys (pids.visit aggregates) in
      let erased = erase_all still_active t.closed_process_stats in
      let published =
        publish_aggregates
          (record { names = t.process_names; first = t.process_first_observed; active = [] })
          (pids.visit aggregates) in
      record t {
        closed_process_stats =
            close_processes t still_active erased (pids.visit t.active_process_stats);
        active_process_stats = published.active;
        process_names = published.names;
        process_first_observed = published.first;
      }

-- `a.processId < b.processId`.
unfoldable pub process_less :
    {Double : Type 0} → ProcessBandwidthStats Double → ProcessBandwidthStats Double → Bool
process_less a b = ltb a.process_id b.process_id

-- No two elements have one process id, so that `std::sort` has one result.
unfoldable pub get_process_bandwidth_stats :
    {Double : Type 0} → Visit ℕ → TransferRateTracker Double → List (ProcessBandwidthStats Double)
unfolding stable_sort process_less
get_process_bandwidth_stats pids t =
    stable_sort process_less (map (λ e. e.1) (pids.visit t.active_process_stats))
