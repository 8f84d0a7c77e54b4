-- ===== src/Network/TransferRateTracker/Invariant.antt =====
-- TransferRateTracker.h and .cpp: the invariant of the tracker's maps.
use mathlib.Core.List.{lookup, Nodup-nil}
use data_exfiltration_detect.Common.{
  ℕ, ◌≡◌, ◌≢◌, ◌↔◌, refl, sym, ap, subst, ◌∙◌, List, [], ◌∷◌, none, some, inl, inr, Option-cases,
  arith, ℕ_discrete,
}
use data_exfiltration_detect.Common.Text.{Text, text_discrete}
use data_exfiltration_detect.Common.Maps.{Visit, HasUniqueKeys, emplace-HasUniqueKeys}
use data_exfiltration_detect.Common.Snapshots.{first_row-key}
use data_exfiltration_detect.Common.Sums.{sum_by}
use data_exfiltration_detect.Network.Floats.{Floats}
use data_exfiltration_detect.Network.Types.{ConnectionTransferSnapshot, make_key}
use data_exfiltration_detect.Network.BandwidthStats.{ProcessBandwidthStats}
use data_exfiltration_detect.Network.TransferRateTracker.State.{
  TrackedTransfer, TransferRateTracker, reset,
}
use data_exfiltration_detect.Network.TransferRateTracker.Rows.{
  row_key, first_track, next_track, track, scan,
}
use data_exfiltration_detect.Network.TransferRateTracker.Aggregates.{
  Aggregate, to_process_stats, Published, publish_aggregate, publish_aggregates,
  rebuild_process_stats, fold_all,
}
use data_exfiltration_detect.Network.TransferRateTracker.Updates.{update_connections, update}
use data_exfiltration_detect.Network.TransferRateTracker.Connections.{
  row_of, tracked, next-HasUniqueKeys, lookup-scan,
}
use data_exfiltration_detect.Network.TransferRateTracker.Totals.{total, one_each}
use data_exfiltration_detect.Network.TransferRateTracker.Processes.{
  active_process, closed_process, collected, numbers-rebuild,
}
use data_exfiltration_detect.Network.TransferRateTracker.Closing.{closed_process-rebuild}
use data_exfiltration_detect.Network.TransferRateTracker.Conservation.{IsKeyed}

-- What holds of the maps between two calls.
pub record IsValid {Double : Type 0} (t : TransferRateTracker Double) : Type 0 where
  pub unique_transfers : HasUniqueKeys t.active_transfers
  pub keyed : IsKeyed t.active_transfers
  pub unique_processes : HasUniqueKeys t.active_process_stats
  -- The statistics of a process are held under its id.
  pub process_keyed :
      (pid : ℕ) (s : ProcessBandwidthStats Double)
      → active_process t pid ≡ some s
      → s.process_id ≡ pid
  -- A process has statistics exactly when it has connections, and final ones only if it has none.
  pub active_iff :
      (pid : ℕ) → (active_process t pid ≡ none) ↔ (total one_each pid t.active_transfers ≡ 0)
  pub disjoint : (pid : ℕ) → closed_process t pid ≢ none → total one_each pid t.active_transfers ≡ 0

module _ {Double : Type 0} where
  publish_aggregates-HasUniqueKeys :
      (p : Published Double) (m : List (ℕ × Aggregate Double))
      → HasUniqueKeys p.active
      → HasUniqueKeys (publish_aggregates p m).active
  unfolding publish_aggregates publish_aggregate
  publish_aggregates-HasUniqueKeys p [] u = u
  publish_aggregates-HasUniqueKeys p ((pid, agg) ∷ m) u =
      publish_aggregates-HasUniqueKeys (publish_aggregate pid agg p) m
        (emplace-HasUniqueKeys ℕ_discrete pid (to_process_stats pid agg) p.active u)

  pub reset-IsValid : (t : TransferRateTracker Double) → IsValid (reset t)
  unfolding reset lookup sum_by
  reset-IsValid t = record {
    unique_transfers = Nodup-nil;
    keyed = λ k v h. cc;
    unique_processes = Nodup-nil;
    process_keyed = λ pid s h. cc;
    active_iff = λ pid. (λ h. refl, λ h. refl);
    disjoint = λ pid h. refl;
  }

module _ {Double : Type 0} (f : Floats Double) where
  connection-track :
      (t : TransferRateTracker Double) (now : ℕ) (r : ConnectionTransferSnapshot)
      → (track f t now r).connection ≡ r.connection
  unfolding track first_track next_track
  connection-track t now r = elim (Option-cases (tracked t (row_key r))) [
    | inl e ↦ rw (e, track) refl
    | inr (u, e) ↦ rw (e, track) refl
  ]

  pub scan-IsKeyed :
      (t : TransferRateTracker Double) (now : ℕ) (rows : List ConnectionTransferSnapshot)
      → IsKeyed (scan f t now rows).pass.next
  unfolding row_key
  scan-IsKeyed t now rows k v h = elim (Option-cases (row_of k rows)) [
    | inl e ↦ absurd (ground (arith, h, lookup-scan f t now rows k, e))
    | inr (r, e) ↦
        let held : track f t now r ≡ v = ground (arith, h, lookup-scan f t now rows k, e) in
        ap (λ (x : TrackedTransfer Double). make_key x.connection) (sym held)
        ∙ ap make_key (connection-track t now r)
        ∙ first_row-key text_discrete row_key k rows r e
  ]

  module _ (set : IsSet Double) (order : Visit Text) (pids : Visit ℕ) where
    active-rebuild_iff :
        (t : TransferRateTracker Double) (pid : ℕ)
        → (active_process (rebuild_process_stats f order pids t) pid ≡ none)
          ↔ (total one_each pid t.active_transfers ≡ 0)
    active-rebuild_iff t pid = ground (arith, numbers-rebuild f set order pids t pid)

    closed-rebuild :
        (t : TransferRateTracker Double) (pid : ℕ)
        → HasUniqueKeys t.active_process_stats
        → closed_process (rebuild_process_stats f order pids t) pid ≢ none
        → total one_each pid t.active_transfers ≡ 0
    closed-rebuild t pid u h = ground (arith, h, closed_process-rebuild f set order pids t pid u)

    unique-rebuild :
        (t : TransferRateTracker Double)
        → HasUniqueKeys (rebuild_process_stats f order pids t).active_process_stats
    unfolding rebuild_process_stats
    unique-rebuild t =
        publish_aggregates-HasUniqueKeys
          (record { names = t.process_names; first = t.process_first_observed; active = [] })
          (pids.visit (fold_all t (collected f set order pids t))) Nodup-nil

    transfers-rebuild :
        (t : TransferRateTracker Double)
        → (rebuild_process_stats f order pids t).active_transfers ≡ t.active_transfers
    unfolding rebuild_process_stats
    transfers-rebuild t = refl

    -- Rebuilding the statistics of processes completes the invariant.
    rebuild_process_stats-IsValid :
        (t : TransferRateTracker Double)
        → HasUniqueKeys t.active_transfers
        → IsKeyed t.active_transfers
        → HasUniqueKeys t.active_process_stats
        → IsValid (rebuild_process_stats f order pids t)
    rebuild_process_stats-IsValid t u keyed up = record {
      unique_transfers = subst HasUniqueKeys (sym (transfers-rebuild t)) u;
      keyed = subst IsKeyed (sym (transfers-rebuild t)) keyed;
      unique_processes = unique-rebuild t;
      process_keyed = λ pid s h. ground (arith, h, numbers-rebuild f set order pids t pid);
      active_iff = λ pid. rw (transfers-rebuild t) (active-rebuild_iff t pid);
      disjoint = λ pid h. rw (transfers-rebuild t) (closed-rebuild t pid up h);
    }

    pub connections-update :
        (now : ℕ) (t : TransferRateTracker Double) (rows : List ConnectionTransferSnapshot)
        → let c = (update_connections f order now t rows).0 in
          (c.active_transfers ≡ (scan f t now rows).pass.next)
          × (c.active_process_stats ≡ t.active_process_stats)
    unfolding update_connections
    connections-update now t rows = (refl, refl)

    -- The invariant of the rate tracker's maps holds again after every update, whatever set the
    -- rates are from: keys are unique, a connection is held under its own key and a process under
    -- its id, a process has active statistics exactly when a tracked connection is its own, and
    -- final statistics only when none is.
    pub update-IsValid :
        (now : ℕ) (t : TransferRateTracker Double) (rows : List ConnectionTransferSnapshot)
        → IsValid t
        → IsValid (update f order pids now t rows).0
    unfolding update
    update-IsValid now t rows v =
        let c = connections-update now t rows in
        rebuild_process_stats-IsValid (update_connections f order now t rows).0
          (subst HasUniqueKeys (sym c.0) (next-HasUniqueKeys f t now rows))
          (subst IsKeyed (sym c.0) (scan-IsKeyed t now rows))
          (subst HasUniqueKeys (sym c.1) v.unique_processes)
