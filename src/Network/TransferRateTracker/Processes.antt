-- ===== src/Network/TransferRateTracker/Processes.antt =====
-- TransferRateTracker.cpp: the statistics of processes after `rebuildProcessStats`.
use mathlib.Core.List.{lookup, Nodup-nil}
use mathlib.Core.Option
use data_exfiltration_detect.Common.{
  ℕ, ◌+◌, ◌%◌, ◌^◌, ◌<◌, ◌≡◌, refl, sym, ap, ◌∙◌, List, [], ◌∷◌, Option, none, some, inl, inr,
  Option-cases, arith, ℕ_discrete, if◌then◌else◌, ◌==◌, subst, Nodup,
}
use data_exfiltration_detect.Common.Text.{Text}
use data_exfiltration_detect.Common.Maps.{Visit, HasUniqueKeys, keys, lookup-perm}
use data_exfiltration_detect.Common.Statistics.{or_else, lookup-emplace}
use data_exfiltration_detect.Common.Sums.{sum_by-perm}
use data_exfiltration_detect.Network.Floats.{Floats}
use data_exfiltration_detect.Network.BandwidthStats.{ProcessBandwidthStats}
use data_exfiltration_detect.Network.TransferRateTracker.State.{
  TrackedTransfer, TransferRateTracker,
}
use data_exfiltration_detect.Network.TransferRateTracker.Aggregates.{
  Aggregate, empty_aggregate, add_total, held_total, aggregate, fold_closed, fold_all, Published,
  to_process_stats, publish_aggregate, publish_aggregates, rebuild_process_stats,
}
use data_exfiltration_detect.Network.TransferRateTracker.Totals.{
  Sums, share, total, uploaded, downloaded, one_each, aggregate-Sums, lookup-aggregate,
  aggregate-HasUniqueKeys,
}

module _ {Double : Type 0} where
  -- The entry of an active process.
  abbrev pub active_process : TransferRateTracker Double → ℕ → Option (ProcessBandwidthStats Double)
  active_process t pid = lookup ℕ_discrete pid t.active_process_stats

  abbrev pub closed_process : TransferRateTracker Double → ℕ → Option (ProcessBandwidthStats Double)
  closed_process t pid = lookup ℕ_discrete pid t.closed_process_stats

  -- The bytes that a process moved by connections that closed.
  abbrev pub closed_uploaded : TransferRateTracker Double → ℕ → ℕ
  closed_uploaded t pid = Option.get_or (held_total pid t.closed_uploaded_by_process) 0

  abbrev pub closed_downloaded : TransferRateTracker Double → ℕ → ℕ
  closed_downloaded t pid = Option.get_or (held_total pid t.closed_downloaded_by_process) 0

  -- The numbers of a process's statistics.
  abbrev pub numbers : ProcessBandwidthStats Double → ℕ × ℕ × ℕ × ℕ
  numbers s = (s.process_id, s.uploaded_bytes, s.downloaded_bytes, s.active_connection_count)

  pub Aggregate-set : IsSet Double → IsSet (Aggregate Double)
  Aggregate-set set = hlevel

  lookup-fold_all :
      (t : TransferRateTracker Double) (pid : ℕ) (m : List (ℕ × Aggregate Double))
      → lookup ℕ_discrete pid (fold_all t m)
        ≡ Option.map (fold_closed t pid) (lookup ℕ_discrete pid m)
  unfolding fold_all lookup
  lookup-fold_all t pid [] = refl
  lookup-fold_all t pid ((p, agg) ∷ m) = elim (ℕ_discrete pid p) [
    | yes e ↦ rw e (ground (arith, lookup-fold_all t p m))
    | no e ↦ ground (arith, lookup-fold_all t pid m)
  ]

  keys-fold_all :
      (t : TransferRateTracker Double) (m : List (ℕ × Aggregate Double))
      → keys (fold_all t m) ≡ keys m
  unfolding fold_all
  keys-fold_all t [] = refl
  keys-fold_all t (e ∷ m) = ap (λ ks. e.0 ∷ ks) (keys-fold_all t m)

  lookup-publish_aggregates :
      (pid : ℕ) (p : Published Double) (m : List (ℕ × Aggregate Double))
      → lookup ℕ_discrete pid (publish_aggregates p m).active
        ≡ or_else
            (lookup ℕ_discrete pid p.active)
            (Option.map (to_process_stats pid) (lookup ℕ_discrete pid m))
  unfolding publish_aggregates publish_aggregate lookup
  lookup-publish_aggregates pid p [] = ground arith
  lookup-publish_aggregates pid p ((q, agg) ∷ m) = elim (ℕ_discrete pid q) [
    | yes e ↦ ground (
      arith,
      ap (λ x. to_process_stats x agg) e,
      lookup-publish_aggregates pid (publish_aggregate q agg p) m,
      lookup-emplace ℕ_discrete pid q (to_process_stats q agg) p.active,
    )
    | no e ↦ ground (
      arith,
      lookup-publish_aggregates pid (publish_aggregate q agg p) m,
      lookup-emplace ℕ_discrete pid q (to_process_stats q agg) p.active,
    )
  ]

-- The sum with what closed connections moved.
add_total-get_or :
    (n : ℕ) (o : Option ℕ) → n < 2 ^ 64 → add_total n o ≡ (n + Option.get_or o 0) % 2 ^ 64
add_total-get_or n none h = omega arith
add_total-get_or n (some m) h = refl

module _ {Double : Type 0} (f : Floats Double) (set : IsSet Double) (order : Visit Text)
    (pids : Visit ℕ) (t : TransferRateTracker Double) where
  -- The aggregates, before they are folded with what closed.
  abbrev pub collected : List (ℕ × Aggregate Double)
  collected = aggregate f [] (order.visit t.active_transfers)

  collected-HasUniqueKeys : HasUniqueKeys collected
  collected-HasUniqueKeys = aggregate-HasUniqueKeys f [] (order.visit t.active_transfers) Nodup-nil

  pub folded-HasUniqueKeys : HasUniqueKeys (fold_all t collected)
  folded-HasUniqueKeys = subst Nodup (sym (keys-fold_all t collected)) collected-HasUniqueKeys

  pub lookup-visited :
      (pid : ℕ)
      → lookup ℕ_discrete pid (pids.visit (fold_all t collected))
        ≡ Option.map (fold_closed t pid) (lookup ℕ_discrete pid collected)
  lookup-visited pid =
      lookup-perm ℕ_discrete (Aggregate-set set) pid folded-HasUniqueKeys
        (pids.visit-perm (fold_all t collected))
      ∙ lookup-fold_all t pid collected

  active_process-rebuild :
      (pid : ℕ)
      → active_process (rebuild_process_stats f order pids t) pid
        ≡ Option.map
            (to_process_stats pid)
            (Option.map (fold_closed t pid) (lookup ℕ_discrete pid collected))
  unfolding rebuild_process_stats lookup
  active_process-rebuild pid =
      lookup-publish_aggregates pid _ (pids.visit (fold_all t collected))
      ∙ ap (Option.map (to_process_stats pid)) (lookup-visited pid)

  pub visited_total :
      (w : TrackedTransfer Double → ℕ) (pid : ℕ)
      → total w pid (order.visit t.active_transfers) ≡ total w pid t.active_transfers
  visited_total w pid = sum_by-perm (share w pid) (order.visit-perm t.active_transfers)

  -- The sums of a process that has an aggregate.
  collected-Sums :
      (pid : ℕ) (agg : Aggregate Double)
      → lookup ℕ_discrete pid collected ≡ some agg
      → Sums
          (empty_aggregate f)
          (total uploaded pid t.active_transfers)
          (total downloaded pid t.active_transfers)
          (total one_each pid t.active_transfers)
          agg
  unfolding lookup
  collected-Sums pid agg e =
      rw
        (
          ← visited_total uploaded pid,
          ← visited_total downloaded pid,
          ← visited_total one_each pid,
          ← ap (λ o. Option.get_or o (empty_aggregate f)) e,
        )
        (aggregate-Sums f pid [] (order.visit t.active_transfers) (record {
          uploaded_fits = omega arith;
          downloaded_fits = omega arith;
          count_fits = omega arith;
        }))

  -- A process with connections has the sums over them, with what it moved before.
  pub numbers-rebuild :
      (pid : ℕ)
      → Option.map numbers (active_process (rebuild_process_stats f order pids t) pid) ≡ (
          if total one_each pid t.active_transfers == 0
          then none
          else some (
            pid,
            (total uploaded pid t.active_transfers + closed_uploaded t pid) % 2 ^ 64,
            (total downloaded pid t.active_transfers + closed_downloaded t pid) % 2 ^ 64,
            total one_each pid t.active_transfers % 2 ^ 64,
          ))
  unfolding fold_closed to_process_stats lookup
  numbers-rebuild pid = elim (Option-cases (lookup ℕ_discrete pid collected)) [
    | inl e ↦
        ap (Option.map numbers) (active_process-rebuild pid)
        ∙ ground (
          arith,
          e,
          (lookup-aggregate f pid [] (order.visit t.active_transfers)).0 e,
          visited_total one_each pid,
        )
    | inr (agg, e) ↦
        let sums = collected-Sums pid agg e in
        ap (Option.map numbers) (active_process-rebuild pid)
        ∙ ground (
          arith,
          e,
          (lookup-aggregate f pid [] (order.visit t.active_transfers)).1,
          visited_total one_each pid,
          sums,
          add_total-get_or agg.uploaded_bytes (held_total pid t.closed_uploaded_by_process),
          add_total-get_or agg.downloaded_bytes (held_total pid t.closed_downloaded_by_process),
        )
  ]
