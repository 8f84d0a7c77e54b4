-- ===== src/Network/TransferRateTracker/Closing.antt =====
-- TransferRateTracker.cpp: the final statistics of the processes that lost their last connection.
use mathlib.Core.List.{lookup, Nodup-cons}
use mathlib.Core.List.Perm
use mathlib.Core.Option
use data_exfiltration_detect.Common.{
  ℕ, ◌≡◌, refl, ap, ◌∙◌, List, [], ◌∷◌, Option, none, some, inl, inr, Option-cases, Bool, true,
  false, not, arith, ℕ_discrete, if◌then◌else◌, ◌==◌,
}
use data_exfiltration_detect.Common.Text.{Text}
use data_exfiltration_detect.Common.Maps.{
  Visit, HasUniqueKeys, keys, contains, assign, erase, lookup-assign, lookup-erase, lookup-perm,
  lookup-none_iff,
}
use data_exfiltration_detect.Common.Statistics.{or_else}
use data_exfiltration_detect.Network.Floats.{Floats}
use data_exfiltration_detect.Network.BandwidthStats.{ProcessBandwidthStats}
use data_exfiltration_detect.Network.TransferRateTracker.State.{TransferRateTracker}
use data_exfiltration_detect.Network.TransferRateTracker.Aggregates.{
  erase_all, final_stats, close_processes, fold_all, rebuild_process_stats,
}
use data_exfiltration_detect.Network.TransferRateTracker.Totals.{total, one_each, lookup-aggregate}
use data_exfiltration_detect.Network.TransferRateTracker.Processes.{
  active_process, closed_process, collected, lookup-visited, visited_total,
}

abbrev is_some {ℓ} : {A : Type ℓ} → Option A → Bool
is_some none = false
is_some (some a) = true

contains-keys :
    {K V : Type 0} (dec : Discrete K) (k : K) (m : List (K × V))
    → contains dec k (keys m) ≡ is_some (lookup dec k m)
unfolding contains lookup
contains-keys dec k [] = refl
contains-keys dec k ((j, v) ∷ m) = ground (arith, contains-keys dec k m)

module _ {Double : Type 0} where
  lookup-erase_all :
      (q : ℕ) (ks : List ℕ) (m : List (ℕ × ProcessBandwidthStats Double))
      → lookup ℕ_discrete q (erase_all ks m)
        ≡ (if contains ℕ_discrete q ks then none else lookup ℕ_discrete q m)
  unfolding erase_all contains
  lookup-erase_all q [] m = refl
  lookup-erase_all q (k ∷ ks) m =
      ground (arith, lookup-erase_all q ks (erase ℕ_discrete k m), lookup-erase ℕ_discrete q k m)

  pub ProcessBandwidthStats-set : IsSet Double → IsSet (ProcessBandwidthStats Double)
  ProcessBandwidthStats-set set = hlevel

module _ {Double : Type 0} (f : Floats Double) (t : TransferRateTracker Double) where
  lookup-close_processes :
      (q : ℕ) (still : List ℕ) (closed active : List (ℕ × ProcessBandwidthStats Double))
      → HasUniqueKeys active
      → lookup ℕ_discrete q (close_processes f t still closed active) ≡ (
          if contains ℕ_discrete q still
          then lookup ℕ_discrete q closed
          else or_else
              (Option.map (final_stats f t q) (lookup ℕ_discrete q active))
              (lookup ℕ_discrete q closed))
  unfolding close_processes lookup
  lookup-close_processes q still closed [] u = ground arith
  lookup-close_processes q still closed ((p, s) ∷ active) u =
      let fresh = (lookup-none_iff ℕ_discrete p active).1 (Nodup-cons.0 u).0 in
      let assigned = assign ℕ_discrete p (final_stats f t p s) closed in
      elim (ℕ_discrete q p) [
        | yes e ↦ rw e (
            ground (
              arith,
              fresh,
              lookup-close_processes p still closed active (Nodup-cons.0 u).1,
              lookup-close_processes p still assigned active (Nodup-cons.0 u).1,
              lookup-assign ℕ_discrete p p (final_stats f t p s) closed,
            ))
        | no e ↦ ground (
          arith,
          lookup-close_processes q still closed active (Nodup-cons.0 u).1,
          lookup-close_processes q still assigned active (Nodup-cons.0 u).1,
          lookup-assign ℕ_discrete q p (final_stats f t p s) closed,
        )
      ]

module _ {Double : Type 0} (f : Floats Double) (set : IsSet Double) (order : Visit Text)
    (pids : Visit ℕ) (t : TransferRateTracker Double) where
  still_active-rebuild :
      (q : ℕ)
      → contains ℕ_discrete q (keys (pids.visit (fold_all t (collected f set order pids t))))
        ≡ not (total one_each q t.active_transfers == 0)
  unfolding lookup
  still_active-rebuild q =
      let m = collected f set order pids t in
      contains-keys ℕ_discrete q (pids.visit (fold_all t m))
      ∙ ap is_some (lookup-visited f set order pids t q)
      ∙ elim (Option-cases (lookup ℕ_discrete q m)) [
        | inl e ↦ ground (
          arith,
          e,
          (lookup-aggregate f q [] (order.visit t.active_transfers)).0 e,
          visited_total f set order pids t one_each q,
        )
        | inr (agg, e) ↦ ground (
          arith,
          e,
          (lookup-aggregate f q [] (order.visit t.active_transfers)).1,
          visited_total f set order pids t one_each q,
        )
      ]

  -- A process with connections has no final statistics; one that had statistics and has no
  -- connection any more has those that it leaves; else they stay.
  pub closed_process-rebuild :
      (q : ℕ)
      → HasUniqueKeys t.active_process_stats
      → closed_process (rebuild_process_stats f order pids t) q ≡ (
          if total one_each q t.active_transfers == 0
          then or_else (Option.map (final_stats f t q) (active_process t q)) (closed_process t q)
          else none)
  unfolding rebuild_process_stats
  closed_process-rebuild q u =
      let still = keys (pids.visit (fold_all t (collected f set order pids t))) in
      let visited = pids.visit t.active_process_stats in
      ground (
        arith,
        still_active-rebuild q,
        lookup-close_processes f t q still (erase_all still t.closed_process_stats) visited (
            Perm.nodup (Perm.symm (Perm.map (λ e. e.0) (pids.visit-perm t.active_process_stats)))
              u),
        lookup-perm ℕ_discrete (ProcessBandwidthStats-set set) q u
            (pids.visit-perm t.active_process_stats),
        lookup-erase_all q still t.closed_process_stats,
      )
