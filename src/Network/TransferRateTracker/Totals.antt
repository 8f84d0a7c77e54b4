-- ===== src/Network/TransferRateTracker/Totals.antt =====
-- TransferRateTracker.cpp, `rebuildProcessStats`: what the loop over the tracked connections sums up
-- of each process.
use mathlib.Core.List.{lookup}
use data_exfiltration_detect.Common.{
  ℕ, ◌+◌, ◌%◌, ◌^◌, ◌<◌, ◌≡◌, ◌↔◌, refl, sym, List, [], ◌∷◌, none, some, arith, ℕ_discrete, ite,
  if_pos, if_neg,
}
use data_exfiltration_detect.Common.Text.{Text}
use data_exfiltration_detect.Common.Maps.{
  HasUniqueKeys, assign, lookup-assign, assign-HasUniqueKeys,
}
use data_exfiltration_detect.Common.Sums.{sum_by}
use data_exfiltration_detect.Network.Floats.{Floats}
use data_exfiltration_detect.Network.TransferRateTracker.State.{TrackedTransfer}
use data_exfiltration_detect.Network.TransferRateTracker.Aggregates.{
  Aggregate, add_transfer, aggregate_of, aggregate,
}

module _ {Double : Type 0} where
  -- What a connection counts for a process: nothing, unless the process owns it.
  abbrev pub share : (TrackedTransfer Double → ℕ) → ℕ → Text × TrackedTransfer Double → ℕ
  share w pid e = ite (ℕ_discrete pid e.1.connection.process_id) (w e.1) 0

  -- The sum over the connections of a process.
  abbrev pub total : (TrackedTransfer Double → ℕ) → ℕ → List (Text × TrackedTransfer Double) → ℕ
  total w pid = sum_by (share w pid)

  abbrev pub uploaded : TrackedTransfer Double → ℕ
  uploaded v = v.cumulative_uploaded_bytes

  abbrev pub downloaded : TrackedTransfer Double → ℕ
  downloaded v = v.cumulative_downloaded_bytes

  abbrev pub one_each : TrackedTransfer Double → ℕ
  one_each v = 1

  -- The numbers of an aggregate are 64-bit words.
  pub record IsWords (agg : Aggregate Double) : Type 0 where
    pub uploaded_fits : agg.uploaded_bytes < 2 ^ 64
    pub downloaded_fits : agg.downloaded_bytes < 2 ^ 64
    pub count_fits : agg.active_connection_count < 2 ^ 64

  -- An aggregate with the numbers of another, and more.
  pub record Sums (before : Aggregate Double) (up down count : ℕ) (after : Aggregate Double)
      : Type 0 where
    pub uploaded_sum : after.uploaded_bytes ≡ (before.uploaded_bytes + up) % 2 ^ 64
    pub downloaded_sum : after.downloaded_bytes ≡ (before.downloaded_bytes + down) % 2 ^ 64
    pub count_sum :
        after.active_connection_count ≡ (before.active_connection_count + count) % 2 ^ 64

module _ {Double : Type 0} (f : Floats Double) where
  add_transfer-IsWords :
      (v : TrackedTransfer Double) (agg : Aggregate Double) → IsWords (add_transfer f v agg)
  unfolding add_transfer
  add_transfer-IsWords v agg = record {
    uploaded_fits = omega arith;
    downloaded_fits = omega arith;
    count_fits = omega arith;
  }

  aggregate_of-assign :
      (pid p : ℕ) (agg : Aggregate Double) (aggs : List (ℕ × Aggregate Double))
      → aggregate_of f pid (assign ℕ_discrete p agg aggs)
        ≡ ite (ℕ_discrete pid p) agg (aggregate_of f pid aggs)
  aggregate_of-assign pid p agg aggs = elim (ℕ_discrete pid p) [
    | yes e ↦
        rw
          (
            lookup-assign ℕ_discrete pid p agg aggs,
            if_pos (ℕ_discrete pid p) e (some agg) (lookup ℕ_discrete pid aggs),
          )
          (sym (if_pos (ℕ_discrete pid p) e agg (aggregate_of f pid aggs)))
    | no e ↦
        rw
          (
            lookup-assign ℕ_discrete pid p agg aggs,
            if_neg (ℕ_discrete pid p) e (some agg) (lookup ℕ_discrete pid aggs),
          )
          (sym (if_neg (ℕ_discrete pid p) e agg (aggregate_of f pid aggs)))
  ]

  -- The step of the loop.
  step : List (ℕ × Aggregate Double) → TrackedTransfer Double → List (ℕ × Aggregate Double)
  unfolding add_transfer assign lookup
  step aggs v =
      let pid = v.connection.process_id in
      assign ℕ_discrete pid (add_transfer f v (aggregate_of f pid aggs)) aggs

  step-IsWords :
      (pid : ℕ) (aggs : List (ℕ × Aggregate Double)) (v : TrackedTransfer Double)
      → IsWords (aggregate_of f pid aggs)
      → IsWords (aggregate_of f pid (step aggs v))
  unfolding step
  step-IsWords pid aggs v w =
      let p = v.connection.process_id in
      let new = add_transfer f v (aggregate_of f p aggs) in
      elim (ℕ_discrete pid p) [
        | yes e ↦
            rw
              (
                aggregate_of-assign pid p new aggs,
                if_pos (ℕ_discrete pid p) e new (aggregate_of f pid aggs),
              )
              (add_transfer-IsWords v (aggregate_of f p aggs))
        | no e ↦
            rw
              (
                aggregate_of-assign pid p new aggs,
                if_neg (ℕ_discrete pid p) e new (aggregate_of f pid aggs),
              )
              w
      ]

  Sums-zero : (agg : Aggregate Double) → IsWords agg → Sums agg 0 0 0 agg
  Sums-zero agg w = record {
    uploaded_sum = omega (arith, w.uploaded_fits);
    downloaded_sum = omega (arith, w.downloaded_fits);
    count_sum = omega (arith, w.count_fits);
  }

  step-Sums :
      (pid : ℕ) (aggs : List (ℕ × Aggregate Double)) (key : Text) (v : TrackedTransfer Double)
      → IsWords (aggregate_of f pid aggs)
      → Sums
          (aggregate_of f pid aggs)
          (share uploaded pid (key, v))
          (share downloaded pid (key, v))
          (share one_each pid (key, v))
          (aggregate_of f pid (step aggs v))
  unfolding step add_transfer
  step-Sums pid aggs key v w =
      let p = v.connection.process_id in
      let new = add_transfer f v (aggregate_of f p aggs) in
      elim (ℕ_discrete pid p) [
        | yes e ↦
            rw
              (
                aggregate_of-assign pid p new aggs,
                if_pos (ℕ_discrete pid p) e new (aggregate_of f pid aggs),
                if_pos (ℕ_discrete pid p) e (uploaded v) 0,
                if_pos (ℕ_discrete pid p) e (downloaded v) 0,
                if_pos (ℕ_discrete pid p) e (one_each v) 0,
                e,
              )
              (record { uploaded_sum = refl; downloaded_sum = refl; count_sum = refl })
        | no e ↦
            rw
              (
                aggregate_of-assign pid p new aggs,
                if_neg (ℕ_discrete pid p) e new (aggregate_of f pid aggs),
                if_neg (ℕ_discrete pid p) e (uploaded v) 0,
                if_neg (ℕ_discrete pid p) e (downloaded v) 0,
                if_neg (ℕ_discrete pid p) e (one_each v) 0,
              )
              (Sums-zero (aggregate_of f pid aggs) w)
      ]

  Sums-trans :
      (a b c : Aggregate Double) (u d n u' d' n' : ℕ)
      → Sums a u d n b
      → Sums b u' d' n' c
      → Sums a (u + u') (d + d') (n + n') c
  Sums-trans a b c u d n u' d' n' s s' = record {
    uploaded_sum = omega (arith, s.uploaded_sum, s'.uploaded_sum);
    downloaded_sum = omega (arith, s.downloaded_sum, s'.downloaded_sum);
    count_sum = omega (arith, s.count_sum, s'.count_sum);
  }

  -- The loop adds to the aggregate of each process the sums over its connections.
  pub aggregate-Sums :
      (pid : ℕ) (aggs : List (ℕ × Aggregate Double)) (ts : List (Text × TrackedTransfer Double))
      → IsWords (aggregate_of f pid aggs)
      → Sums
          (aggregate_of f pid aggs)
          (total uploaded pid ts)
          (total downloaded pid ts)
          (total one_each pid ts)
          (aggregate_of f pid (aggregate f aggs ts))
  unfolding aggregate sum_by step
  aggregate-Sums pid aggs [] w = Sums-zero (aggregate_of f pid aggs) w
  aggregate-Sums pid aggs ((key, v) ∷ ts) w =
      Sums-trans (aggregate_of f pid aggs) (aggregate_of f pid (step aggs v))
        (aggregate_of f pid (aggregate f (step aggs v) ts)) _ _ _ _ _ _ (step-Sums pid aggs key v w)
        (aggregate-Sums pid (step aggs v) ts (step-IsWords pid aggs v w))

  -- A process has an aggregate exactly when it had one, or owns a connection.
  pub lookup-aggregate :
      (pid : ℕ) (aggs : List (ℕ × Aggregate Double)) (ts : List (Text × TrackedTransfer Double))
      → (lookup ℕ_discrete pid (aggregate f aggs ts) ≡ none)
        ↔ ((lookup ℕ_discrete pid aggs ≡ none) × (total one_each pid ts ≡ 0))
  unfolding aggregate sum_by step
  lookup-aggregate pid aggs [] = ground arith
  lookup-aggregate pid aggs ((key, v) ∷ ts) =
      let p = v.connection.process_id in
      let new = add_transfer f v (aggregate_of f p aggs) in
      grind (arith, lookup-aggregate pid (step aggs v) ts, lookup-assign ℕ_discrete pid p new aggs)

  pub aggregate-HasUniqueKeys :
      (aggs : List (ℕ × Aggregate Double)) (ts : List (Text × TrackedTransfer Double))
      → HasUniqueKeys aggs
      → HasUniqueKeys (aggregate f aggs ts)
  unfolding aggregate step
  aggregate-HasUniqueKeys aggs [] u = u
  aggregate-HasUniqueKeys aggs ((key, v) ∷ ts) u =
      let p = v.connection.process_id in
      aggregate-HasUniqueKeys (step aggs v) ts
        (assign-HasUniqueKeys ℕ_discrete p (add_transfer f v (aggregate_of f p aggs)) aggs u)
