-- ===== src/Network/TransferRateTracker/Finals.antt =====
-- TransferRateTracker.cpp: the final statistics of a process whose last connection closed.
use mathlib.Core.List.{lookup}
use mathlib.Core.Option
use data_exfiltration_detect.Common.{
  ℕ, ◌+◌, ◌%◌, ◌^◌, ◌≡◌, ◌≢◌, refl, sym, ap, subst, ◌∙◌, List, [], ◌∷◌, Option, none, some, inl,
  inr, Option-cases, true, arith, ℕ_discrete,
}
use data_exfiltration_detect.Common.Text.{Text, text_discrete}
use data_exfiltration_detect.Common.Maps.{Visit, HasUniqueKeys, lookup-assign, mem-lookup_iff}
use data_exfiltration_detect.Common.Sums.{sum_by, sum_by-perm, sum_by-congr, sum_by-zero}
use data_exfiltration_detect.Network.Floats.{Floats}
use data_exfiltration_detect.Network.Types.{ConnectionTransferSnapshot, make_key-process_id}
use data_exfiltration_detect.Network.BandwidthStats.{ProcessBandwidthStats}
use data_exfiltration_detect.Network.TransferRateTracker.State.{
  TrackedTransfer, TransferRateTracker, compute_delta,
}
use data_exfiltration_detect.Network.TransferRateTracker.Rows.{scan}
use data_exfiltration_detect.Network.TransferRateTracker.Aggregates.{
  held_total, final_stats, rebuild_process_stats,
}
use data_exfiltration_detect.Network.TransferRateTracker.Updates.{
  accumulate, Closing, close_transfer, close_missing, update_connections, update,
}
use data_exfiltration_detect.Network.TransferRateTracker.Connections.{
  tracked, TrackedTransfer-set, next-HasUniqueKeys,
}
use data_exfiltration_detect.Network.TransferRateTracker.Totals.{
  share, total, uploaded, downloaded, one_each,
}
use data_exfiltration_detect.Network.TransferRateTracker.Shares.{lost}
use data_exfiltration_detect.Network.TransferRateTracker.Processes.{
  active_process, closed_process, numbers-rebuild,
}
use data_exfiltration_detect.Network.TransferRateTracker.Closing.{closed_process-rebuild}
use data_exfiltration_detect.Network.TransferRateTracker.Conservation.{total_of}
use data_exfiltration_detect.Network.TransferRateTracker.Invariant.{
  IsValid, scan-IsKeyed, connections-update,
}
use data_exfiltration_detect.Network.TransferRateTracker.Sessions.{
  session_uploaded, session_downloaded, sent_counter, received_counter, after, before, maps-update,
  session_bytes-update,
}

held-accumulate :
    (pid p bytes : ℕ) (totals : List (ℕ × ℕ))
    → (held_total pid (accumulate p bytes totals) ≡ none)
    → (held_total pid totals ≡ none) × (pid ≢ p)
unfolding accumulate
held-accumulate pid p bytes totals h =
    let e = lookup-assign ℕ_discrete pid p ((total_of p totals + bytes) % 2 ^ 64) totals in
    ground (arith, e, h)

module _ {Double : Type 0} (f : Floats Double) (set : IsSet Double) where
  -- A process has preserved totals if one of its connections closed.
  held-close_missing :
      (cumulative : TrackedTransfer Double → ℕ) (closed : Closing Double → List (ℕ × ℕ))
      → ((k : Text) (v : TrackedTransfer Double) (c : Closing Double)
          → closed (close_transfer f k v c)
            ≡ accumulate v.connection.process_id (cumulative v) (closed c))
      → (pid : ℕ) (next : List (Text × TrackedTransfer Double)) (c : Closing Double)
        (ts : List (Text × TrackedTransfer Double))
      → held_total pid (closed (close_missing f next c ts)) ≡ none
      → (held_total pid (closed c) ≡ none) × (sum_by (lost set one_each pid next) ts ≡ 0)
  unfolding close_missing sum_by
  held-close_missing cumulative closed closes pid next c [] h = (h, refl)
  held-close_missing cumulative closed closes pid next c ((k, v) ∷ ts) h =
      elim (Option-cases (lookup text_discrete k next)) [
        | inl e ↦
            let p = v.connection.process_id in
            let (before, rest) =
              held-close_missing cumulative closed closes pid next (close_transfer f k v c) ts
                (rw (e, close_missing) at h) in
            let (held, other) =
              held-accumulate pid p (cumulative v) (closed c)
                (ap (held_total pid) (sym (closes k v c)) ∙ before) in
            (held, ground (arith, e, rest, other))
        | inr (w, e) ↦
            let (held, rest) =
              held-close_missing cumulative closed closes pid next c ts
                (rw (e, close_missing) at h) in
            (held, ground (arith, e, rest))
      ]

  module _ (order : Visit Text) (now : ℕ) (t : TransferRateTracker Double)
      (rows : List ConnectionTransferSnapshot) (v : IsValid t) (pid : ℕ) where
    -- Where the process has no connection in the next map, all that it had went.
    lost-gone :
        total one_each pid (scan f t now rows).pass.next ≡ 0
        → sum_by
            (lost set one_each pid (scan f t now rows).pass.next)
            (order.visit t.active_transfers)
          ≡ total one_each pid t.active_transfers
    lost-gone gone =
        let next = (scan f t now rows).pass.next in
        sum_by-perm (lost set one_each pid next) (order.visit-perm t.active_transfers)
        ∙ sum_by-congr (lost set one_each pid next) (share one_each pid) t.active_transfers
            (λ (k, u) mem. elim (Option-cases (lookup text_discrete k next)) [
              | inl e ↦ ground (arith, e)
              | inr (w, e) ↦
                  let here =
                    (mem-lookup_iff text_discrete (TrackedTransfer-set set) k w next
                        (next-HasUniqueKeys f t now rows)).1
                      e in
                  let none_here = sum_by-zero (share one_each pid) next gone (k, w) here in
                  let held =
                    (mem-lookup_iff text_discrete (TrackedTransfer-set set) k u t.active_transfers
                        v.unique_transfers).0
                      mem in
                  let same =
                    make_key-process_id u.connection w.connection
                      (v.keyed k u held ∙ sym (scan-IsKeyed f t now rows k w e)) in
                  ground (arith, e, none_here, same)
            ])

    total_zero :
        (w : Text × TrackedTransfer Double → TrackedTransfer Double → ℕ)
        (ts : List (Text × TrackedTransfer Double))
        → total one_each pid ts ≡ 0
        → sum_by (λ e. share (w e) pid e) ts ≡ 0
    unfolding sum_by
    total_zero w [] h = refl
    total_zero w (e ∷ ts) h = ground (arith, total_zero w ts)

    present : (o : Option ℕ) (n : ℕ) → o ≢ none → Option.get_or o n ≡ Option.get_or o 0
    present none n h = absurd (h refl)
    present (some m) n h = refl

    -- The preserved totals of the process, where a connection of it went.
    preserved :
        (pids : Visit ℕ)
        → t.seeded ≡ true
        → total one_each pid t.active_transfers ≢ 0
        → total one_each pid (scan f t now rows).pass.next ≡ 0
        → (held_total pid (after f set order pids now t rows).uploaded ≢ none)
          × (held_total pid (after f set order pids now t rows).downloaded ≢ none)
    unfolding after close_transfer
    preserved pids seeded had gone =
        let next = (scan f t now rows).pass.next in
        let c = before f set order pids now t rows in
        let ts = order.visit t.active_transfers in
        (
          λ h. had (
              sym (lost-gone gone)
              ∙ (held-close_missing uploaded (λ c. c.uploaded) (λ k u c. refl) pid next c ts h).1),
          λ h. had (
              sym (lost-gone gone)
              ∙ (held-close_missing downloaded (λ c. c.downloaded) (λ k u c. refl) pid next c ts
                  h).1),
        )

    -- What is final of the process, by the state of the connections.
    closed-connections :
        (pids : Visit ℕ) (prev : ProcessBandwidthStats Double)
        → active_process t pid ≡ some prev
        → let c = (update_connections f order now t rows).0 in
          total one_each pid c.active_transfers ≡ 0
          → closed_process (rebuild_process_stats f order pids c) pid
            ≡ some (final_stats f c pid prev)
    closed-connections pids prev e gone =
        let c = (update_connections f order now t rows).0 in
        let same = (connections-update f set order pids now t rows).1 in
        ground (
          arith,
          gone,
          closed_process-rebuild f set order pids c pid
              (subst HasUniqueKeys (sym same) v.unique_processes),
          ap (lookup ℕ_discrete pid) same,
          e,
        )

    active-connections :
        (pids : Visit ℕ)
        → let c = (update_connections f order now t rows).0 in
          total one_each pid c.active_transfers ≡ 0
          → active_process (rebuild_process_stats f order pids c) pid ≡ none
    active-connections pids gone =
        let c = (update_connections f order now t rows).0 in
        ground (arith, gone, numbers-rebuild f set order pids c pid)

    -- Where a process has connections before an update of a seeded tracker with the invariant and
    -- none after it, its final statistics hold, modulo 2^64, all bytes that it had moved in the
    -- session, with zero rates and no connections, and it has no active statistics, whatever set
    -- the rates are from.
    pub closed_process-update :
        (pids : Visit ℕ)
        → t.seeded ≡ true
        → total one_each pid t.active_transfers ≢ 0
        → let r = (update f order pids now t rows).0 in
          total one_each pid r.active_transfers ≡ 0
          → (s : ProcessBandwidthStats Double) × (closed_process r pid ≡ some s)
            × (active_process r pid ≡ none)
            × (s.uploaded_bytes % 2 ^ 64 ≡ session_uploaded t pid % 2 ^ 64)
            × (s.downloaded_bytes % 2 ^ 64 ≡ session_downloaded t pid % 2 ^ 64)
            × (s.upload_rate_bps ≡ f.zero)
            × (s.download_rate_bps ≡ f.zero)
            × (s.active_connection_count ≡ 0)
    unfolding update rebuild_process_stats final_stats
    closed_process-update pids seeded had gone = elim (Option-cases (active_process t pid)) [
      | inl e ↦ absurd (had ((v.active_iff pid).0 e))
      | inr (prev, e) ↦
          let c = (update_connections f order now t rows).0 in
          let m = maps-update f set order pids now t rows seeded in
          let kept = preserved pids seeded had (subst (λ x. total one_each pid x ≡ 0) m.0 gone) in
          let bytes = session_bytes-update f set order pids now t rows pid seeded v in
          let r = (update f order pids now t rows).0 in
          let held_up : held_total pid r.closed_uploaded_by_process ≢ none =
            λ h. kept.0 (ap (held_total pid) (sym m.1) ∙ h) in
          let held_down : held_total pid r.closed_downloaded_by_process ≢ none =
            λ h. kept.1 (ap (held_total pid) (sym m.2) ∙ h) in
          let no_up = total_zero (λ e x. uploaded x) r.active_transfers gone in
          let no_down = total_zero (λ e x. downloaded x) r.active_transfers gone in
          let no_sent =
            total_zero
              (λ e x. elim (tracked t e.0) [
                | none ↦ 0
                | some u ↦ compute_delta (sent_counter u) (sent_counter x)
              ])
              r.active_transfers gone in
          let no_received =
            total_zero
              (λ e x. elim (tracked t e.0) [
                | none ↦ 0
                | some u ↦ compute_delta (received_counter u) (received_counter x)
              ])
              r.active_transfers gone in
          (
            final_stats f c pid prev,
            closed-connections pids prev e gone,
            active-connections pids gone,
            omega (
              arith,
              present (held_total pid r.closed_uploaded_by_process) prev.uploaded_bytes held_up,
              no_up,
              no_sent,
              bytes.0,
            ),
            omega (
              arith,
              present (held_total pid r.closed_downloaded_by_process) prev.downloaded_bytes
                  held_down,
              no_down,
              no_received,
              bytes.1,
            ),
            refl,
            refl,
            refl,
          )
    ]
