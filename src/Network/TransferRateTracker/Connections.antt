-- ===== src/Network/TransferRateTracker/Connections.antt =====
-- TransferRateTracker.cpp: which connections are tracked after an update, and what is reported.
use mathlib.Core.List.{lookup}
use mathlib.Core.List.Perm
use mathlib.Core.Option
use data_exfiltration_detect.Common.{
  ℕ, ◌≡◌, ◌∙◌, ap, refl, List, [], ◌∷◌, map, Perm, true, false, Option, inl, inr, Bool-cases, arith,
  if◌then◌else◌,
}
use data_exfiltration_detect.Common.Text.{Text, text_discrete}
use data_exfiltration_detect.Common.Maps.{Visit, HasUniqueKeys, contains, lookup-perm}
use data_exfiltration_detect.Common.Snapshots.{
  start, admit, first_row, scan_rows, lookup-scan_rows, scan_rows-HasUniqueKeys,
}
use data_exfiltration_detect.Common.Statistics.{
  closing, record_missing, lookup-record_missing, lookup-publish, results-publish_cleared,
}
use data_exfiltration_detect.Network.Floats.{Floats}
use data_exfiltration_detect.Network.Types.{ConnectionTransferSnapshot}
use data_exfiltration_detect.Network.BandwidthStats.{ConnectionBandwidthStats}
use data_exfiltration_detect.Network.TransferRateTracker.State.{
  TrackedTransfer, TransferRateTracker, to_connection_stats,
}
use data_exfiltration_detect.Network.TransferRateTracker.Rows.{
  Scan, row_key, track, scan_row, scan_loop, scan,
}
use data_exfiltration_detect.Network.TransferRateTracker.Aggregates.{rebuild_process_stats}
use data_exfiltration_detect.Network.TransferRateTracker.Updates.{
  Closing, close_transfer, close_missing, close, update_connections, update,
}

-- The first row of a snapshot with a key.
abbrev pub row_of : Text → List ConnectionTransferSnapshot → Option ConnectionTransferSnapshot
row_of = first_row text_discrete row_key

module _ {Double : Type 0} where
  -- What is held of the connection with a key.
  abbrev pub tracked : TransferRateTracker Double → Text → Option (TrackedTransfer Double)
  tracked t k = lookup text_discrete k t.active_transfers

  abbrev pub active_stats :
      TransferRateTracker Double → Text → Option (ConnectionBandwidthStats Double)
  active_stats t k = lookup text_discrete k t.active_connection_stats

  abbrev pub closed_stats :
      TransferRateTracker Double → Text → Option (ConnectionBandwidthStats Double)
  closed_stats t k = lookup text_discrete k t.closed_connection_stats

  pub TrackedTransfer-set : IsSet Double → IsSet (TrackedTransfer Double)
  TrackedTransfer-set set = hlevel

module _ {Double : Type 0} (f : Floats Double) where
  pass-scan_row :
      (t : TransferRateTracker Double) (now : ℕ) (s : Scan Double)
      (row : ConnectionTransferSnapshot)
      → (scan_row f t now s row).pass ≡ admit text_discrete (row_key row) (track f t now row) s.pass
  unfolding scan_row admit
  pass-scan_row t now s row = elim (Bool-cases (contains text_discrete (row_key row) s.pass.seen)) [
    | inl e ↦ rw e refl
    | inr e ↦ rw e refl
  ]

  pass-scan_loop :
      (t : TransferRateTracker Double) (now : ℕ) (s : Scan Double)
      (rows : List ConnectionTransferSnapshot)
      → (scan_loop f t now s rows).pass
        ≡ scan_rows text_discrete row_key (track f t now) s.pass rows
  unfolding scan_loop scan_rows
  pass-scan_loop t now s [] = refl
  pass-scan_loop t now s (row ∷ rows) =
      pass-scan_loop t now (scan_row f t now s row) rows
      ∙ ap (λ p. scan_rows text_discrete row_key (track f t now) p rows) (pass-scan_row t now s row)

  pub next-scan :
      (t : TransferRateTracker Double) (now : ℕ) (rows : List ConnectionTransferSnapshot)
      → (scan f t now rows).pass.next
        ≡ (scan_rows text_discrete row_key (track f t now) start rows).next
  unfolding scan
  next-scan t now rows = ap (λ p. p.next) (pass-scan_loop t now _ rows)

  pub next-HasUniqueKeys :
      (t : TransferRateTracker Double) (now : ℕ) (rows : List ConnectionTransferSnapshot)
      → HasUniqueKeys (scan f t now rows).pass.next
  next-HasUniqueKeys t now rows =
      rw (next-scan t now rows) (scan_rows-HasUniqueKeys text_discrete row_key (track f t now) rows)

  pub lookup-scan :
      (t : TransferRateTracker Double) (now : ℕ) (rows : List ConnectionTransferSnapshot) (k : Text)
      → lookup text_discrete k (scan f t now rows).pass.next
        ≡ Option.map (track f t now) (row_of k rows)
  lookup-scan t now rows k =
      rw (next-scan t now rows) (lookup-scan_rows text_discrete row_key (track f t now) k rows)

  stats-close_missing :
      (next : List (Text × TrackedTransfer Double)) (c : Closing Double)
      (transfers : List (Text × TrackedTransfer Double))
      → (close_missing f next c transfers).stats
        ≡ record_missing text_discrete next (to_connection_stats f false) c.stats transfers
  unfolding close_missing record_missing close_transfer
  stats-close_missing next c [] = refl
  stats-close_missing next c ((k, v) ∷ transfers) = ground (
    arith,
    stats-close_missing next c transfers,
    stats-close_missing next (close_transfer f k v c) transfers,
  )

  -- What an update of a seeded tracker does to connections, where no two doubles have two proofs of
  -- equality.
  module _ (set : IsSet Double) (order : Visit Text) (pids : Visit ℕ) (now : ℕ)
      (t : TransferRateTracker Double) (rows : List ConnectionTransferSnapshot) where
    pub tracked-update :
        (k : Text)
        → tracked (update f order pids now t rows).0 k ≡ Option.map (track f t now) (row_of k rows)
    unfolding update update_connections rebuild_process_stats
    tracked-update k = lookup-scan t now rows k

    visited-next :
        (k : Text)
        → lookup text_discrete k (order.visit (scan f t now rows).pass.next)
          ≡ lookup text_discrete k (scan f t now rows).pass.next
    visited-next k =
        lookup-perm text_discrete (TrackedTransfer-set set) k (next-HasUniqueKeys t now rows)
          (order.visit-perm (scan f t now rows).pass.next)

    pub active_stats-update :
        (k : Text)
        → let r = update f order pids now t rows in
          active_stats r.0 k ≡ Option.map (to_connection_stats f true) (tracked r.0 k)
    unfolding update update_connections rebuild_process_stats lookup
    active_stats-update k =
        lookup-publish text_discrete (to_connection_stats f true) k []
          (order.visit (scan f t now rows).pass.next)
        ∙ ap (Option.map (to_connection_stats f true)) (visited-next k)

    pub closed_stats-update :
        (k : Text)
        → t.seeded ≡ true
        → HasUniqueKeys t.active_transfers
        → let r = update f order pids now t rows in
          closed_stats r.0 k
          ≡ closing (to_connection_stats f false) (tracked r.0 k) (tracked t k) (closed_stats t k)
    unfolding update update_connections rebuild_process_stats close
    closed_stats-update k seeded u =
        let next = (scan f t now rows).pass.next in
        let before : Closing Double = record {
          stats = t.closed_connection_stats;
          uploaded = t.closed_uploaded_by_process;
          downloaded = t.closed_downloaded_by_process;
          names = (scan f t now rows).names;
        } in
        let visited = order.visit t.active_transfers in
        let kept = close_missing f next before visited in
        let p = order.visit-perm t.active_transfers in
        ap (λ b. lookup text_discrete k (if b then kept else before).stats) seeded
        ∙ ap (lookup text_discrete k) (stats-close_missing next before visited)
        ∙ lookup-record_missing text_discrete next (to_connection_stats f false) k
            t.closed_connection_stats visited (Perm.nodup (Perm.symm (Perm.map (λ e. e.0) p)) u)
        ∙ ap
            (λ o.
              closing (to_connection_stats f false) (lookup text_discrete k next) o
                (closed_stats t k))
            (lookup-perm text_discrete (TrackedTransfer-set set) k u p)

    pub results-update :
        let r = update f order pids now t rows in
        Perm r.1 (map (λ e. to_connection_stats f true e.1) r.0.active_transfers)
    unfolding update update_connections rebuild_process_stats
    results-update =
        let next = (scan f t now rows).pass.next in
        rw
          (results-publish_cleared text_discrete (to_connection_stats f true) (order.visit next) (
            Perm.nodup (Perm.symm (Perm.map (λ e. e.0) (order.visit-perm next)))
              (next-HasUniqueKeys t now rows)))
          (Perm.map (λ e. to_connection_stats f true e.1) (order.visit-perm next))
