-- ===== src/Network/TransferRateTracker/Updates.antt =====
-- TransferRateTracker.cpp, `update`: the loop over what the snapshot lacks, and the whole function.
use mathlib.Core.List.{lookup}
use mathlib.Core.Option
use data_exfiltration_detect.Common.{
  ℕ, ◌+◌, ◌%◌, ◌^◌, List, [], ◌∷◌, true, false, none, some, ℕ_discrete, if◌then◌else◌,
}
use data_exfiltration_detect.Common.Text.{Text, text_discrete}
use data_exfiltration_detect.Common.Maps.{Visit, assign}
use data_exfiltration_detect.Common.Statistics.{publish}
use data_exfiltration_detect.Network.Floats.{Floats}
use data_exfiltration_detect.Network.Types.{ConnectionTransferSnapshot}
use data_exfiltration_detect.Network.BandwidthStats.{ConnectionBandwidthStats}
use data_exfiltration_detect.Network.TransferRateTracker.State.{
  TrackedTransfer, TransferRateTracker, to_connection_stats,
}
use data_exfiltration_detect.Network.TransferRateTracker.Rows.{note_name, scan}
use data_exfiltration_detect.Network.TransferRateTracker.Aggregates.{
  held_total, rebuild_process_stats,
}

-- `totals[pid] += bytes`.
unfoldable pub accumulate : ℕ → ℕ → List (ℕ × ℕ) → List (ℕ × ℕ)
unfolding assign lookup ℕ_discrete
accumulate pid bytes totals =
    assign ℕ_discrete pid ((Option.get_or (held_total pid totals) 0 + bytes) % 2 ^ 64) totals

-- The maps that the loop over closed connections writes to.
pub record Closing (Double : Type 0) : Type 0 where
  pub stats : List (Text × ConnectionBandwidthStats Double)
  pub uploaded : List (ℕ × ℕ)
  pub downloaded : List (ℕ × ℕ)
  pub names : List (ℕ × Text)

module _ {Double : Type 0} (f : Floats Double) where
  unfoldable pub close_transfer : Text → TrackedTransfer Double → Closing Double → Closing Double
  unfolding assign text_discrete accumulate to_connection_stats note_name
  close_transfer key previous c = record {
    stats = assign text_discrete key (to_connection_stats f false previous) c.stats;
    uploaded =
        accumulate previous.connection.process_id previous.cumulative_uploaded_bytes c.uploaded;
    downloaded =
        accumulate previous.connection.process_id previous.cumulative_downloaded_bytes c.downloaded;
    names = note_name previous c.names;
  }

  unfoldable pub close_missing :
      List (Text × TrackedTransfer Double)
      → Closing Double
      → List (Text × TrackedTransfer Double)
      → Closing Double
  unfolding lookup text_discrete close_transfer
  close_missing next c [] = c
  close_missing next c ((key, previous) ∷ transfers) =
      close_missing next
        (elim (lookup text_discrete key next) [ none ↦ close_transfer key previous c | some w ↦ c ])
        transfers

  -- The closing loop, which the first update skips.
  unfoldable pub close :
      Visit Text
      → TransferRateTracker Double
      → List (Text × TrackedTransfer Double)
      → List (ℕ × Text)
      → Closing Double
  unfolding close_missing
  close order t next names =
      let before : Closing Double = record {
        stats = t.closed_connection_stats;
        uploaded = t.closed_uploaded_by_process;
        downloaded = t.closed_downloaded_by_process;
        names = names;
      } in
      if t.seeded then close_missing next before (order.visit t.active_transfers) else before

  -- The state of the connections after an update, before the statistics of processes are rebuilt.
  unfoldable pub update_connections :
      Visit Text
      → ℕ
      → TransferRateTracker Double
      → List ConnectionTransferSnapshot
      → TransferRateTracker Double × List (ConnectionBandwidthStats Double)
  unfolding scan close publish text_discrete to_connection_stats
  update_connections order now t snapshots =
      let scanned = scan f t now snapshots in
      let closed = close order t scanned.pass.next scanned.names in
      let published =
        publish text_discrete (to_connection_stats f true) [] (order.visit scanned.pass.next) in
      (
        record t {
          active_transfers = scanned.pass.next;
          active_connection_stats = published.0;
          closed_connection_stats = closed.stats;
          closed_uploaded_by_process = closed.uploaded;
          closed_downloaded_by_process = closed.downloaded;
          process_names = closed.names;
          process_first_observed = scanned.first;
          seeded = true;
        },
        published.1,
      )

  unfoldable pub update :
      Visit Text
      → Visit ℕ
      → ℕ
      → TransferRateTracker Double
      → List ConnectionTransferSnapshot
      → TransferRateTracker Double × List (ConnectionBandwidthStats Double)
  unfolding update_connections rebuild_process_stats
  update order pids now t snapshots =
      let r = update_connections order now t snapshots in
      (rebuild_process_stats f order pids r.0, r.1)
