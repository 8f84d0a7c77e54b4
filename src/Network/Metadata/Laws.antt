-- ===== src/Network/Metadata/Laws.antt =====
-- DataTransferMetadata.cpp beside TransferRateTracker.cpp: the two ways to make the metadata agree.
use data_exfiltration_detect.Common.{◌≡◌, ◌≢◌, true, arith}
use data_exfiltration_detect.Network.Floats.{Floats}
use data_exfiltration_detect.Network.BandwidthStats.{connection_total_bytes}
use data_exfiltration_detect.Network.TransferStats.{observed_at}
use data_exfiltration_detect.Network.TransferRateTracker.State.{
  TrackedTransfer, to_connection_stats,
}
use data_exfiltration_detect.Network.Metadata.{
  transfer_metadata, from_bandwidth_stats, total_transferred_bytes,
}

-- Of a tracked connection that was observed at some time and last at the time of its row, the
-- metadata made of the published statistics is the metadata made of the connection and its totals,
-- and their sum is that of the statistics.
pub from_bandwidth_stats-to_connection_stats :
    {Double : Type 0} (f : Floats Double) (v : TrackedTransfer Double)
    → v.last_updated ≡ v.connection.timestamp
    → v.first_observed ≢ 0
    → let s = to_connection_stats f true v in
      (from_bandwidth_stats s
        ≡ transfer_metadata v.connection v.cumulative_uploaded_bytes v.cumulative_downloaded_bytes
            v.upload_rate_bps v.download_rate_bps v.process_name v.first_observed)
      × (total_transferred_bytes (from_bandwidth_stats s) ≡ connection_total_bytes s)
unfolding to_connection_stats from_bandwidth_stats transfer_metadata observed_at
    total_transferred_bytes connection_total_bytes
from_bandwidth_stats-to_connection_stats f v stamped observed = ground arith
