-- ===== src/Network/Metadata/Tests.antt =====
-- The metadata of a tracked connection.
use data_exfiltration_detect.Common.{ℕ}
use data_exfiltration_detect.Common.Text.{codes}
use data_exfiltration_detect.Network.Types.{ConnectionState, ProtocolType}
use data_exfiltration_detect.Network.TransferRateTracker.State.{TrackedTransfer}

abbrev tracked : TrackedTransfer ℕ
tracked = record {
  connection = record {
    process_id = 7;
    local_address = codes "10.0.0.5";
    local_port = 50000;
    remote_address = codes "93.184.216.34";
    remote_port = 443;
    protocol = ProtocolType.tcp;
    state = ConnectionState.established;
    timestamp = 103;
  };
  process_name = codes "curl";
  baseline_bytes_sent = 1300;
  baseline_bytes_received = 2600;
  cumulative_uploaded_bytes = 300;
  cumulative_downloaded_bytes = 600;
  upload_rate_bps = 100;
  download_rate_bps = 200;
  first_observed = 100;
  last_updated = 103;
}
