-- ===== src/Network/DownloadTracker/Tests.antt =====
-- The tracker on three snapshots of one connection, whose counter rises from 100 to 250 and 400.
use data_exfiltration_detect.Common.{ℕ, ◌≡◌, refl, List, [], ◌∷◌, true}
use data_exfiltration_detect.Common.Text.{codes}
use data_exfiltration_detect.Network.Types.{
  ConnectionState, ProtocolType, ConnectionTransferSnapshot,
}
use data_exfiltration_detect.Network.DownloadTracker.{
  DownloadTracker, compute_delta, row_key, first_track,
}

abbrev received : ℕ → ConnectionTransferSnapshot
received bytes = record {
  connection = record {
    process_id = 7;
    local_address = codes "10.0.0.5";
    local_port = 50000;
    remote_address = codes "93.184.216.34";
    remote_port = 443;
    protocol = ProtocolType.tcp;
    state = ConnectionState.established;
    timestamp = 100;
  };
  bytes_sent = bytes;
  bytes_received = bytes;
  process_name = codes "curl";
}

abbrev seeded_tracker : DownloadTracker
seeded_tracker = record {
  active_downloads = (row_key (received 100), first_track 100 (received 100)) ∷ [];
  active_download_stats = [];
  closed_download_stats = [];
  seeded = true;
}

abbrev steps : List (ℕ × List ConnectionTransferSnapshot)
steps = (200, received 250 ∷ []) ∷ (300, received 400 ∷ []) ∷ []

delta_rises : compute_delta 100 250 ≡ 150
unfolding compute_delta
delta_rises = refl

delta_after_reset : compute_delta 250 40 ≡ 40
unfolding compute_delta
delta_after_reset = refl
