-- ===== src/Network/TransferRateTracker/State.antt =====
-- TransferRateTracker.h: the state of the tracker, and the helpers of one connection,
-- `computeDelta`, `computeRate` and `toConnectionStats`.
use data_exfiltration_detect.Common.{ℕ, ◌-◌, List, [], Bool, false, leb, if◌then◌else◌}
use data_exfiltration_detect.Common.Text.{Text}
use data_exfiltration_detect.Network.Floats.{Floats}
use data_exfiltration_detect.Network.Types.{Connection}
use data_exfiltration_detect.Network.BandwidthStats.{
  ConnectionBandwidthStats, ProcessBandwidthStats,
}

pub record TrackedTransfer (Double : Type 0) : Type 0 where
  pub connection : Connection
  pub process_name : Text
  pub baseline_bytes_sent : ℕ
  pub baseline_bytes_received : ℕ
  pub cumulative_uploaded_bytes : ℕ
  pub cumulative_downloaded_bytes : ℕ
  pub upload_rate_bps : Double
  pub download_rate_bps : Double
  pub first_observed : ℕ
  pub last_updated : ℕ

pub record TransferRateTracker (Double : Type 0) : Type 0 where
  pub active_transfers : List (Text × TrackedTransfer Double)
  pub active_connection_stats : List (Text × ConnectionBandwidthStats Double)
  pub closed_connection_stats : List (Text × ConnectionBandwidthStats Double)
  pub active_process_stats : List (ℕ × ProcessBandwidthStats Double)
  pub closed_process_stats : List (ℕ × ProcessBandwidthStats Double)
  pub closed_uploaded_by_process : List (ℕ × ℕ)
  pub closed_downloaded_by_process : List (ℕ × ℕ)
  pub process_names : List (ℕ × Text)
  pub process_first_observed : List (ℕ × ℕ)
  pub seeded : Bool

unfoldable pub compute_delta : ℕ → ℕ → ℕ
compute_delta previous_counter current_counter =
    if leb previous_counter current_counter
    then current_counter - previous_counter
    else current_counter

unfoldable pub reset : {Double : Type 0} → TransferRateTracker Double → TransferRateTracker Double
reset t = record {
  active_transfers = [];
  active_connection_stats = [];
  closed_connection_stats = [];
  active_process_stats = [];
  closed_process_stats = [];
  closed_uploaded_by_process = [];
  closed_downloaded_by_process = [];
  process_names = [];
  process_first_observed = [];
  seeded = false;
}

module _ {Double : Type 0} (f : Floats Double) where
  unfoldable pub compute_rate : ℕ → Double → Double
  compute_rate byte_delta elapsed_seconds =
      if f.less_equal elapsed_seconds f.nano
      then f.zero
      else f.divide (f.of_bytes byte_delta) elapsed_seconds

  unfoldable pub to_connection_stats :
      Bool → TrackedTransfer Double → ConnectionBandwidthStats Double
  to_connection_stats is_active tracked = record {
    process_id = tracked.connection.process_id;
    process_name = tracked.process_name;
    remote_address = tracked.connection.remote_address;
    remote_port = tracked.connection.remote_port;
    protocol = tracked.connection.protocol;
    uploaded_bytes = tracked.cumulative_uploaded_bytes;
    downloaded_bytes = tracked.cumulative_downloaded_bytes;
    upload_rate_bps = if is_active then tracked.upload_rate_bps else f.zero;
    download_rate_bps = if is_active then tracked.download_rate_bps else f.zero;
    first_observed = tracked.first_observed;
    last_updated = tracked.last_updated;
    is_active = is_active;
  }
