-- ===== src/Network/TransferStats.antt =====
-- src/network/models/ConnectionUploadStats.h, ConnectionDownloadStats.h and their .cpp files: what the
-- transfer trackers report of a connection.
use data_exfiltration_detect.Common.{ℕ, Bool, ◌++◌, ◌==◌, if◌then◌else◌}
use data_exfiltration_detect.Common.Text.{Text, codes}
use data_exfiltration_detect.Network.Types.{ProtocolType, Connection}
use data_exfiltration_detect.Network.Formatting.{Printing, format_bytes, name_or_unknown, with_port}

pub record ConnectionUploadStats : Type 0 where
  pub process_id : ℕ
  pub process_name : Text
  pub remote_address : Text
  pub remote_port : ℕ
  pub protocol : ProtocolType
  pub uploaded_bytes : ℕ
  pub first_observed : ℕ
  pub last_updated : ℕ
  pub is_active : Bool

pub record ConnectionDownloadStats : Type 0 where
  pub process_id : ℕ
  pub process_name : Text
  pub remote_address : Text
  pub remote_port : ℕ
  pub protocol : ProtocolType
  pub downloaded_bytes : ℕ
  pub first_observed : ℕ
  pub last_updated : ℕ
  pub is_active : Bool

-- `firstObserved == time_point{} ? connection.timestamp : firstObserved`.
unfoldable pub observed_at : ℕ → Connection → ℕ
observed_at first_observed connection =
    if first_observed == 0 then connection.timestamp else first_observed

unfoldable pub upload_from_snapshot : Connection → ℕ → Text → ℕ → Bool → ConnectionUploadStats
unfolding observed_at
upload_from_snapshot connection uploaded_bytes process_name first_observed is_active = record {
  process_id = connection.process_id;
  process_name = process_name;
  remote_address = connection.remote_address;
  remote_port = connection.remote_port;
  protocol = connection.protocol;
  uploaded_bytes = uploaded_bytes;
  first_observed = observed_at first_observed connection;
  last_updated = connection.timestamp;
  is_active = is_active;
}

unfoldable pub download_from_snapshot : Connection → ℕ → Text → ℕ → Bool → ConnectionDownloadStats
unfolding observed_at
download_from_snapshot connection downloaded_bytes process_name first_observed is_active = record {
  process_id = connection.process_id;
  process_name = process_name;
  remote_address = connection.remote_address;
  remote_port = connection.remote_port;
  protocol = connection.protocol;
  downloaded_bytes = downloaded_bytes;
  first_observed = observed_at first_observed connection;
  last_updated = connection.timestamp;
  is_active = is_active;
}

module _ {Double : Type 0} (p : Printing Double) where
  unfoldable pub upload_stats_to_string : ConnectionUploadStats → Text
  unfolding format_bytes name_or_unknown with_port
  upload_stats_to_string s =
      codes "Process:\n"
      ++ (name_or_unknown s.process_name
          ++ (codes "\n\nRemote:\n"
              ++ (with_port s.remote_address s.remote_port
                  ++ (codes "\n\nUploaded:\n" ++ format_bytes p s.uploaded_bytes))))

  unfoldable pub download_stats_to_string : ConnectionDownloadStats → Text
  unfolding format_bytes name_or_unknown with_port
  download_stats_to_string s =
      codes "Process:\n"
      ++ (name_or_unknown s.process_name
          ++ (codes "\n\nRemote:\n"
              ++ (with_port s.remote_address s.remote_port
                  ++ (codes "\n\nDownloaded:\n" ++ format_bytes p s.downloaded_bytes))))
