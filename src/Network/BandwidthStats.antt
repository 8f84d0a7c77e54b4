-- ===== src/Network/BandwidthStats.antt =====
-- src/network/models/ConnectionBandwidthStats.h, ProcessBandwidthStats.h and their .cpp files.
use data_exfiltration_detect.Common.{ℕ, ◌+◌, ◌%◌, ◌^◌, ◌++◌, Bool}
use data_exfiltration_detect.Common.Text.{Text, codes}
use data_exfiltration_detect.Network.Types.{ProtocolType}
use data_exfiltration_detect.Network.Formatting.{
  Printing, format_bytes, format_rate, name_or_unknown, with_port,
}

pub record ConnectionBandwidthStats (Double : Type 0) : Type 0 where
  pub process_id : ℕ
  pub process_name : Text
  pub remote_address : Text
  pub remote_port : ℕ
  pub protocol : ProtocolType
  pub uploaded_bytes : ℕ
  pub downloaded_bytes : ℕ
  pub upload_rate_bps : Double
  pub download_rate_bps : Double
  pub first_observed : ℕ
  pub last_updated : ℕ
  pub is_active : Bool

pub record ProcessBandwidthStats (Double : Type 0) : Type 0 where
  pub process_id : ℕ
  pub process_name : Text
  pub uploaded_bytes : ℕ
  pub downloaded_bytes : ℕ
  pub upload_rate_bps : Double
  pub download_rate_bps : Double
  pub first_observed : ℕ
  pub last_updated : ℕ
  pub active_connection_count : ℕ

module _ {Double : Type 0} where
  -- `totalTransferredBytes` of both.
  unfoldable pub connection_total_bytes : ConnectionBandwidthStats Double → ℕ
  connection_total_bytes s = (s.uploaded_bytes + s.downloaded_bytes) % 2 ^ 64

  unfoldable pub process_total_bytes : ProcessBandwidthStats Double → ℕ
  process_total_bytes s = (s.uploaded_bytes + s.downloaded_bytes) % 2 ^ 64

module _ {Double : Type 0} (p : Printing Double) where
  unfoldable pub connection_bandwidth_to_string : ConnectionBandwidthStats Double → Text
  unfolding connection_total_bytes format_rate format_bytes name_or_unknown with_port
  connection_bandwidth_to_string s =
      codes "Process:\n"
      ++ (name_or_unknown s.process_name
          ++ (codes "\n\nRemote:\n"
              ++ (with_port s.remote_address s.remote_port
                  ++ (codes "\n\nUpload Rate:\n"
                      ++ (format_rate p s.upload_rate_bps
                          ++ (codes "\n\nDownload Rate:\n"
                              ++ (format_rate p s.download_rate_bps
                                  ++ (codes "\n\nTotal Transfer:\n"
                                      ++ format_bytes p (connection_total_bytes s)))))))))

  unfoldable pub process_bandwidth_to_string : ProcessBandwidthStats Double → Text
  unfolding process_total_bytes format_rate format_bytes name_or_unknown
  process_bandwidth_to_string s =
      codes "Process:\n"
      ++ (name_or_unknown s.process_name
          ++ (codes "\n\nUpload Rate:\n"
              ++ (format_rate p s.upload_rate_bps
                  ++ (codes "\n\nDownload Rate:\n"
                      ++ (format_rate p s.download_rate_bps
                          ++ (codes "\n\nTotal Transfer:\n"
                              ++ format_bytes p (process_total_bytes s)))))))
