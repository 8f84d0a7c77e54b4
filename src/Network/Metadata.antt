-- ===== src/Network/Metadata.antt =====
-- src/network/models/ConnectionMetadata.h, DataTransferMetadata.h and their .cpp files.
pub mod Laws
mod Tests
use data_exfiltration_detect.Common.{ℕ, ◌+◌, ◌%◌, ◌^◌, ◌++◌, Bool, ◌==◌, if◌then◌else◌}
use data_exfiltration_detect.Common.Text.{Text, codes, to_decimal}
use data_exfiltration_detect.Network.Types.{ProtocolType, AddressFamily, Connection}
use data_exfiltration_detect.Network.NetworkUtils.Addresses.{
  detect_address_family, has_remote_port, protocol_to_string,
}
use data_exfiltration_detect.Network.Formatting.{
  Printing, format_bytes, format_rate, name_or_unknown, with_port,
}
use data_exfiltration_detect.Network.BandwidthStats.{ConnectionBandwidthStats}
use data_exfiltration_detect.Network.TransferStats.{observed_at}

pub record ConnectionMetadata : Type 0 where
  pub process_id : ℕ
  pub process_name : Text
  pub remote_ip : Text
  pub domain : Text
  pub protocol : ProtocolType
  pub local_port : ℕ
  pub remote_port : ℕ
  pub address_family : AddressFamily
  pub has_port : Bool
  pub timestamp : ℕ

-- `ConnectionMetadata::fromConnection`.
unfoldable pub connection_metadata : Connection → Text → Text → ConnectionMetadata
unfolding detect_address_family has_remote_port
connection_metadata connection domain process_name = record {
  process_id = connection.process_id;
  process_name = process_name;
  remote_ip = connection.remote_address;
  domain = domain;
  protocol = connection.protocol;
  local_port = connection.local_port;
  remote_port = connection.remote_port;
  address_family = detect_address_family connection.remote_address;
  has_port = has_remote_port connection.remote_port;
  timestamp = connection.timestamp;
}

unfoldable pub connection_metadata_to_string : ConnectionMetadata → Text
unfolding protocol_to_string to_decimal
connection_metadata_to_string m =
    let text =
      codes "Remote IP:\n"
      ++ (m.remote_ip
          ++ (codes "\n\nDomain:\n"
              ++ (m.domain ++ (codes "\n\nProtocol:\n" ++ protocol_to_string m.protocol)))) in
    if m.has_port then text ++ (codes "\n\nRemote Port:\n" ++ to_decimal m.remote_port) else text

pub record DataTransferMetadata (Double : Type 0) : Type 0 where
  pub process_id : ℕ
  pub process_name : Text
  pub remote_ip : Text
  pub remote_port : ℕ
  pub protocol : ProtocolType
  pub uploaded_bytes : ℕ
  pub downloaded_bytes : ℕ
  pub upload_rate_bps : Double
  pub download_rate_bps : Double
  pub first_observed : ℕ
  pub last_updated : ℕ

module _ {Double : Type 0} where
  -- `DataTransferMetadata::fromConnection`.
  unfoldable pub transfer_metadata :
      Connection → ℕ → ℕ → Double → Double → Text → ℕ → DataTransferMetadata Double
  unfolding observed_at
  transfer_metadata connection uploaded_bytes downloaded_bytes upload_rate_bps download_rate_bps
        process_name first_observed =
      record {
        process_id = connection.process_id;
        process_name = process_name;
        remote_ip = connection.remote_address;
        remote_port = connection.remote_port;
        protocol = connection.protocol;
        uploaded_bytes = uploaded_bytes;
        downloaded_bytes = downloaded_bytes;
        upload_rate_bps = upload_rate_bps;
        download_rate_bps = download_rate_bps;
        first_observed = observed_at first_observed connection;
        last_updated = connection.timestamp;
      }

  unfoldable pub from_bandwidth_stats :
      ConnectionBandwidthStats Double → DataTransferMetadata Double
  from_bandwidth_stats stats = record {
    process_id = stats.process_id;
    process_name = stats.process_name;
    remote_ip = stats.remote_address;
    remote_port = stats.remote_port;
    protocol = stats.protocol;
    uploaded_bytes = stats.uploaded_bytes;
    downloaded_bytes = stats.downloaded_bytes;
    upload_rate_bps = stats.upload_rate_bps;
    download_rate_bps = stats.download_rate_bps;
    first_observed = stats.first_observed;
    last_updated = stats.last_updated;
  }

  unfoldable pub total_transferred_bytes : DataTransferMetadata Double → ℕ
  total_transferred_bytes m = (m.uploaded_bytes + m.downloaded_bytes) % 2 ^ 64

module _ {Double : Type 0} (p : Printing Double) where
  unfoldable pub transfer_metadata_to_string : DataTransferMetadata Double → Text
  unfolding total_transferred_bytes format_bytes format_rate name_or_unknown with_port
      protocol_to_string
  transfer_metadata_to_string m =
      codes "Process:\n"
      ++ (name_or_unknown m.process_name
          ++ (codes "\n\nProtocol:\n"
              ++ (protocol_to_string m.protocol
                  ++ (codes "\n\nRemote:\n"
                      ++ (with_port m.remote_ip m.remote_port
                          ++ (codes "\n\nUploaded:\n"
                              ++ (format_bytes p m.uploaded_bytes
                                  ++ (codes "\n\nDownloaded:\n"
                                      ++ (format_bytes p m.downloaded_bytes
                                          ++ (codes "\n\nUpload Rate:\n"
                                              ++ (format_rate p m.upload_rate_bps
                                                  ++ (codes "\n\nDownload Rate:\n"
                                                      ++ (format_rate p m.download_rate_bps
                                                          ++ (codes "\n\nTotal Transfer:\n"
                                                            ++ format_bytes p (
                                                            total_transferred_bytes m)))))))))))))))
