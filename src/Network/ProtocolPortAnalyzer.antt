-- ===== src/Network/ProtocolPortAnalyzer.antt =====
-- src/network/intelligence/ProtocolPortAnalyzer.h and .cpp, with the record of
-- src/network/models/ProtocolPortProfile.h. `tryAnalyze` gives its out-parameter and its Boolean
-- result as an option.
pub mod Laws
mod Tests
use data_exfiltration_detect.Common.{
  ℕ, List, [], ◌∷◌, ◌++◌, Bool, true, false, not, Option, none, some, if◌then◌else◌,
}
use data_exfiltration_detect.Common.Text.{Text, codes, to_decimal}
use data_exfiltration_detect.Network.Types.{
  ProtocolType, ConnectionState, AddressFamily, Connection,
}
use data_exfiltration_detect.Network.NetworkUtils.Addresses.{
  is_valid_ip_address, detect_address_family, is_unspecified, is_valid_port, has_remote_port,
  protocol_to_string,
}
use data_exfiltration_detect.Network.ConnectionAttributor.{AttributedConnection}

pub record ProtocolPortProfile : Type 0 where
  pub process_id : ℕ
  pub process_name : Text
  pub protocol : ProtocolType
  pub local_port : ℕ
  pub remote_port : ℕ
  pub connection_state : ConnectionState
  pub address_family : AddressFamily
  pub has_port : Bool
  pub timestamp : ℕ

unfoldable pub profile_to_string : ProtocolPortProfile → Text
unfolding protocol_to_string to_decimal
profile_to_string profile =
    let text =
      codes "Protocol:\n"
      ++ (protocol_to_string profile.protocol
          ++ (codes "\n\nLocal Port:\n" ++ to_decimal profile.local_port)) in
    if profile.has_port
    then text ++ (codes "\n\nRemote Port:\n" ++ to_decimal profile.remote_port)
    else text

-- `protocol == TCP || protocol == UDP`.
unfoldable pub is_transport : ProtocolType → Bool
is_transport ProtocolType.tcp = true
is_transport ProtocolType.udp = true
is_transport ProtocolType.unknown = false

-- The family of the local address: it stays unknown where the address is unspecified or malformed.
unfoldable pub local_family : Text → AddressFamily
unfolding is_valid_ip_address detect_address_family is_unspecified
local_family address =
    if is_valid_ip_address address
    then detect_address_family address
    else if is_unspecified address
    then AddressFamily.unknown
    else AddressFamily.unknown

unfoldable pub try_analyze : Connection → Text → Option ProtocolPortProfile
unfolding is_valid_port is_transport local_family has_remote_port
try_analyze connection process_name =
    if not (is_valid_port connection.local_port)
    then none
    else if not (is_transport connection.protocol)
    then none
    else some (record {
      process_id = connection.process_id;
      process_name = process_name;
      protocol = connection.protocol;
      local_port = connection.local_port;
      remote_port = if has_remote_port connection.remote_port then connection.remote_port else 0;
      connection_state = connection.state;
      address_family = local_family connection.local_address;
      has_port = has_remote_port connection.remote_port;
      timestamp = connection.timestamp;
    })

-- `analyze` of connections.
unfoldable pub analyze : List Connection → List ProtocolPortProfile
unfolding try_analyze
analyze [] = []
analyze (connection ∷ connections) =
    let rest = analyze connections in
    elim (try_analyze connection []) [ none ↦ rest | some profile ↦ profile ∷ rest ]

-- `analyze` of attributed connections.
unfoldable pub analyze_attributed : List AttributedConnection → List ProtocolPortProfile
unfolding try_analyze
analyze_attributed [] = []
analyze_attributed (attributed ∷ connections) =
    let rest = analyze_attributed connections in
    let process_name =
      if attributed.has_process_info then attributed.process_info.process_name else [] in
    elim (try_analyze attributed.connection process_name) [
      | none ↦ rest
      | some profile ↦ profile ∷ rest
    ]
