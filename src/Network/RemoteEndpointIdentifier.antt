-- ===== src/Network/RemoteEndpointIdentifier.antt =====
-- src/network/intelligence/RemoteEndpointIdentifier.h and .cpp. `tryIdentify` gives its out-parameter
-- and its Boolean result as an option.
pub mod Laws
mod Tests
use data_exfiltration_detect.Common.{
  ℕ, List, [], ◌∷◌, Bool, true, false, not, ◌&&◌, Option, none, some, if◌then◌else◌,
}
use data_exfiltration_detect.Common.Text.{Text}
use data_exfiltration_detect.Network.Types.{Connection}
use data_exfiltration_detect.Network.NetworkUtils.Addresses.{
  is_valid_ip_address, detect_address_family, is_unspecified, has_remote_endpoint,
}
use data_exfiltration_detect.Network.DomainResolver.{RemoteEndpoint}
use data_exfiltration_detect.Network.ConnectionAttributor.{AttributedConnection}

-- The local address, cleared where it is malformed.
unfoldable pub validated_local : Text → Text
unfolding is_valid_ip_address is_unspecified
validated_local local_ip =
    if not (is_valid_ip_address local_ip) && not (is_unspecified local_ip) then [] else local_ip

unfoldable pub try_identify : Connection → Text → Option RemoteEndpoint
unfolding validated_local is_valid_ip_address has_remote_endpoint detect_address_family
try_identify connection process_name =
    if not (has_remote_endpoint connection.remote_address)
    then none
    else if not (is_valid_ip_address connection.remote_address)
    then none
    else some (record {
      process_id = connection.process_id;
      process_name = process_name;
      protocol = connection.protocol;
      local_ip = validated_local connection.local_address;
      local_port = connection.local_port;
      remote_ip = connection.remote_address;
      remote_port = connection.remote_port;
      address_family = detect_address_family connection.remote_address;
      timestamp = connection.timestamp;
    })

-- `identify` of connections.
unfoldable pub identify : List Connection → List RemoteEndpoint
unfolding try_identify
identify [] = []
identify (connection ∷ connections) =
    let rest = identify connections in
    elim (try_identify connection []) [ none ↦ rest | some endpoint ↦ endpoint ∷ rest ]

-- `identify` of attributed connections.
unfoldable pub identify_attributed : List AttributedConnection → List RemoteEndpoint
unfolding try_identify
identify_attributed [] = []
identify_attributed (attributed ∷ connections) =
    let rest = identify_attributed connections in
    let process_name =
      if attributed.has_process_info then attributed.process_info.process_name else [] in
    elim (try_identify attributed.connection process_name) [
      | none ↦ rest
      | some endpoint ↦ endpoint ∷ rest
    ]
