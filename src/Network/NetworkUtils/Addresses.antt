-- ===== src/Network/NetworkUtils/Addresses.antt =====
-- NetworkUtils.cpp: what is asked of an address or a port once its syntax is known.
use data_exfiltration_detect.Common.{ℕ, Bool, true, false, ◌||◌, ltb, if◌then◌else◌, is_empty}
use data_exfiltration_detect.Common.Text.{Text, codes, text_equal, starts_with}
use data_exfiltration_detect.Network.Types.{AddressFamily, ProtocolType}
use data_exfiltration_detect.Network.NetworkUtils.{is_valid_ipv4}
use data_exfiltration_detect.Network.NetworkUtils.Ipv6.{is_valid_ipv6}

unfoldable pub is_valid_ip_address : Text → Bool
unfolding is_valid_ipv4 is_valid_ipv6
is_valid_ip_address address = is_valid_ipv4 address || is_valid_ipv6 address

unfoldable pub detect_address_family : Text → AddressFamily
unfolding is_valid_ipv4 is_valid_ipv6
detect_address_family address =
    if is_valid_ipv4 address
    then AddressFamily.ipv4
    else if is_valid_ipv6 address
    then AddressFamily.ipv6
    else AddressFamily.unknown

unfoldable pub address_family_to_string : AddressFamily → Text
address_family_to_string AddressFamily.ipv4 = codes "IPv4"
address_family_to_string AddressFamily.ipv6 = codes "IPv6"
address_family_to_string AddressFamily.unknown = codes "Unknown"

unfoldable pub is_loopback : Text → Bool
unfolding is_valid_ipv4 is_valid_ipv6 starts_with text_equal
is_loopback address =
    if is_valid_ipv4 address
    then starts_with (codes "127.") address
    else if is_valid_ipv6 address
    then text_equal address (codes "::1") || text_equal address (codes "0:0:0:0:0:0:0:1")
    else false

unfoldable pub is_unspecified : Text → Bool
unfolding text_equal
is_unspecified address =
    if is_empty address
    then true
    else if text_equal address (codes "0.0.0.0")
    then true
    else text_equal address (codes "::") || text_equal address (codes "0:0:0:0:0:0:0:0")

unfoldable pub has_remote_endpoint : Text → Bool
unfolding is_unspecified is_valid_ip_address
has_remote_endpoint address = if is_unspecified address then false else is_valid_ip_address address

unfoldable pub protocol_to_string : ProtocolType → Text
protocol_to_string ProtocolType.tcp = codes "TCP"
protocol_to_string ProtocolType.udp = codes "UDP"
protocol_to_string ProtocolType.unknown = codes "Unknown"

unfoldable pub is_valid_port : ℕ → Bool
is_valid_port port = ltb 0 port

unfoldable pub has_remote_port : ℕ → Bool
unfolding is_valid_port
has_remote_port port = is_valid_port port
