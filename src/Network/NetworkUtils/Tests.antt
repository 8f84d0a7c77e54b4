-- ===== src/Network/NetworkUtils/Tests.antt =====
-- The validators on concrete addresses.
use data_exfiltration_detect.Common.{◌≡◌, refl, ◌↔◌, true, false}
use data_exfiltration_detect.Common.Text.{codes}
use data_exfiltration_detect.Network.NetworkUtils.{is_valid_ipv4}
use data_exfiltration_detect.Network.NetworkUtils.Ipv4.{IsDotted, is_valid_ipv4_iff}
use data_exfiltration_detect.Network.NetworkUtils.Ipv6.{is_valid_ipv6}
use data_exfiltration_detect.Network.NetworkUtils.Addresses.{
  is_loopback, detect_address_family, is_valid_ip_address,
}
use data_exfiltration_detect.Network.NetworkUtils.Families.{detect_address_family_iff}
use data_exfiltration_detect.Network.Types.{AddressFamily}

accepts_ipv4 : is_valid_ipv4 (codes "192.168.0.1") ≡ true
unfolding is_valid_ipv4
accepts_ipv4 = refl

rejects_leading_zero : is_valid_ipv4 (codes "192.168.00.1") ≡ false
unfolding is_valid_ipv4
rejects_leading_zero = refl

rejects_large_octet : is_valid_ipv4 (codes "256.0.0.1") ≡ false
unfolding is_valid_ipv4
rejects_large_octet = refl

accepts_ipv6 : is_valid_ipv6 (codes "2001:db8::1") ≡ true
unfolding is_valid_ipv6
accepts_ipv6 = refl

accepts_ipv4_tail : is_valid_ipv6 (codes "::ffff:10.0.0.1") ≡ true
unfolding is_valid_ipv6
accepts_ipv4_tail = refl

rejects_two_compressions : is_valid_ipv6 (codes "2001::db8::1") ≡ false
unfolding is_valid_ipv6
rejects_two_compressions = refl

loopback_block : is_loopback (codes "127.8.9.1") ≡ true
unfolding is_loopback
loopback_block = refl

is_valid_ipv4_iff_example :
    (is_valid_ipv4 (codes "10.0.0.255") ≡ true) ↔ IsDotted (codes "10.0.0.255")
is_valid_ipv4_iff_example = is_valid_ipv4_iff (codes "10.0.0.255")

detect_address_family_iff_example :
    let t = codes "::ffff:10.0.0.1" in
    ((detect_address_family t ≡ AddressFamily.ipv4) ↔ (is_valid_ipv4 t ≡ true))
    × ((detect_address_family t ≡ AddressFamily.ipv6) ↔ (is_valid_ipv6 t ≡ true))
    × ((detect_address_family t ≡ AddressFamily.unknown) ↔ (is_valid_ip_address t ≡ false))
detect_address_family_iff_example = detect_address_family_iff (codes "::ffff:10.0.0.1")
