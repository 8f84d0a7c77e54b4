-- ===== src/Network/NetworkUtils.antt =====
-- src/network/utils/NetworkUtils.h and .cpp: the syntax of IP addresses. An address is its bytes.
pub mod Ipv6
pub mod Families
pub mod Addresses
pub mod Octets
pub mod Ipv4
mod Tests
use mathlib.Core.Option
use data_exfiltration_detect.Common.{
  ℕ, zero, suc, ◌+◌, ◌-◌, ◌*◌, List, [], ◌∷◌, ◌++◌, Bool, true, false, ◌&&◌, ◌||◌, not, Option,
  none, some, ltb, leb, ◌==◌, if◌then◌else◌, length, is_empty, take, drop,
}
use data_exfiltration_detect.Common.Text.{Text, codes, starts_with, text_equal}
use data_exfiltration_detect.Network.Types.{AddressFamily, ProtocolType, tcp, udp}

unfoldable pub is_digit : ℕ → Bool
is_digit c = leb b'0' c && leb c b'9'

unfoldable pub is_hex_digit : ℕ → Bool
unfolding is_digit
is_hex_digit c = is_digit c || leb b'a' c && leb c b'f' || leb b'A' c && leb c b'F'

-- The loop over the digits; `none` is the early return at a byte that is no digit.
unfoldable pub parse_digits : ℕ → Text → Option ℕ
unfolding is_digit
parse_digits parsed [] = some parsed
parse_digits parsed (ch ∷ token) =
    let rest = parse_digits (parsed * 10 + (ch - b'0')) token in if is_digit ch then rest else none

begins_with_zero : Text → Bool
begins_with_zero [] = false
begins_with_zero (ch ∷ token) = ch == b'0'

within_octet : Option ℕ → Option ℕ
within_octet none = none
within_octet (some parsed) = if ltb 255 parsed then none else some parsed

-- `parseDecimalOctet`, with the out-parameter as the result.
unfoldable pub parse_decimal_octet : Text → Option ℕ
unfolding parse_digits begins_with_zero within_octet
parse_decimal_octet token =
    if is_empty token || ltb 3 (length token)
    then none
    else if ltb 1 (length token) && begins_with_zero token
    then none
    else within_octet (parse_digits 0 token)

unfoldable pub all_bytes : (ℕ → Bool) → Text → Bool
all_bytes p [] = true
all_bytes p (c ∷ cs) = p c && all_bytes p cs

unfoldable pub parse_hextet : Text → Bool
unfolding all_bytes is_hex_digit
parse_hextet token =
    if is_empty token || ltb 4 (length token) then false else all_bytes is_hex_digit token

-- The loop of `split`, with the token under construction.
unfoldable pub split_from : ℕ → Text → Text → List Text
split_from delimiter current [] = current ∷ []
split_from delimiter current (ch ∷ value) = elim (ch == delimiter) [
  | true ↦ current ∷ split_from delimiter [] value
  | false ↦ split_from delimiter (current ++ ch ∷ []) value
]

unfoldable pub split : Text → ℕ → List Text
unfolding split_from
split value delimiter = split_from delimiter [] value

is_some : Option ℕ → Bool
is_some none = false
is_some (some n) = true

-- The loop over the parts of an IPv4 address.
unfoldable pub are_octets : List Text → Bool
unfolding parse_decimal_octet is_some
are_octets [] = true
are_octets (part ∷ parts) = is_some (parse_decimal_octet part) && are_octets parts

unfoldable pub is_valid_ipv4 : Text → Bool
unfolding split are_octets
is_valid_ipv4 address =
    let parts = split address b'.' in if length parts == 4 then are_octets parts else false
