-- ===== src/Network/NetworkUtils/Ipv6.antt =====
-- NetworkUtils.cpp: `isValidIpv6`.
use data_exfiltration_detect.Common.{
  ℕ, ◌+◌, List, [], ◌∷◌, ◌++◌, Bool, true, false, ◌&&◌, ◌||◌, not, Option, none, some, ltb, ◌==◌,
  if◌then◌else◌, length, is_empty, take, drop,
}
use data_exfiltration_detect.Common.Text.{Text, codes, contains_text, find_text, find_last_of}
use data_exfiltration_detect.Network.NetworkUtils.{
  is_hex_digit, all_bytes, parse_hextet, split, is_valid_ipv4,
}

abbrev colons : Text
colons = codes "::"

-- The address with an IPv4 tail replaced by two hextets; `none` is an early `return false`.
unfoldable pub replace_tail : Text → Option ℕ → Option ℕ → Option Text
unfolding is_valid_ipv4
replace_tail address last_colon none = some address
replace_tail address none (some first_dot) = none
replace_tail address (some last_colon) (some first_dot) =
    if ltb first_dot last_colon
    then none
    else if is_valid_ipv4 (drop (last_colon + 1) address)
    then some (take (last_colon + 1) address ++ codes "0:0")
    else none

-- The parts of one side of `::`; an empty side has none.
unfoldable pub side_parts : Text → List Text
unfolding split
side_parts side = if is_empty side then [] else split side b':'

-- `validateParts`.
unfoldable pub are_hextets : List Text → Bool
unfolding parse_hextet
are_hextets [] = true
are_hextets (part ∷ parts) = parse_hextet part && are_hextets parts

-- The part of `isValidIpv6` from the search for `::` on.
unfoldable pub check_groups : Text → Option ℕ → Bool
unfolding split side_parts are_hextets contains_text
check_groups working none = let left = split working b':' in are_hextets left && (length left == 8)
check_groups working (some compression_pos) =
    let left = side_parts (take compression_pos working) in
    let right = side_parts (drop (compression_pos + 2) working) in
    not (contains_text colons (drop (compression_pos + 1) working))
    && are_hextets left
    && are_hextets right
    && ltb (length left + length right) 8

check_working : Option Text → Bool
unfolding check_groups find_text
check_working none = false
check_working (some working) = check_groups working (find_text colons working)

unfoldable pub is_ipv6_byte : ℕ → Bool
unfolding is_hex_digit
is_ipv6_byte ch = is_hex_digit ch || ch == b':' || ch == b'.'

unfoldable pub is_valid_ipv6 : Text → Bool
unfolding contains_text all_bytes is_ipv6_byte find_last_of find_text replace_tail check_working
is_valid_ipv6 address =
    if is_empty address || contains_text (codes ":::") address
    then false
    else if not (all_bytes is_ipv6_byte address)
    then false
    else check_working
        (replace_tail address (find_last_of b':' address) (find_text (codes ".") address))
