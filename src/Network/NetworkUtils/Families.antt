-- ===== src/Network/NetworkUtils/Families.antt =====
-- NetworkUtils.cpp: `isValidIpv4` and `isValidIpv6` against each other, for `detectAddressFamily`.
use data_exfiltration_detect.Common.{
  ℕ, ◌≡◌, ◌≢◌, ◌↔◌, refl, [], ◌∷◌, ◌++◌, true, false, none, inl, inr, arith, Option-cases,
}
use data_exfiltration_detect.Common.Text.{
  Text, codes, Lacks, AllBytes-mono, IsDigit, to_decimal, to_decimal-digits, find_last_of,
  find_text, starts_with,
}
use data_exfiltration_detect.Network.Types.{AddressFamily}
use data_exfiltration_detect.Network.NetworkUtils.{is_valid_ipv4}
use data_exfiltration_detect.Network.NetworkUtils.Ipv4.{dotted, is_valid_ipv4_iff}
use data_exfiltration_detect.Network.NetworkUtils.Ipv6.{replace_tail, is_valid_ipv6}
use data_exfiltration_detect.Network.NetworkUtils.Addresses.{
  detect_address_family, is_valid_ip_address,
}

Lacks-append : (c : ℕ) (p q : Text) → Lacks c p → Lacks c q → Lacks c (p ++ q)
Lacks-append c [] q h k = k
Lacks-append c (x ∷ p) q h k = (h.0, Lacks-append c p q h.1 k)

find_last_of-Lacks : (c : ℕ) (t : Text) → Lacks c t → find_last_of c t ≡ none
unfolding find_last_of
find_last_of-Lacks c [] h = refl
find_last_of-Lacks c (d ∷ t) h = ground (arith, find_last_of-Lacks c t h.1, h.0)

find_text-dot : (p q : Text) → find_text (codes ".") (p ++ b'.' ∷ q) ≢ none
unfolding find_text starts_with
find_text-dot [] q = λ e. cc
find_text-dot (c ∷ p) q = λ e. ground (arith, e, find_text-dot p q)

to_decimal-colonless : (n : ℕ) → Lacks b':' (to_decimal n)
to_decimal-colonless n =
    AllBytes-mono IsDigit (λ d. d ≢ b':') (to_decimal n) (λ c h. omega arith) (to_decimal-digits n)

dotted-colonless : (a b c d : ℕ) → Lacks b':' (dotted a b c d)
dotted-colonless a b c d =
    let dot : b'.' ≢ b':' = λ e. omega (arith, e) in
    Lacks-append b':' _ _ (to_decimal-colonless a) (
      dot,
      Lacks-append b':' _ _ (to_decimal-colonless b)
          (dot, Lacks-append b':' _ _ (to_decimal-colonless c) (dot, to_decimal-colonless d)),
    )

-- With a dot and no colon there is no tail to replace.
replace_tail-dotted :
    (t : Text) (a b c d : ℕ)
    → t ≡ dotted a b c d
    → replace_tail t (find_last_of b':' t) (find_text (codes ".") t) ≡ none
unfolding replace_tail
replace_tail-dotted t a b c d e =
    let dot = find_text-dot (to_decimal a) _ in
    elim (Option-cases (find_text (codes ".") t)) [
      | inl x ↦ absurd (dot (rw e at x))
      | inr (i, x) ↦
          rw (x, e, find_last_of-Lacks b':' (dotted a b c d) (dotted-colonless a b c d)) refl
    ]

ipv4-not-ipv6 : (t : Text) → is_valid_ipv4 t ≡ true → is_valid_ipv6 t ≡ false
unfolding is_valid_ipv6
ipv4-not-ipv6 t h =
    let (a, b, c, d, ba, bb, bc, bd, e) = (is_valid_ipv4_iff t).0 h in
    ground (arith, replace_tail-dotted t a b c d e)

-- No text is both an IPv4 and an IPv6 address: the family that is detected is IPv4 exactly for
-- what isValidIpv4 accepts, IPv6 exactly for what isValidIpv6 accepts, and unknown exactly for
-- what isValidIpAddress refuses.
pub detect_address_family_iff :
    (t : Text)
    → ((detect_address_family t ≡ AddressFamily.ipv4) ↔ (is_valid_ipv4 t ≡ true))
      × ((detect_address_family t ≡ AddressFamily.ipv6) ↔ (is_valid_ipv6 t ≡ true))
      × ((detect_address_family t ≡ AddressFamily.unknown) ↔ (is_valid_ip_address t ≡ false))
unfolding detect_address_family is_valid_ip_address
detect_address_family_iff t = ground (arith, ipv4-not-ipv6 t)
