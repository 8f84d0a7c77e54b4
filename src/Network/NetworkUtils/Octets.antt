-- ===== src/Network/NetworkUtils/Octets.antt =====
-- NetworkUtils.cpp: what `parseDecimalOctet` accepts.
use data_exfiltration_detect.Common.{
  ℕ, zero, suc, ◌+◌, ◌-◌, ◌*◌, ◌≤◌, ◌<◌, ◌≡◌, refl, ◌∙◌, ap, ◌↔◌, [], ◌∷◌, Bool, true, false,
  Option, none, some, arith, ◌==◌, Bool-cases, ℕ_discrete, if◌then◌else◌, inl, inr,
}
use data_exfiltration_detect.Common.Text.{Text, to_decimal, to_decimal-small, to_decimal-large}
use data_exfiltration_detect.Network.NetworkUtils.{
  parse_digits, parse_decimal_octet, within_octet, begins_with_zero,
}

-- The parse of the print of an octet, as a test.
parses_back : ℕ → Option ℕ → Bool
parses_back n none = false
parses_back n (some m) = m == n

parse-back : (n : ℕ) (o : Option ℕ) → parses_back n o ≡ true → o ≡ some n
unfolding parses_back
parse-back n none h = cc
parse-back n (some m) h = ground arith

-- The test for each of the first numbers.
first_parse_back : ℕ → Bool
unfolding parses_back parse_decimal_octet to_decimal
first_parse_back zero = true
first_parse_back (suc m) =
    let rest = first_parse_back m in
    if parses_back m (parse_decimal_octet (to_decimal m)) then rest else false

octets_parse_back : first_parse_back 256 ≡ true
unfolding first_parse_back
octets_parse_back = refl

print→parse_below :
    (m n : ℕ) → first_parse_back m ≡ true → n < m → parse_decimal_octet (to_decimal n) ≡ some n
unfolding first_parse_back
print→parse_below zero n h lt = absurd (omega arith)
print→parse_below (suc m) n h lt =
    elim (Bool-cases (parses_back m (parse_decimal_octet (to_decimal m)))) [
      | inl e ↦ elim (ℕ_discrete n m) [
        | yes p ↦ rw p (parse-back m (parse_decimal_octet (to_decimal m)) e)
        | no p ↦ print→parse_below m n (rw e at h) (omega (arith, p))
      ]
      | inr e ↦ cc (rw e at h)
    ]

one_digit : (c n : ℕ) → parse_digits 0 (c ∷ []) ≡ some n → c ∷ [] ≡ to_decimal n
unfolding parse_digits
one_digit c n h = ground (arith, to_decimal-small (c - 48))

two_digits :
    (c d n : ℕ)
    → (c == 48) ≡ false
    → parse_digits 0 (c ∷ d ∷ []) ≡ some n
    → c ∷ d ∷ [] ≡ to_decimal n
unfolding parse_digits
two_digits c d n z h =
    ground (arith, to_decimal-small (c - 48), to_decimal-large ((c - 48) * 10 + (d - 48)))

three_digits :
    (c d e n : ℕ)
    → (c == 48) ≡ false
    → parse_digits 0 (c ∷ d ∷ e ∷ []) ≡ some n
    → c ∷ d ∷ e ∷ [] ≡ to_decimal n
unfolding parse_digits
three_digits c d e n z h = ground (
  arith,
  to_decimal-small (c - 48),
  to_decimal-large ((c - 48) * 10 + (d - 48)),
  to_decimal-large (((c - 48) * 10 + (d - 48)) * 10 + (e - 48)),
)

within_octet-inv : (o : Option ℕ) (n : ℕ) → within_octet o ≡ some n → (o ≡ some n) × (n ≤ 255)
unfolding within_octet
within_octet-inv none n h = cc
within_octet-inv (some m) n h = ground arith

pub parse→print :
    (t : Text) (n : ℕ) → parse_decimal_octet t ≡ some n → (t ≡ to_decimal n) × (n ≤ 255)
unfolding parse_decimal_octet
parse→print [] n h = cc
parse→print (c ∷ []) n h =
    let p = within_octet-inv (parse_digits 0 (c ∷ [])) n (ground arith) in (one_digit c n p.0, p.1)
parse→print (c ∷ d ∷ []) n h = elim (Bool-cases (c == 48)) [
  | inl z ↦ cc (rw (z, begins_with_zero) at h)
  | inr z ↦
      let p = within_octet-inv (parse_digits 0 (c ∷ d ∷ [])) n (rw (z, begins_with_zero) at h) in
      (two_digits c d n z p.0, p.1)
]
parse→print (c ∷ d ∷ e ∷ []) n h = elim (Bool-cases (c == 48)) [
  | inl z ↦ cc (rw (z, begins_with_zero) at h)
  | inr z ↦
      let p =
        within_octet-inv (parse_digits 0 (c ∷ d ∷ e ∷ [])) n (rw (z, begins_with_zero) at h) in
      (three_digits c d e n z p.0, p.1)
]
parse→print (c ∷ d ∷ e ∷ f ∷ t) n h = ground arith

pub print→parse : (n : ℕ) → n ≤ 255 → parse_decimal_octet (to_decimal n) ≡ some n
print→parse n h = print→parse_below 256 n octets_parse_back (omega arith)

-- An octet is accepted exactly when it is the decimal print of a number up to 255, and is parsed
-- to that number.
parse_decimal_octet_iff :
    (t : Text) (n : ℕ) → (parse_decimal_octet t ≡ some n) ↔ ((t ≡ to_decimal n) × (n ≤ 255))
parse_decimal_octet_iff t n =
    (parse→print t n, λ (e, h). ap parse_decimal_octet e ∙ print→parse n h)
