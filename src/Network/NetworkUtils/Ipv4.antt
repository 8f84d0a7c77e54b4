-- ===== src/Network/NetworkUtils/Ipv4.antt =====
-- NetworkUtils.cpp: what `split` and `isValidIpv4` accept.
use data_exfiltration_detect.Common.{
  ℕ, ◌≤◌, ◌≡◌, refl, sym, ◌∙◌, ap, ◌↔◌, ◌≢◌, List, [], ◌∷◌, ◌++◌, Bool, true, ◌&&◌, arith, ◌==◌,
  Bool-cases, Option-cases, inl, inr, length,
}
use data_exfiltration_detect.Common.Text.{
  Text, AllBytes-mono, Lacks, IsDigit, to_decimal, to_decimal-digits,
}
use mathlib.Core.List.{append-nil, append_assoc}
use data_exfiltration_detect.Network.NetworkUtils.{
  parse_decimal_octet, split_from, split, are_octets, is_valid_ipv4, is_some,
}
use data_exfiltration_detect.Network.NetworkUtils.Octets.{parse→print, print→parse}

-- The parts joined by a delimiter.
join : ℕ → List Text → Text
join d [] = []
join d (p ∷ []) = p
join d (p ∷ q ∷ parts) = p ++ d ∷ join d (q ∷ parts)

split_from-cons :
    (d : ℕ) (current v : Text)
    → (q : Text) × (parts : List Text) × (split_from d current v ≡ q ∷ parts)
unfolding split_from
split_from-cons d current [] = (current, [], refl)
split_from-cons d current (ch ∷ v) = elim (Bool-cases (ch == d)) [
  | inl e ↦ (current, split_from d [] v, rw (e, split_from))
  | inr e ↦
      let (q, parts, h) = split_from-cons d (current ++ ch ∷ []) v in
      (q, parts, rw (e, split_from) h)
]

-- Joining what was split gives the text back.
join-split_from : (d : ℕ) (current v : Text) → join d (split_from d current v) ≡ current ++ v
unfolding join split_from
join-split_from d current [] = sym (append-nil current)
join-split_from d current (ch ∷ v) = elim (Bool-cases (ch == d)) [
  | inl e ↦
      let (q, parts, h) = split_from-cons d [] v in
      rw (e, split_from, h, join)
        (ap (λ r. current ++ d ∷ r) (ap (join d) (sym h) ∙ join-split_from d [] v)
          ∙ ap (λ x. current ++ x ∷ v) (ground arith))
  | inr e ↦
      rw (e, split_from)
        (join-split_from d (current ++ ch ∷ []) v ∙ append_assoc current (ch ∷ []) v)
]

-- A part without the delimiter is split off whole.
split_from-part :
    (d : ℕ) (current p v : Text)
    → Lacks d p
    → split_from d current (p ++ d ∷ v) ≡ (current ++ p) ∷ split_from d [] v
unfolding split_from
split_from-part d current [] v h = rw append-nil (ground arith)
split_from-part d current (c ∷ p) v h =
    ground (arith, split_from-part d (current ++ c ∷ []) p v h.1, append_assoc current (c ∷ []) p)

split_from-last :
    (d : ℕ) (current p : Text) → Lacks d p → split_from d current p ≡ (current ++ p) ∷ []
unfolding split_from
split_from-last d current [] h = rw append-nil
split_from-last d current (c ∷ p) h =
    ground (arith, split_from-last d (current ++ c ∷ []) p h.1, append_assoc current (c ∷ []) p)

-- The dotted print of four octets.
abbrev pub dotted : ℕ → ℕ → ℕ → ℕ → Text
dotted a b c d =
    to_decimal a ++ b'.' ∷ (to_decimal b ++ b'.' ∷ (to_decimal c ++ b'.' ∷ to_decimal d))

-- The text is the canonical print of an IPv4 address.
abbrev pub IsDotted : Text → Type 0
IsDotted t =
    (a : ℕ) × (b : ℕ) × (c : ℕ) × (d : ℕ) × (a ≤ 255)
    × (b ≤ 255)
    × (c ≤ 255)
    × (d ≤ 255)
    × (t ≡ dotted a b c d)

octet_of :
    (t : Text) → is_some (parse_decimal_octet t) ≡ true → (n : ℕ) × (t ≡ to_decimal n) × (n ≤ 255)
unfolding is_some
octet_of t h = elim (Option-cases (parse_decimal_octet t)) [
  | inl e ↦ cc (rw e at h)
  | inr (n, e) ↦ let p = parse→print t n e in (n, p.0, p.1)
]

and-inv : (a b : Bool) → (a && b) ≡ true → (a ≡ true) × (b ≡ true)
and-inv a b h = ground arith

dotted_eq :
    (p q r s : Text) (a b c d : ℕ)
    → p ≡ to_decimal a
    → q ≡ to_decimal b
    → r ≡ to_decimal c
    → s ≡ to_decimal d
    → p ++ b'.' ∷ (q ++ b'.' ∷ (r ++ b'.' ∷ s)) ≡ dotted a b c d
dotted_eq p q r s a b c d ea eb ec ed = rw (ea, eb, ec, ed)

parts-IsDotted :
    (t : Text) (parts : List Text)
    → join b'.' parts ≡ t
    → (length parts == 4) ≡ true
    → are_octets parts ≡ true
    → IsDotted t
unfolding join are_octets
parts-IsDotted t (p ∷ q ∷ r ∷ s ∷ []) j n h =
    let h1 = and-inv _ _ h in
    let h2 = and-inv _ _ h1.1 in
    let h3 = and-inv _ _ h2.1 in
    let h4 = and-inv _ _ h3.1 in
    let (a, ea, ba) = octet_of p h1.0 in
    let (b, eb, bb) = octet_of q h2.0 in
    let (c, ec, bc) = octet_of r h3.0 in
    let (d, ed, bd) = octet_of s h4.0 in
    (a, b, c, d, ba, bb, bc, bd, sym j ∙ dotted_eq p q r s a b c d ea eb ec ed)
parts-IsDotted t [] j n h = absurd (ground arith)
parts-IsDotted t (p ∷ []) j n h = absurd (ground arith)
parts-IsDotted t (p ∷ q ∷ []) j n h = absurd (ground arith)
parts-IsDotted t (p ∷ q ∷ r ∷ []) j n h = absurd (ground arith)
parts-IsDotted t (p ∷ q ∷ r ∷ s ∷ u ∷ parts) j n h = absurd (ground arith)

to_decimal-plain : (n : ℕ) → Lacks b'.' (to_decimal n)
to_decimal-plain n =
    AllBytes-mono IsDigit (λ d. d ≢ b'.') (to_decimal n) (λ c h. omega arith) (to_decimal-digits n)

split-dotted :
    (a b c d : ℕ)
    → split (dotted a b c d) b'.' ≡ to_decimal a ∷ to_decimal b ∷ to_decimal c ∷ to_decimal d ∷ []
unfolding split
split-dotted a b c d = simp (
  split_from-part b'.' [] (to_decimal a) _ (to_decimal-plain a),
  split_from-part b'.' [] (to_decimal b) _ (to_decimal-plain b),
  split_from-part b'.' [] (to_decimal c) _ (to_decimal-plain c),
  split_from-last b'.' [] (to_decimal d) (to_decimal-plain d),
)

-- isValidIpv4 accepts exactly the canonical dotted prints: four numbers up to 255 with no leading
-- zeros, joined by dots.
pub is_valid_ipv4_iff : (t : Text) → (is_valid_ipv4 t ≡ true) ↔ IsDotted t
unfolding is_valid_ipv4 split
is_valid_ipv4_iff t = (
  λ h. elim (Bool-cases (length (split t b'.') == 4)) [
    | inl n ↦ parts-IsDotted t (split t b'.') (join-split_from b'.' [] t) n (rw n at h)
    | inr n ↦ cc (rw n at h)
  ],
  λ (a, b, c, d, ba, bb, bc, bd, e). rw (
    e,
    split-dotted a b c d,
    print→parse a ba,
    print→parse b bb,
    print→parse c bc,
    print→parse d bd,
  ),
)
