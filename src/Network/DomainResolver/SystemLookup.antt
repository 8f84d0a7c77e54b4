-- ===== src/Network/DomainResolver/SystemLookup.antt =====
-- DomainResolver.cpp, `defaultReverseLookup`: the lookup function that asks the operating system. Its
-- calls (inet_pton, getnameinfo) and error codes are an argument, a record `NameService`.
use data_exfiltration_detect.Common.{
  ℕ, ◌≡◌, ◌≢◌, refl, [], ◌∷◌, Bool, true, false, not, ◌||◌, Option, none, some, inl, inr, ◌==◌,
  if◌then◌else◌, is_empty, Bool-cases, arith, ◌⊎◌,
}
use data_exfiltration_detect.Common.Text.{Text, text_equal}
use data_exfiltration_detect.Network.NetworkUtils.{is_valid_ipv4}
use data_exfiltration_detect.Network.NetworkUtils.Ipv6.{is_valid_ipv6}
use data_exfiltration_detect.Network.NetworkUtils.Addresses.{is_valid_ip_address}
use data_exfiltration_detect.Network.DomainResolver.{
  LookupResult, LookupOutcome, LookupFn, returns, throws,
}

-- The socket address that `inet_pton` fills for a text, if it accepts it; the return code and the
-- host that `getnameinfo` gives for a socket address; and the codes for a missing name, the second
-- of which a system may lack.
pub record NameService (Address : Type 0) : Type 0 where
  pub inet_pton4 : Text → Option Address
  pub inet_pton6 : Text → Option Address
  pub getnameinfo : Address → ℕ × Text
  pub eai_noname : ℕ
  pub eai_nodata : Option ℕ

module _ {Address : Type 0} (service : NameService Address) where
  -- `rc == EAI_NONAME || rc == EAI_NODATA`.
  unfoldable pub is_missing_name : ℕ → Bool
  is_missing_name rc =
      (rc == service.eai_noname)
      || (elim service.eai_nodata [ none ↦ false | some code ↦ rc == code ])

  -- From the call of `getnameinfo` on.
  unfoldable pub name_of_address : Text → Address → LookupOutcome
  unfolding is_missing_name text_equal
  name_of_address ip address =
      let (rc, host) = service.getnameinfo address in
      if not (rc == 0)
      then (if is_missing_name rc
          then returns LookupResult.not_found []
          else returns LookupResult.failed [])
      else if is_empty host || text_equal host ip
      then returns LookupResult.not_found []
      else returns LookupResult.success host

  -- A text that `inet_pton` refuses fails.
  unfoldable pub name_of_filled : Text → Option Address → LookupOutcome
  unfolding name_of_address
  name_of_filled ip none = returns LookupResult.failed []
  name_of_filled ip (some address) = name_of_address ip address

  unfoldable pub default_reverse_lookup : LookupFn
  unfolding name_of_filled is_valid_ipv4 is_valid_ipv6
  default_reverse_lookup ip =
      if is_valid_ipv4 ip
      then name_of_filled ip (service.inet_pton4 ip)
      else if is_valid_ipv6 ip
      then name_of_filled ip (service.inet_pton6 ip)
      else returns LookupResult.failed []

  -- The constructor's `lookup ? lookup : defaultReverseLookup`.
  unfoldable pub chosen_lookup : Option LookupFn → LookupFn
  unfolding default_reverse_lookup
  chosen_lookup none = default_reverse_lookup
  chosen_lookup (some lookup) = lookup

-- What a caller may rely on: the lookup never throws, a success has a name that is neither empty nor
-- the address, and any other answer has none.
abbrev pub IsAnswerFor : Text → LookupOutcome → Type 0
IsAnswerFor ip throws = ⊥
IsAnswerFor ip (returns LookupResult.success host) = (host ≢ []) × (host ≢ ip)
IsAnswerFor ip (returns LookupResult.not_found host) = host ≡ []
IsAnswerFor ip (returns LookupResult.failed host) = host ≡ []

branches :
    (ip host : Text) (failed missing unusable : Bool)
    → (unusable ≡ false → (host ≢ []) × (host ≢ ip))
    → IsAnswerFor ip (
        if failed
        then (if missing then returns LookupResult.not_found [] else returns LookupResult.failed [])
        else if unusable
        then returns LookupResult.not_found []
        else returns LookupResult.success host)
branches ip host true true unusable h = refl
branches ip host true false unusable h = refl
branches ip host false missing true h = refl
branches ip host false missing false h = h refl

usable :
    (host ip : Text) → (is_empty host || text_equal host ip) ≡ false → (host ≢ []) × (host ≢ ip)
unfolding text_equal
usable [] ip h = cc
usable (c ∷ host) ip h = (λ e. cc, λ e. ground (arith, h, e))

module _ {Address : Type 0} (service : NameService Address) where
  name_of_address-IsAnswerFor :
      (ip : Text) (address : Address) → IsAnswerFor ip (name_of_address service ip address)
  unfolding name_of_address
  name_of_address-IsAnswerFor ip address =
      let host = (service.getnameinfo address).1 in
      branches ip host _ _ (is_empty host || text_equal host ip) (usable host ip)

  name_of_filled-IsAnswerFor :
      (ip : Text) (filled : Option Address) → IsAnswerFor ip (name_of_filled service ip filled)
  unfolding name_of_filled
  name_of_filled-IsAnswerFor ip none = refl
  name_of_filled-IsAnswerFor ip (some address) = name_of_address-IsAnswerFor ip address

  -- Whatever the operating system answers, the default lookup returns: a success has a name that
  -- is neither empty nor the address itself, every other result has none, and a text that is no
  -- address fails.
  pub default_reverse_lookup-IsAnswerFor :
      (ip : Text)
      → IsAnswerFor ip (default_reverse_lookup service ip)
        × ((is_valid_ip_address ip ≡ true)
            ⊎ (default_reverse_lookup service ip ≡ returns LookupResult.failed []))
  unfolding default_reverse_lookup is_valid_ip_address
  default_reverse_lookup-IsAnswerFor ip = elim (Bool-cases (is_valid_ipv4 ip)) [
    | inl e ↦ rw e (name_of_filled-IsAnswerFor ip (service.inet_pton4 ip), inl refl)
    | inr e ↦ elim (Bool-cases (is_valid_ipv6 ip)) [
      | inl g ↦ rw (e, g) (name_of_filled-IsAnswerFor ip (service.inet_pton6 ip), inl refl)
      | inr g ↦ rw (e, g) (refl, inr refl)
    ]
  ]
