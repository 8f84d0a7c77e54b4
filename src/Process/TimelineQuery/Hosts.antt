-- ===== src/Process/TimelineQuery/Hosts.antt =====
-- `hostFromEndpoint` of TimelineQuery.cpp against `formatEndpoint` of TimelineEventCollector.cpp.
use data_exfiltration_detect.Common.{
  ℕ, ◌+◌, ◌≡◌, refl, ◌≢◌, [], ◌∷◌, ◌++◌, Bool, true, none, some, arith, length, take, drop, ◌||◌,
  ℕ_discrete,
}
use data_exfiltration_detect.Common.Text.{
  Text, find_text, find_last_of, starts_with, contains_text, text_equal, to_decimal,
  to_decimal-digits, to_decimal-ne-nil, AllBytes, AllBytes-mono, Lacks, IsDigit,
}
use data_exfiltration_detect.Network.NetworkUtils.{is_digit, all_bytes}
use data_exfiltration_detect.Network.NetworkUtils.Addresses.{has_remote_port, is_valid_port}
use data_exfiltration_detect.Process.Types.{ProcessActivityEvent}
use data_exfiltration_detect.Process.TimelineEventCollector.{format_endpoint}
use data_exfiltration_detect.Process.TimelineQuery.{
  cut_port, cut_brackets, host_from_endpoint, matches_remote_destination,
}

find_last_of-Lacks : (c : ℕ) (b : Text) → Lacks c b → find_last_of c b ≡ none
unfolding find_last_of
find_last_of-Lacks c [] h = refl
find_last_of-Lacks c (d ∷ b) h = ground (arith, find_last_of-Lacks c b h.1)

find_last_of-last : (c : ℕ) (a b : Text) → Lacks c b → find_last_of c (a ++ c ∷ b) ≡ some (length a)
unfolding find_last_of
find_last_of-last c [] b h = ground (arith, find_last_of-Lacks c b h)
find_last_of-last c (d ∷ a) b h = ground (arith, find_last_of-last c a b h)

find_text-first :
    (c : ℕ) (a b : Text) → Lacks c a → find_text (c ∷ []) (a ++ c ∷ b) ≡ some (length a)
unfolding find_text starts_with
find_text-first c [] b h = ground arith
find_text-first c (d ∷ a) b h = ground (arith, find_text-first c a b h.1)

take-length : (a b : Text) → take (length a) (a ++ b) ≡ a
take-length [] b = refl
take-length (c ∷ a) b = rw (take-length a b) refl

drop-length : (c : ℕ) (a b : Text) → drop (length a + 1) (a ++ c ∷ b) ≡ b
drop-length c [] b = refl
drop-length c (d ∷ a) b = ground (arith, drop-length c a b)

all_bytes-IsDigit : (ds : Text) → AllBytes IsDigit ds → all_bytes is_digit ds ≡ true
unfolding all_bytes is_digit
all_bytes-IsDigit [] h = refl
all_bytes-IsDigit (d ∷ ds) h = ground (arith, all_bytes-IsDigit ds h.1)

cut_port-digits :
    (a : Text) (d : ℕ) (ds : Text)
    → AllBytes IsDigit (d ∷ ds)
    → cut_port (a ++ b':' ∷ d ∷ ds) (find_last_of b':' (a ++ b':' ∷ d ∷ ds)) ≡ a
unfolding cut_port
cut_port-digits a d ds h =
    rw
      (
        find_last_of-last b':' a (d ∷ ds)
            (AllBytes-mono IsDigit (λ x. x ≢ b':') (d ∷ ds) (λ c k. omega arith) h),
        cut_port,
        drop-length b':' a (d ∷ ds),
        all_bytes-IsDigit (d ∷ ds) h,
        take-length a (b':' ∷ d ∷ ds),
      )
      refl

host-digits :
    (h : ℕ) (host : Text) (d : ℕ) (ds : Text)
    → h ≢ b'['
    → AllBytes IsDigit (d ∷ ds)
    → host_from_endpoint (h ∷ host ++ b':' ∷ d ∷ ds) ≡ h ∷ host
unfolding host_from_endpoint
host-digits h host d ds plain digits = ground (arith, cut_port-digits (h ∷ host) d ds digits)

host-decimal :
    (h : ℕ) (host : Text) (port : ℕ)
    → h ≢ b'['
    → host_from_endpoint (h ∷ host ++ b':' ∷ to_decimal port) ≡ h ∷ host
host-decimal h host port plain =
    go (to_decimal port) (to_decimal-ne-nil port) (to_decimal-digits port)
  where
    go :
        (ds : Text)
        → ds ≢ []
        → AllBytes IsDigit ds
        → host_from_endpoint (h ∷ host ++ b':' ∷ ds) ≡ h ∷ host
    go [] full digits = absurd (full refl)
    go (d ∷ ds) full digits = host-digits h host d ds plain digits

-- Of an address that is not empty and does not begin with a bracket, written as an endpoint with
-- a port that is not 0, the query finds the address again.
pub host-format_endpoint :
    (h : ℕ) (host : Text) (port : ℕ)
    → h ≢ b'['
    → port ≢ 0
    → host_from_endpoint (format_endpoint (h ∷ host) port) ≡ h ∷ host
unfolding format_endpoint has_remote_port is_valid_port
host-format_endpoint h host port plain nonzero = ground (arith, host-decimal h host port plain)

find_text-bracket :
    (host rest : Text)
    → Lacks b']' host
    → find_text (b']' ∷ []) (b'[' ∷ host ++ b']' ∷ rest) ≡ some (length host + 1)
unfolding find_text starts_with
find_text-bracket host rest h = ground (arith, find_text-first b']' host rest h)

text_equal_refl : (a : Text) → text_equal a a ≡ true
unfolding text_equal
text_equal_refl a = ground arith

-- Of a bracketed literal the query finds what stands in the brackets, whatever follows them.
host-bracketed :
    (host rest : Text) → Lacks b']' host → host_from_endpoint (b'[' ∷ host ++ b']' ∷ rest) ≡ host
unfolding host_from_endpoint cut_brackets
host-bracketed host rest h =
    ground (arith, find_text-bracket host rest h, take-length host (b']' ∷ rest))

endpoint-bare : (h : ℕ) (host : Text) → format_endpoint (h ∷ host) 0 ≡ h ∷ host
unfolding format_endpoint has_remote_port is_valid_port
endpoint-bare h host = ground arith

endpoint-port :
    (h : ℕ) (host : Text) (port : ℕ)
    → port ≢ 0
    → format_endpoint (h ∷ host) port ≡ h ∷ host ++ b':' ∷ to_decimal port
unfolding format_endpoint has_remote_port is_valid_port
endpoint-port h host port nonzero = ground (arith, nonzero)

starts_with-append : (a b : Text) → starts_with a (a ++ b) ≡ true
unfolding starts_with
starts_with-append [] b = refl
starts_with-append (c ∷ a) b = ground (arith, starts_with-append a b)

contains_text-prefix : (h : ℕ) (a b : Text) → contains_text (h ∷ a) (h ∷ a ++ b) ≡ true
unfolding contains_text
contains_text-prefix h a b = ground (arith, starts_with-append (h ∷ a) b)

any_host : (a b c : Bool) → (a || true || b || c) ≡ true
any_host a b c = ground arith

-- An event whose remote endpoint was formatted of an address that is not empty and does not begin
-- with a bracket, and of a port other than 0, matches a query for that address with any port, or
-- with none.
pub matches_remote_destination-format_endpoint :
    (event : ProcessActivityEvent) (h : ℕ) (host : Text) (port port' : ℕ)
    → h ≢ b'['
    → port ≢ 0
    → event.remote_address ≡ format_endpoint (h ∷ host) port
    → matches_remote_destination event (format_endpoint (h ∷ host) port') ≡ true
unfolding matches_remote_destination
matches_remote_destination-format_endpoint event h host port port' plain nonzero address =
    elim (ℕ_discrete port' 0) [
      | yes p ↦
          rw
            (
              address,
              p,
              endpoint-bare h host,
              endpoint-port h host port nonzero,
              contains_text-prefix h host (b':' ∷ to_decimal port),
            )
            (ground arith)
      | no p ↦
          rw
            (
              address,
              host-format_endpoint h host port plain nonzero,
              host-format_endpoint h host port' plain p,
              text_equal_refl (h ∷ host),
            )
            (any_host _ _ _)
    ]

-- An event whose remote endpoint is a text that is not empty and does not begin with a bracket, a
-- colon and digits matches every query that differs from it in the digits after that colon only.
pub matches-digits :
    (event : ProcessActivityEvent) (h : ℕ) (host : Text) (d e : ℕ) (ds es : Text)
    → h ≢ b'['
    → AllBytes IsDigit (d ∷ ds)
    → AllBytes IsDigit (e ∷ es)
    → event.remote_address ≡ h ∷ host ++ b':' ∷ d ∷ ds
    → matches_remote_destination event (h ∷ host ++ b':' ∷ e ∷ es) ≡ true
unfolding matches_remote_destination
matches-digits event h host d e ds es plain digits other address =
    rw
      (
        address,
        host-digits h host d ds plain digits,
        host-digits h host e es plain other,
        text_equal_refl (h ∷ host),
      )
      (any_host _ _ _)
