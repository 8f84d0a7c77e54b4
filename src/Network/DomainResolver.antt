-- ===== src/Network/DomainResolver.antt =====
-- src/network/intelligence/DomainResolver.h and .cpp, with the records of
-- src/network/models/RemoteEndpoint.h and ResolvedEndpoint.h. The lookup function is an argument,
-- as it is a constructor argument of the class; the two readings of the clock that a `resolve` can
-- make are arguments too.
pub mod Laws
pub mod Caching
pub mod SystemLookup
mod Tests
use data_exfiltration_detect.Common.{
  ℕ, List, [], ◌∷◌, ◌≡◌, Bool, true, false, ◌&&◌, not, Option, none, some, if◌then◌else◌, is_empty,
}
use data_exfiltration_detect.Common.Text.{Text, text_equal}
use data_exfiltration_detect.Network.Types.{AddressFamily, ProtocolType}
use data_exfiltration_detect.Network.NetworkUtils.Addresses.{
  is_valid_ip_address, detect_address_family,
}
use data_exfiltration_detect.Network.DnsCache.{DnsCache, DnsCacheEntry, get, put, invalidate}

pub record RemoteEndpoint : Type 0 where
  pub process_id : ℕ
  pub process_name : Text
  pub protocol : ProtocolType
  pub local_ip : Text
  pub local_port : ℕ
  pub remote_ip : Text
  pub remote_port : ℕ
  pub address_family : AddressFamily
  pub timestamp : ℕ

pub data ResolutionStatus : Type 0 where
  resolved not_found failed invalid_ip cached : ResolutionStatus

pub record ResolvedEndpoint : Type 0 where
  pub process_id : ℕ
  pub process_name : Text
  pub remote_ip : Text
  pub resolved_domain : Text
  pub address_family : AddressFamily
  pub resolution_status : ResolutionStatus
  pub cache_hit : Bool
  pub timestamp : ℕ

pub data LookupResult : Type 0 where
  success not_found failed : LookupResult

-- What a call of the lookup function does: it returns its result and the hostname that it wrote, or
-- it throws.
pub data LookupOutcome : Type 0 where
  returns : LookupResult → Text → LookupOutcome
  throws : LookupOutcome

abbrev pub LookupFn : Type 0
LookupFn = Text → LookupOutcome

-- When the cache was read, and when the answer was stored.
pub record Times : Type 0 where
  pub asked : ℕ
  pub answered : ℕ

unfoldable pub build_result : RemoteEndpoint → Text → ResolutionStatus → Bool → ResolvedEndpoint
build_result endpoint hostname status cache_hit = record {
  process_id = endpoint.process_id;
  process_name = endpoint.process_name;
  remote_ip = endpoint.remote_ip;
  resolved_domain = hostname;
  address_family = endpoint.address_family;
  resolution_status = status;
  cache_hit = cache_hit;
  timestamp = endpoint.timestamp;
}

-- The endpoint with its address family detected if it was unknown.
unfoldable pub normalize : RemoteEndpoint → RemoteEndpoint
normalize endpoint = elim endpoint.address_family [
  | AddressFamily.unknown ↦ record endpoint {
    address_family = detect_address_family endpoint.remote_ip;
  }
  | _ ↦ endpoint
]

is_success : LookupResult → Bool
is_success LookupResult.success = true
is_success _ = false

-- The status of an answer without a usable hostname.
failure_status : LookupResult → ResolutionStatus
failure_status LookupResult.failed = ResolutionStatus.failed
failure_status _ = ResolutionStatus.not_found

-- From the answer of the lookup function on: the answer is stored and reported.
unfoldable pub store_answer :
    DnsCache → ℕ → RemoteEndpoint → LookupOutcome → DnsCache × ResolvedEndpoint
unfolding build_result is_success failure_status
store_answer cache answered endpoint throws = (
  put cache answered endpoint.remote_ip [],
  build_result endpoint [] ResolutionStatus.failed false,
)
store_answer cache answered endpoint (returns result hostname) =
    if is_success result && not (is_empty hostname) && not (text_equal hostname endpoint.remote_ip)
    then (
      put cache answered endpoint.remote_ip hostname,
      build_result endpoint hostname ResolutionStatus.resolved false,
    )
    else (
      put cache answered endpoint.remote_ip [],
      build_result endpoint [] (failure_status result) false,
    )

-- The report of an entry that the cache has.
unfoldable pub report_hit : RemoteEndpoint → DnsCacheEntry → ResolvedEndpoint
unfolding build_result
report_hit endpoint entry =
    build_result endpoint entry.hostname
      (if is_empty entry.hostname then ResolutionStatus.not_found else ResolutionStatus.cached) true

unfoldable pub resolve :
    LookupFn → Times → DnsCache → RemoteEndpoint → Bool → DnsCache × ResolvedEndpoint
resolve lookup times cache endpoint force_refresh =
    let normalized = normalize endpoint in
    let answer = lookup endpoint.remote_ip in
    if not (is_valid_ip_address endpoint.remote_ip)
    then (cache, build_result endpoint [] ResolutionStatus.invalid_ip false)
    else if force_refresh
    then store_answer (invalidate cache endpoint.remote_ip) times.answered normalized answer
    else (elim (get cache times.asked endpoint.remote_ip) [
      | some entry ↦ (cache, report_hit normalized entry)
      | none ↦ store_answer cache times.answered normalized answer
    ])

-- The endpoints of a batch, each with the times of its own `resolve`.
unfoldable pub resolve_all :
    LookupFn → DnsCache → List (Times × RemoteEndpoint) → Bool → DnsCache × List ResolvedEndpoint
resolve_all lookup cache [] force_refresh = (cache, [])
resolve_all lookup cache ((times, endpoint) ∷ endpoints) force_refresh =
    let (after, result) = resolve lookup times cache endpoint force_refresh in
    let (last, results) = resolve_all lookup after endpoints force_refresh in
    (last, result ∷ results)

-- `resolveIp`: an endpoint of an address alone, stamped with the time of the call.
unfoldable pub resolve_ip :
    LookupFn → Times → ℕ → DnsCache → Text → AddressFamily → Bool → DnsCache × ResolvedEndpoint
resolve_ip lookup times now cache remote_ip address_family force_refresh =
    resolve lookup times cache
      (normalize (record {
        process_id = 0;
        process_name = [];
        protocol = ProtocolType.unknown;
        local_ip = [];
        local_port = 0;
        remote_ip = remote_ip;
        remote_port = 0;
        address_family = address_family;
        timestamp = now;
      }))
      force_refresh

unfoldable pub refresh : DnsCache → Text → DnsCache
refresh cache remote_ip = invalidate cache remote_ip
