-- ===== src/Network/DomainResolver/Tests.antt =====
-- A resolver whose lookup function answers once and then throws, and the other way round.
use data_exfiltration_detect.Common.{◌≡◌, ◌⊎◌, refl, inl, [], true, false, none, some, arith}
use data_exfiltration_detect.Common.Text.{Text, codes}
use data_exfiltration_detect.Network.Types.{AddressFamily, ProtocolType}
use data_exfiltration_detect.Network.NetworkUtils.Addresses.{is_valid_ip_address}
use data_exfiltration_detect.Network.DnsCache.{initial, get, clear}
use data_exfiltration_detect.Network.DomainResolver.{
  RemoteEndpoint, ResolutionStatus, LookupResult, LookupFn, Times, returns, throws, resolve,
}
use data_exfiltration_detect.Network.DomainResolver.Laws.{IsConsistent, resolve-IsConsistent}
use data_exfiltration_detect.Network.DomainResolver.Caching.{resolve_again, resolve_forgets_failure}
use data_exfiltration_detect.Network.DomainResolver.SystemLookup.{
  NameService, default_reverse_lookup, IsAnswerFor, default_reverse_lookup-IsAnswerFor,
}

abbrev endpoint : RemoteEndpoint
endpoint = record {
  process_id = 7;
  process_name = codes "curl";
  protocol = ProtocolType.tcp;
  local_ip = codes "10.0.0.5";
  local_port = 50000;
  remote_ip = codes "1.1.1.1";
  remote_port = 443;
  address_family = AddressFamily.ipv4;
  timestamp = 900;
}

abbrev answers : LookupFn
answers ip = returns LookupResult.success (codes "one.one")

abbrev breaks : LookupFn
breaks ip = throws

abbrev first_times : Times
first_times = record { asked = 1000; answered = 1001 }

abbrev later_times : Times
later_times = record { asked = 1100; answered = 1101 }

address-valid : is_valid_ip_address endpoint.remote_ip ≡ true
unfolding is_valid_ip_address
address-valid = refl

nothing_cached : get (initial 300) 1000 endpoint.remote_ip ≡ none
unfolding get
nothing_cached = refl

resolve-IsConsistent_example :
    IsConsistent (resolve answers first_times (initial 300) endpoint false).1
resolve-IsConsistent_example = resolve-IsConsistent answers first_times (initial 300) endpoint false

resolve_again_example :
    let r = resolve answers first_times (initial 300) endpoint true in
    let again = resolve breaks later_times r.0 endpoint false in
    ((again.0 ≡ r.0) × (again.1.resolved_domain ≡ r.1.resolved_domain) × (again.1.cache_hit ≡ true))
    × ((resolve breaks later_times r.0 endpoint true).1
        ≡ (resolve breaks later_times (clear r.0) endpoint false).1)
resolve_again_example =
    resolve_again answers breaks first_times later_times (initial 300) endpoint true address-valid
      (inl refl) (omega arith)

resolve_forgets_failure_example :
    let r = resolve breaks first_times (initial 300) endpoint true in
    (r.1.resolution_status ≡ ResolutionStatus.failed)
    × ((resolve answers later_times r.0 endpoint false).1.resolution_status
        ≡ ResolutionStatus.not_found)
    × ((resolve answers later_times r.0 endpoint true).1
        ≡ (resolve answers later_times (clear r.0) endpoint false).1)
resolve_forgets_failure_example =
    resolve_forgets_failure breaks answers first_times later_times (initial 300) endpoint true
      address-valid (inl refl) (omega arith) (inl refl)

abbrev service : NameService Text
service = record {
  inet_pton4 = λ ip. some ip;
  inet_pton6 = λ ip. none;
  getnameinfo = λ address. (0, codes "one.one");
  eai_noname = 8;
  eai_nodata = none;
}

default_reverse_lookup-IsAnswerFor_example :
    IsAnswerFor endpoint.remote_ip (default_reverse_lookup service endpoint.remote_ip)
    × ((is_valid_ip_address endpoint.remote_ip ≡ true)
        ⊎ (default_reverse_lookup service endpoint.remote_ip ≡ returns LookupResult.failed []))
default_reverse_lookup-IsAnswerFor_example =
    default_reverse_lookup-IsAnswerFor service endpoint.remote_ip
