-- ===== src/Network/RemoteEndpointIdentifier/Laws.antt =====
-- RemoteEndpointIdentifier.cpp: which connections give an endpoint, and that the resolver takes it.
use mathlib.Core.List.{Mem, not-mem-nil, eq-or-mem_of_mem-cons}
use mathlib.Core.Logic.Or
use data_exfiltration_detect.Common.{
  ℕ, ◌≡◌, ◌≢◌, inl, inr, List, [], ◌∷◌, Bool, true, false, Option, none, some, arith, Bool-cases,
  Option-cases, subst, ap,
}
use data_exfiltration_detect.Common.Text.{Text}
use data_exfiltration_detect.Network.Types.{Connection}
use data_exfiltration_detect.Network.NetworkUtils.Addresses.{
  is_valid_ip_address, is_unspecified, has_remote_endpoint,
}
use data_exfiltration_detect.Network.DnsCache.{DnsCache, DnsCacheEntry}
use data_exfiltration_detect.Network.DomainResolver.{
  RemoteEndpoint, LookupFn, LookupOutcome, LookupResult, returns, throws, Times, ResolutionStatus,
  ResolvedEndpoint, build_result, normalize, report_hit, store_answer, resolve,
}
use data_exfiltration_detect.Network.DomainResolver.Laws.{resolve_cases}
use data_exfiltration_detect.Network.RemoteEndpointIdentifier.{try_identify, identify}

-- The address of an endpoint that can stand for a peer: valid, and not the address of no host.
abbrev IsAddress : Text → Type 0
IsAddress ip = (is_valid_ip_address ip ≡ true) × (is_unspecified ip ≡ false)

has_remote_endpoint-IsAddress : (ip : Text) → has_remote_endpoint ip ≡ true → IsAddress ip
unfolding has_remote_endpoint
has_remote_endpoint-IsAddress ip h = elim (Bool-cases (is_unspecified ip)) [
  | inl u ↦ cc (rw u at h)
  | inr u ↦ (rw u at h, u)
]

ip_of : Option RemoteEndpoint → Text
ip_of none = []
ip_of (some e) = e.remote_ip

try_identify-IsAddress :
    (c : Connection) (name : Text) (e : RemoteEndpoint)
    → try_identify c name ≡ some e
    → IsAddress e.remote_ip
unfolding try_identify ip_of
try_identify-IsAddress c name e h = elim (Bool-cases (has_remote_endpoint c.remote_address)) [
  | inr lacking ↦ cc (rw (lacking, try_identify) at h)
  | inl reachable ↦
      let address = has_remote_endpoint-IsAddress c.remote_address reachable in
      subst IsAddress (ap ip_of (rw (reachable, address.0, try_identify) at h)) address
]

-- x
identify-IsAddress :
    (connections : List Connection) (e : RemoteEndpoint)
    → Mem e (identify connections)
    → IsAddress e.remote_ip
unfolding identify
identify-IsAddress [] e h = absurd (not-mem-nil h)
identify-IsAddress (c ∷ connections) e h = elim (Option-cases (try_identify c [])) [
  | inl gone ↦ identify-IsAddress connections e (rw (gone, identify) at h)
  | inr (x, found) ↦
      Or.elim both_prop (eq-or-mem_of_mem-cons (rw (found, identify) at h))
        (λ p. rw p (try_identify-IsAddress c [] x found)) (identify-IsAddress connections e)
]
  where
    both_prop : {a b : Bool} → IsProp ((a ≡ true) × (b ≡ false))
    both_prop = hlevel

-- The status of a report is not INVALID_IP.
abbrev Accepted : ResolvedEndpoint → Type 0
Accepted r = r.resolution_status ≢ ResolutionStatus.invalid_ip

store_answer-Accepted :
    (cache : DnsCache) (answered : ℕ) (e : RemoteEndpoint) (answer : LookupOutcome)
    → Accepted (store_answer cache answered e answer).1
unfolding store_answer build_result
store_answer-Accepted cache answered e throws = ground arith
store_answer-Accepted cache answered e (returns LookupResult.success hostname) = ground arith
store_answer-Accepted cache answered e (returns LookupResult.not_found hostname) = ground arith
store_answer-Accepted cache answered e (returns LookupResult.failed hostname) = ground arith

report_hit-Accepted : (e : RemoteEndpoint) (entry : DnsCacheEntry) → Accepted (report_hit e entry)
unfolding report_hit build_result
report_hit-Accepted e entry = ground arith

resolve-Accepted :
    (lookup : LookupFn) (times : Times) (cache : DnsCache) (e : RemoteEndpoint) (force : Bool)
    → is_valid_ip_address e.remote_ip ≡ true
    → Accepted (resolve lookup times cache e force).1
resolve-Accepted lookup times cache e force valid =
    resolve_cases (λ r. Accepted r.1) lookup times cache e force (λ refused. cc)
      (λ _ _. store_answer-Accepted _ times.answered (normalize e) (lookup e.remote_ip))
      (λ _ _ _. store_answer-Accepted cache times.answered (normalize e) (lookup e.remote_ip))
      (λ entry _ _ _. report_hit-Accepted (normalize e) entry)

-- The resolver never refuses an endpoint that was identified from connections as INVALID_IP,
-- whatever the cache holds and however the lookup function answers.
pub resolve-identify :
    (lookup : LookupFn) (times : Times) (cache : DnsCache) (connections : List Connection)
    (e : RemoteEndpoint) (force : Bool)
    → Mem e (identify connections)
    → (resolve lookup times cache e force).1.resolution_status ≢ ResolutionStatus.invalid_ip
resolve-identify lookup times cache connections e force h =
    resolve-Accepted lookup times cache e force (identify-IsAddress connections e h).0
