-- ===== src/Network/DomainResolver/Laws.antt =====
-- DomainResolver.cpp: what a report says, and how the cache bears on the next one.
use data_exfiltration_detect.Common.{
  ℕ, ◌≡◌, ◌≢◌, ◌↔◌, ◌⊎◌, inl, inr, [], Bool, true, false, none, some, arith, Option-cases,
  Bool-cases,
}
use data_exfiltration_detect.Network.NetworkUtils.Addresses.{is_valid_ip_address}
use data_exfiltration_detect.Network.DnsCache.{DnsCache, DnsCacheEntry, get, invalidate}
use data_exfiltration_detect.Network.DomainResolver.{
  RemoteEndpoint, ResolutionStatus, ResolvedEndpoint, LookupResult, LookupOutcome, LookupFn, Times,
  returns, throws, build_result, normalize, store_answer, report_hit, resolve,
}

pub normalize-remote_ip : (e : RemoteEndpoint) → (normalize e).remote_ip ≡ e.remote_ip
unfolding normalize
normalize-remote_ip e = ground arith

-- A report names a domain exactly when its status is RESOLVED or CACHED, is a cache hit if it is
-- CACHED, and is none if it is RESOLVED, FAILED or INVALID_IP.
pub record IsConsistent (r : ResolvedEndpoint) : Type 0 where
  pub named : (r.resolved_domain ≢ []) ↔ (
      (r.resolution_status ≡ ResolutionStatus.resolved)
      ⊎ (r.resolution_status ≡ ResolutionStatus.cached))
  pub hit : r.resolution_status ≡ ResolutionStatus.cached → r.cache_hit ≡ true
  pub looked_up : r.resolution_status ≡ ResolutionStatus.resolved → r.cache_hit ≡ false
  pub failed_lookup : r.resolution_status ≡ ResolutionStatus.failed → r.cache_hit ≡ false
  pub refused : r.resolution_status ≡ ResolutionStatus.invalid_ip → r.cache_hit ≡ false

store_answer-IsConsistent :
    (cache : DnsCache) (answered : ℕ) (e : RemoteEndpoint) (answer : LookupOutcome)
    → IsConsistent (store_answer cache answered e answer).1
unfolding store_answer
store_answer-IsConsistent cache answered e throws = ground arith
store_answer-IsConsistent cache answered e (returns LookupResult.success hostname) = ground arith
store_answer-IsConsistent cache answered e (returns LookupResult.not_found hostname) = ground arith
store_answer-IsConsistent cache answered e (returns LookupResult.failed hostname) = ground arith

report_hit-IsConsistent :
    (e : RemoteEndpoint) (entry : DnsCacheEntry) → IsConsistent (report_hit e entry)
unfolding report_hit
report_hit-IsConsistent e entry = ground arith

-- The four ways through `resolve`.
pub resolve_cases {ℓ} :
    (P : DnsCache × ResolvedEndpoint → Type ℓ) (lookup : LookupFn) (times : Times)
    (cache : DnsCache) (e : RemoteEndpoint) (force : Bool)
    → (is_valid_ip_address e.remote_ip ≡ false
        → P (cache, build_result e [] ResolutionStatus.invalid_ip false))
    → (is_valid_ip_address e.remote_ip ≡ true
        → force ≡ true
        → P (
            store_answer
              (invalidate cache e.remote_ip)
              times.answered
              (normalize e)
              (lookup e.remote_ip)))
    → (is_valid_ip_address e.remote_ip ≡ true
        → force ≡ false
        → get cache times.asked e.remote_ip ≡ none
        → P (store_answer cache times.answered (normalize e) (lookup e.remote_ip)))
    → ((entry : DnsCacheEntry)
        → is_valid_ip_address e.remote_ip ≡ true
        → force ≡ false
        → get cache times.asked e.remote_ip ≡ some entry
        → P (cache, report_hit (normalize e) entry))
    → P (resolve lookup times cache e force)
unfolding resolve
resolve_cases P lookup times cache e force bad forced miss hit =
    elim (Bool-cases (is_valid_ip_address e.remote_ip)) [
      | inr v ↦ rw v (bad v)
      | inl v ↦ elim (Bool-cases force) [
        | inl f ↦ rw (v, f) (forced v f)
        | inr f ↦ elim (Option-cases (get cache times.asked e.remote_ip)) [
          | inl g ↦ rw (v, f, g, resolve) (miss v f g)
          | inr (entry, g) ↦ rw (v, f, g, resolve) (hit entry v f g)
        ]
      ]
    ]

-- Whatever the cache holds and however the lookup function answers, a report names a domain
-- exactly when its status is RESOLVED or CACHED, is a cache hit if it is CACHED, and is none if
-- it is RESOLVED, FAILED or INVALID_IP.
pub resolve-IsConsistent :
    (lookup : LookupFn) (times : Times) (cache : DnsCache) (e : RemoteEndpoint) (force : Bool)
    → IsConsistent (resolve lookup times cache e force).1
unfolding build_result
resolve-IsConsistent lookup times cache e force =
    resolve_cases (λ r. IsConsistent r.1) lookup times cache e force (λ _. ground arith)
      (λ _ _. store_answer-IsConsistent _ times.answered (normalize e) (lookup e.remote_ip))
      (λ _ _ _. store_answer-IsConsistent cache times.answered (normalize e) (lookup e.remote_ip))
      (λ entry _ _ _. report_hit-IsConsistent (normalize e) entry)
