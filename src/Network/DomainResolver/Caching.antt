-- ===== src/Network/DomainResolver/Caching.antt =====
-- DomainResolver.cpp: how the cache bears on the next resolution.
use data_exfiltration_detect.Common.{
  ℕ, ◌+◌, ◌<◌, ◌≡◌, refl, sym, ◌≢◌, ◌⊎◌, inl, inr, [], Bool, true, false, none, some, arith, if_pos,
  if_neg, ◌∙◌, ap, if◌then◌else◌,
}
use data_exfiltration_detect.Common.Text.{Text, text_discrete}
use data_exfiltration_detect.Network.NetworkUtils.Addresses.{is_valid_ip_address}
use data_exfiltration_detect.Network.DnsCache.{
  DnsCache, DnsCacheEntry, get, put, invalidate, clear, new_entry,
}
use data_exfiltration_detect.Network.DnsCache.Laws.{get-put, get-invalidate}
use data_exfiltration_detect.Network.DnsCache.Refinement.{get-clear}
use data_exfiltration_detect.Network.DomainResolver.{
  RemoteEndpoint, ResolutionStatus, LookupResult, LookupOutcome, LookupFn, Times, returns, throws,
  build_result, normalize, store_answer, report_hit, resolve, refresh,
}
use data_exfiltration_detect.Network.DomainResolver.Laws.{normalize-remote_ip, resolve_cases}

-- What `store_answer` leaves in the cache is the domain that it reports.
store_answer-put :
    (cache : DnsCache) (answered : ℕ) (e : RemoteEndpoint) (answer : LookupOutcome)
    → let r = store_answer cache answered e answer in
      r.0 ≡ put cache answered e.remote_ip r.1.resolved_domain
unfolding store_answer
store_answer-put cache answered e throws = refl
store_answer-put cache answered e (returns result hostname) = ground arith

get-store_answer :
    (cache : DnsCache) (answered later : ℕ) (e : RemoteEndpoint) (answer : LookupOutcome)
    → later < answered + cache.ttl
    → let r = store_answer cache answered e answer in
      get r.0 later e.remote_ip ≡ some (new_entry cache answered r.1.resolved_domain)
get-store_answer cache answered later e answer h =
    let domain = (store_answer cache answered e answer).1.resolved_domain in
    ap (λ c. get c later e.remote_ip) (store_answer-put cache answered e answer)
    ∙ get-put cache answered later e.remote_ip domain e.remote_ip
    ∙ if_pos (text_discrete e.remote_ip e.remote_ip) refl _ _
    ∙ ground arith

-- A report that reads the cache again: of an entry that is there.
resolve_hit :
    (lookup : LookupFn) (times : Times) (cache : DnsCache) (e : RemoteEndpoint)
    (entry : DnsCacheEntry)
    → is_valid_ip_address e.remote_ip ≡ true
    → get cache times.asked e.remote_ip ≡ some entry
    → resolve lookup times cache e false ≡ (cache, report_hit (normalize e) entry)
unfolding resolve
resolve_hit lookup times cache e entry v g = rw (v, g, resolve)

-- A forced resolution of a valid address is the resolution after its entry was dropped.
pub resolve-refresh :
    (lookup : LookupFn) (times : Times) (cache : DnsCache) (e : RemoteEndpoint)
    → is_valid_ip_address e.remote_ip ≡ true
    → resolve lookup times cache e true ≡ resolve lookup times (refresh cache e.remote_ip) e false
unfolding resolve refresh
resolve-refresh lookup times cache e v =
    let gone : get (invalidate cache e.remote_ip) times.asked e.remote_ip ≡ none =
      get-invalidate cache times.asked e.remote_ip e.remote_ip
      ∙ if_pos (text_discrete e.remote_ip e.remote_ip) refl _ _ in
    rw (v, gone, resolve)

-- The lookup function was asked: by force, or since the cache had nothing.
abbrev Asks : DnsCache → Times → RemoteEndpoint → Bool → Type 0
Asks cache times e force = (force ≡ true) ⊎ (get cache times.asked e.remote_ip ≡ none)

resolve-Asks :
    (lookup : LookupFn) (times : Times) (cache : DnsCache) (e : RemoteEndpoint) (force : Bool)
    → is_valid_ip_address e.remote_ip ≡ true
    → Asks cache times e force
    → resolve lookup times cache e force
      ≡ store_answer
          (if force then invalidate cache e.remote_ip else cache)
          times.answered
          (normalize e)
          (lookup e.remote_ip)
unfolding resolve
resolve-Asks lookup times cache e true v asks = rw v
resolve-Asks lookup times cache e false v (inl f) = cc
resolve-Asks lookup times cache e false v (inr g) = rw (v, g, resolve)

invalidate-ttl :
    (cache : DnsCache) (ip : Text) (force : Bool)
    → (if force then invalidate cache ip else cache).ttl ≡ cache.ttl
unfolding invalidate
invalidate-ttl cache ip true = refl
invalidate-ttl cache ip false = refl

get-resolve :
    (lookup : LookupFn) (times : Times) (cache : DnsCache) (e : RemoteEndpoint) (force : Bool)
    (later : ℕ)
    → is_valid_ip_address e.remote_ip ≡ true
    → Asks cache times e force
    → later < times.answered + cache.ttl
    → let r = resolve lookup times cache e force in
      (entry : DnsCacheEntry) × (get r.0 later e.remote_ip ≡ some entry)
      × (entry.hostname ≡ r.1.resolved_domain)
unfolding normalize
get-resolve lookup times cache e force later v asks h =
    let c = (if force then invalidate cache e.remote_ip else cache) in
    let answer = lookup e.remote_ip in
    let stored = store_answer c times.answered (normalize e) answer in
    let read =
      get-store_answer c times.answered later (normalize e) answer
        (rw (invalidate-ttl cache e.remote_ip force) h) in
    rw (resolve-Asks lookup times cache e force v asks) (
      new_entry c times.answered stored.1.resolved_domain,
      rw (normalize-remote_ip e) at read,
      refl,
    )

-- A report of an answer does not depend on what the cache holds.
store_answer-report :
    (cache other : DnsCache) (answered : ℕ) (e : RemoteEndpoint) (answer : LookupOutcome)
    → (store_answer cache answered e answer).1 ≡ (store_answer other answered e answer).1
unfolding store_answer
store_answer-report cache other answered e throws = refl
store_answer-report cache other answered e (returns result hostname) = ground arith

-- A forced resolution of a valid address reports what one does that finds the cache empty.
report-forced :
    (lookup : LookupFn) (times : Times) (cache : DnsCache) (e : RemoteEndpoint)
    → is_valid_ip_address e.remote_ip ≡ true
    → (resolve lookup times cache e true).1 ≡ (resolve lookup times (clear cache) e false).1
report-forced lookup times cache e v =
    ap (λ r. r.1) (resolve-Asks lookup times cache e true v (inl refl))
    ∙ store_answer-report _ (clear cache) times.answered (normalize e) (lookup e.remote_ip)
    ∙ sym (
        ap (λ r. r.1)
          (resolve-Asks lookup times (clear cache) e false v
            (inr (get-clear cache times.asked e.remote_ip))))

-- After a resolution of a valid address that asked the lookup function, every later resolution
-- within the time to live that is not forced leaves the cache as it is, reports the same domain
-- and is a cache hit, whichever the lookup function then is; a forced one reports what a
-- resolution over an empty cache would.
pub resolve_again :
    (lookup lookup' : LookupFn) (times times' : Times) (cache : DnsCache) (e : RemoteEndpoint)
    (force : Bool)
    → is_valid_ip_address e.remote_ip ≡ true
    → Asks cache times e force
    → times'.asked < times.answered + cache.ttl
    → let r = resolve lookup times cache e force in
      let again = resolve lookup' times' r.0 e false in
      ((again.0 ≡ r.0)
        × (again.1.resolved_domain ≡ r.1.resolved_domain)
        × (again.1.cache_hit ≡ true))
      × ((resolve lookup' times' r.0 e true).1 ≡ (resolve lookup' times' (clear r.0) e false).1)
unfolding report_hit build_result
resolve_again lookup lookup' times times' cache e force v asks h =
    let (entry, found, name) = get-resolve lookup times cache e force times'.asked v asks h in
    let after = (resolve lookup times cache e force).0 in
    (
      rw (resolve_hit lookup' times' after e entry v found) (refl, name, refl),
      report-forced lookup' times' after e v,
    )

-- The lookup function fails: it throws, or returns FAILED.
abbrev Fails : LookupOutcome → Type 0
Fails answer =
    (answer ≡ throws) ⊎ ((hostname : Text) × (answer ≡ returns LookupResult.failed hostname))

store_answer-Fails :
    (cache : DnsCache) (answered : ℕ) (e : RemoteEndpoint) (answer : LookupOutcome)
    → Fails answer
    → let r = (store_answer cache answered e answer).1 in
      (r.resolution_status ≡ ResolutionStatus.failed) × (r.resolved_domain ≡ [])
unfolding store_answer
store_answer-Fails cache answered e answer (inl f) = rw (f, store_answer) (refl, refl)
store_answer-Fails cache answered e answer (inr (hostname, f)) = rw (f, store_answer) (refl, refl)

-- A failed lookup of a valid address, in a resolution that asked the lookup function, is reported
-- as FAILED; until the time to live has run out a later resolution of the address that is not
-- forced reports NOT_FOUND, even if the lookup function would now answer, and a forced one
-- reports what a resolution over an empty cache would.
pub resolve_forgets_failure :
    (lookup lookup' : LookupFn) (times times' : Times) (cache : DnsCache) (e : RemoteEndpoint)
    (force : Bool)
    → is_valid_ip_address e.remote_ip ≡ true
    → Asks cache times e force
    → times'.asked < times.answered + cache.ttl
    → Fails (lookup e.remote_ip)
    → let r = resolve lookup times cache e force in
      (r.1.resolution_status ≡ ResolutionStatus.failed)
      × ((resolve lookup' times' r.0 e false).1.resolution_status ≡ ResolutionStatus.not_found)
      × ((resolve lookup' times' r.0 e true).1 ≡ (resolve lookup' times' (clear r.0) e false).1)
unfolding report_hit build_result
resolve_forgets_failure lookup lookup' times times' cache e force v asks h fails =
    let (entry, found, name) = get-resolve lookup times cache e force times'.asked v asks h in
    let c = (if force then invalidate cache e.remote_ip else cache) in
    let after = (resolve lookup times cache e force).0 in
    let outcome = store_answer-Fails c times.answered (normalize e) (lookup e.remote_ip) fails in
    let same = ap (λ r. r.1) (resolve-Asks lookup times cache e force v asks) in
    (
      ap (λ r. r.resolution_status) same ∙ outcome.0,
      rw (
        resolve_hit lookup' times' after e entry v found,
        name ∙ ap (λ r. r.resolved_domain) same ∙ outcome.1,
      ),
      report-forced lookup' times' after e v,
    )

get-store_answer_other :
    (cache : DnsCache) (answered later : ℕ) (e : RemoteEndpoint) (answer : LookupOutcome) (q : Text)
    → q ≢ e.remote_ip
    → get (store_answer cache answered e answer).0 later q ≡ get cache later q
get-store_answer_other cache answered later e answer q h =
    ap (λ c. get c later q) (store_answer-put cache answered e answer)
    ∙ get-put cache answered later e.remote_ip _ q
    ∙ if_neg (text_discrete q e.remote_ip) h _ _

-- A resolution leaves what the cache says of every other address.
get-resolve_other :
    (lookup : LookupFn) (times : Times) (cache : DnsCache) (e : RemoteEndpoint) (force : Bool)
    (later : ℕ) (q : Text)
    → q ≢ e.remote_ip
    → get (resolve lookup times cache e force).0 later q ≡ get cache later q
get-resolve_other lookup times cache e force later q h =
    let h' : q ≢ (normalize e).remote_ip = rw (normalize-remote_ip e) h in
    let answer = lookup e.remote_ip in
    resolve_cases (λ r. get r.0 later q ≡ get cache later q) lookup times cache e force (λ _. refl)
      (λ _ _.
        get-store_answer_other _ times.answered later (normalize e) answer q h'
        ∙ get-invalidate cache later e.remote_ip q
        ∙ if_neg (text_discrete q e.remote_ip) h _ _)
      (λ _ _ _. get-store_answer_other cache times.answered later (normalize e) answer q h')
      (λ entry _ _ _. refl)
