-- ===== src/Network/DnsCache/Refinement.antt =====
-- DnsCache.cpp against its specification: a function from addresses to the latest entry, which a read
-- tests for its time, and for which a purge is nothing.
use mathlib.Core.List.{Nodup-nil, lookup}
use data_exfiltration_detect.Common.{
  ℕ, ◌+◌, ◌≤◌, ◌≡◌, refl, sym, ap, ◌∙◌, List, [], ◌∷◌, Option, none, some, arith, ite,
  if◌then◌else◌, ltb,
}
use data_exfiltration_detect.Common.Text.{Text, text_discrete}
use data_exfiltration_detect.Network.DnsCache.{
  DnsCache, DnsCacheEntry, initial, get, clear, set_ttl, purge_expired, put, invalidate,
}
use data_exfiltration_detect.Network.DnsCache.Laws.{
  IsValid, Operation, puts, invalidates, clears, purges, sets_ttl, apply, run, apply-IsValid,
  get-put, get-invalidate, purge_expired_lem,
}

pub record Specification : Type 0 where
  pub ttl : ℕ
  pub latest : Text → Option DnsCacheEntry

unfoldable pub read : Specification → ℕ → Text → Option DnsCacheEntry
read s now ip = elim (s.latest ip) [
  | none ↦ none
  | some entry ↦ if ltb now entry.expires_at then some entry else none
]

unfoldable pub step : Specification → Operation → Specification
step s (puts now ip hostname) = record s {
  latest = λ q.
      ite (text_discrete q ip)
        (some (record { hostname = hostname; stored_at = now; expires_at = now + s.ttl }))
        (s.latest q);
}
step s (invalidates ip) = record s { latest = λ q. ite (text_discrete q ip) none (s.latest q) }
step s clears = record s { latest = λ q. none }
step s (purges now) = s
step s (sets_ttl ttl) = record s { ttl = ttl }

unfoldable pub replay : Specification → List Operation → Specification
unfolding step
replay s [] = s
replay s (op ∷ ops) = replay (step s op) ops

abbrev pub initial_specification : ℕ → Specification
initial_specification ttl = record { ttl = ttl; latest = λ q. none }

-- No purge is later than a time.
abbrev pub PurgesBy : ℕ → List Operation → Type 0
PurgesBy time [] = Unit {0}
PurgesBy time (purges now ∷ ops) = (now ≤ time) × PurgesBy time ops
PurgesBy time (puts now ip hostname ∷ ops) = PurgesBy time ops
PurgesBy time (invalidates ip ∷ ops) = PurgesBy time ops
PurgesBy time (clears ∷ ops) = PurgesBy time ops
PurgesBy time (sets_ttl ttl ∷ ops) = PurgesBy time ops

-- From a time on, a cache reads as the specification does.
record Refines (time : ℕ) (cache : DnsCache) (s : Specification) : Type 0 where
  valid : IsValid cache
  same_ttl : cache.ttl ≡ s.ttl
  same_reads : (later : ℕ) (q : Text) → time ≤ later → get cache later q ≡ read s later q

pub get-clear : (cache : DnsCache) (later : ℕ) (q : Text) → get (clear cache) later q ≡ none
unfolding get clear lookup
get-clear cache later q = refl

read-puts :
    (s : Specification) (now later : ℕ) (ip hostname q : Text)
    → read (step s (puts now ip hostname)) later q
      ≡ ite
          (text_discrete q ip)
          (if ltb later (now + s.ttl)
            then some (record { hostname = hostname; stored_at = now; expires_at = now + s.ttl })
            else none)
          (read s later q)
unfolding read step
read-puts s now later ip hostname q = ground arith

read-invalidates :
    (s : Specification) (later : ℕ) (ip q : Text)
    → read (step s (invalidates ip)) later q ≡ ite (text_discrete q ip) none (read s later q)
unfolding read step
read-invalidates s later ip q = ground arith

-- One operation, of which a purge is at the time or before it.
apply-Refines :
    (time : ℕ) (cache : DnsCache) (s : Specification) (op : Operation)
    → PurgesBy time (op ∷ [])
    → Refines time cache s
    → Refines time (apply cache op) (step s op)
unfolding apply step put invalidate clear set_ttl purge_expired
apply-Refines time cache s (puts now ip hostname) h r = record {
  valid = apply-IsValid cache (puts now ip hostname) r.valid;
  same_ttl = r.same_ttl;
  same_reads = λ later q le.
      get-put cache now later ip hostname q
      ∙ ap
          (λ ttl.
            ite (text_discrete q ip)
              (if ltb later (now + ttl)
                then some (record { hostname = hostname; stored_at = now; expires_at = now + ttl })
                else none)
              (get cache later q))
          r.same_ttl
      ∙ ap (ite (text_discrete q ip) _) (r.same_reads later q le)
      ∙ sym (read-puts s now later ip hostname q);
}
apply-Refines time cache s (invalidates ip) h r = record {
  valid = apply-IsValid cache (invalidates ip) r.valid;
  same_ttl = r.same_ttl;
  same_reads = λ later q le.
      get-invalidate cache later ip q
      ∙ ap (ite (text_discrete q ip) none) (r.same_reads later q le)
      ∙ sym (read-invalidates s later ip q);
}
apply-Refines time cache s clears h r = record {
  valid = apply-IsValid cache clears r.valid;
  same_ttl = r.same_ttl;
  same_reads = λ later q le. get-clear cache later q ∙ unfold read in refl;
}
apply-Refines time cache s (purges now) h r = record {
  valid = apply-IsValid cache (purges now) r.valid;
  same_ttl = r.same_ttl;
  same_reads = λ later q le.
      (purge_expired_lem cache now later q r.valid (omega (arith, h.0, le))).2
      ∙ r.same_reads later q le;
}
apply-Refines time cache s (sets_ttl ttl) h r = record {
  valid = apply-IsValid cache (sets_ttl ttl) r.valid;
  same_ttl = refl;
  same_reads = λ later q le. unfold get read in r.same_reads later q le;
}

first_purge :
    (time : ℕ) (op : Operation) (ops : List Operation)
    → PurgesBy time (op ∷ ops)
    → PurgesBy time (op ∷ []) × PurgesBy time ops
first_purge time (purges now) ops h = ((h.0, tt), h.1)
first_purge time (puts now ip hostname) ops h = (tt, h)
first_purge time (invalidates ip) ops h = (tt, h)
first_purge time clears ops h = (tt, h)
first_purge time (sets_ttl ttl) ops h = (tt, h)

run-Refines :
    (time : ℕ) (cache : DnsCache) (s : Specification) (ops : List Operation)
    → PurgesBy time ops
    → Refines time cache s
    → Refines time (run cache ops) (replay s ops)
unfolding run replay
run-Refines time cache s [] h r = r
run-Refines time cache s (op ∷ ops) h r =
    let p = first_purge time op ops h in
    run-Refines time (apply cache op) (step s op) ops p.1 (apply-Refines time cache s op p.0 r)

-- After any sequence of calls on a new cache, every read at or after the time of the last purge
-- gives what the specification gives, in which a purge does nothing: the latest name that was put
-- for the address and was not invalidated or cleared since, until its time to live has run out.
pub run-initial-refines :
    (ttl time : ℕ) (ops : List Operation)
    → PurgesBy time ops
    → (later : ℕ) (q : Text) → time ≤ later
    → get (run (initial ttl) ops) later q ≡ read (replay (initial_specification ttl) ops) later q
unfolding clear read
run-initial-refines ttl time ops h =
    (run-Refines time (initial ttl) (initial_specification ttl) ops h (record {
      valid = Nodup-nil;
      same_ttl = refl;
      same_reads = λ later q le. get-clear (initial ttl) later q;
    })).same_reads
