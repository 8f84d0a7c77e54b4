-- ===== src/Network/DnsCache/Laws.antt =====
-- DnsCache.cpp: what can be read after each operation, and what a purge does.
use mathlib.Core.List.{lookup, Nodup-nil, Nodup-cons, Sublist, nil-sublist}
use mathlib.Core.List.Nodup
use mathlib.Core.List.Sublist
use data_exfiltration_detect.Common.{
  ℕ, ◌+◌, ◌≤◌, ◌≡◌, refl, List, [], ◌∷◌, Option, none, some, arith, ite, if◌then◌else◌, Bool-cases,
  inl, inr, length, false, ltb, sym, ◌∙◌, ap,
}
use data_exfiltration_detect.Common.Text.{Text, text_discrete}
use data_exfiltration_detect.Common.Maps.{
  keys, HasUniqueKeys, lookup-assign, lookup-erase, lookup-none_iff, assign-HasUniqueKeys,
  erase-HasUniqueKeys,
}
use data_exfiltration_detect.Network.DnsCache.{
  DnsCache, DnsCacheEntry, initial, is_expired, get, new_entry, put, invalidate, clear, purge_loop,
  purge_expired, size, set_ttl,
}

-- Each address has one entry.
abbrev pub IsValid : DnsCache → Type 0
IsValid cache = HasUniqueKeys cache.entries

-- A put is read back until its time to live has run out, and no longer; every other address reads
-- as before.
pub get-put :
    (cache : DnsCache) (now later : ℕ) (ip hostname q : Text)
    → get (put cache now ip hostname) later q
      ≡ ite
          (text_discrete q ip)
          (if ltb later (now + cache.ttl) then some (new_entry cache now hostname) else none)
          (get cache later q)
unfolding get put is_expired
get-put cache now later ip hostname q =
    ground (arith, lookup-assign text_discrete q ip (new_entry cache now hostname) cache.entries)

-- An invalidated address reads as absent, and every other as before.
pub get-invalidate :
    (cache : DnsCache) (later : ℕ) (ip q : Text)
    → get (invalidate cache ip) later q ≡ ite (text_discrete q ip) none (get cache later q)
unfolding get invalidate
get-invalidate cache later ip q = ground (arith, lookup-erase text_discrete q ip cache.entries)

-- What the loop of a purge leaves out, it counts.
purge_loop-count :
    (now : ℕ) (m : List (Text × DnsCacheEntry))
    → length (purge_loop now m).0 + (purge_loop now m).1 ≡ length m
unfolding purge_loop
purge_loop-count now [] = refl
purge_loop-count now ((ip, entry) ∷ m) = ground (arith, purge_loop-count now m)

-- The expiry test on the result of a lookup.
live : ℕ → Option DnsCacheEntry → Option DnsCacheEntry
live now none = none
live now (some entry) = if is_expired entry now then none else some entry

lookup-purge_absent :
    (now : ℕ) (q : Text) (m : List (Text × DnsCacheEntry))
    → lookup text_discrete q m ≡ none
    → lookup text_discrete q (purge_loop now m).0 ≡ none
unfolding purge_loop lookup
lookup-purge_absent now q [] h = refl
lookup-purge_absent now q ((ip, entry) ∷ m) h = ground (arith, lookup-purge_absent now q m)

lookup-purge_loop :
    (now : ℕ) (q : Text) (m : List (Text × DnsCacheEntry))
    → HasUniqueKeys m
    → lookup text_discrete q (purge_loop now m).0 ≡ live now (lookup text_discrete q m)
unfolding purge_loop lookup live
lookup-purge_loop now q [] u = refl
lookup-purge_loop now q ((ip, entry) ∷ m) u = elim (text_discrete q ip) [
  | yes p ↦ ground (
    arith,
    lookup-purge_absent now q m
        ((lookup-none_iff text_discrete q m).1 (λ h. (Nodup-cons.0 u).0 (rw p at h))),
  )
  | no p ↦ ground (arith, lookup-purge_loop now q m (Nodup-cons.0 u).1)
]

live-fresh :
    (now : ℕ) (o : Option DnsCacheEntry) (entry : DnsCacheEntry)
    → live now o ≡ some entry
    → is_expired entry now ≡ false
unfolding live is_expired
live-fresh now none entry h = cc
live-fresh now (some e) entry h = ground arith

live-live :
    (now later : ℕ) (o : Option DnsCacheEntry)
    → now ≤ later
    → live later (live now o) ≡ live later o
unfolding live is_expired
live-live now later none h = refl
live-live now later (some e) h = ground arith

get-live :
    (cache : DnsCache) (later : ℕ) (q : Text)
    → get cache later q ≡ live later (lookup text_discrete q cache.entries)
unfolding get live
get-live cache later q = ground arith

-- In a cache with one entry to an address, a purge counts what it erases, leaves exactly what a
-- get at its time would return, and never changes what a get at that time or later returns.
pub purge_expired_lem :
    (cache : DnsCache) (now later : ℕ) (q : Text)
    → IsValid cache
    → now ≤ later
    → let r = purge_expired cache now in
      (size r.0 + r.1 ≡ size cache)
      × (lookup text_discrete q r.0.entries ≡ get cache now q)
      × (get r.0 later q ≡ get cache later q)
unfolding purge_expired size
purge_expired_lem cache now later q u h = (
  purge_loop-count now cache.entries,
  lookup-purge_loop now q cache.entries u ∙ sym (get-live cache now q),
  get-live (record cache { entries = (purge_loop now cache.entries).0 }) later q
      ∙ ap (live later) (lookup-purge_loop now q cache.entries u)
      ∙ live-live now later (lookup text_discrete q cache.entries) h
      ∙ sym (get-live cache later q),
)

keys-purge_loop-sublist :
    (now : ℕ) (m : List (Text × DnsCacheEntry)) → Sublist (keys (purge_loop now m).0) (keys m)
unfolding purge_loop
keys-purge_loop-sublist now [] = nil-sublist []
keys-purge_loop-sublist now ((ip, entry) ∷ m) = elim (Bool-cases (is_expired entry now)) [
  | inl e ↦ rw e (Sublist.cons ip (keys-purge_loop-sublist now m))
  | inr e ↦ rw e (Sublist.cons-cons ip (keys-purge_loop-sublist now m))
]

-- The calls that a client makes.
pub data Operation : Type 0 where
  puts : ℕ → Text → Text → Operation
  invalidates : Text → Operation
  clears : Operation
  purges : ℕ → Operation
  sets_ttl : ℕ → Operation

unfoldable pub apply : DnsCache → Operation → DnsCache
unfolding put invalidate clear purge_expired set_ttl
apply cache (puts now ip hostname) = put cache now ip hostname
apply cache (invalidates ip) = invalidate cache ip
apply cache clears = clear cache
apply cache (purges now) = (purge_expired cache now).0
apply cache (sets_ttl ttl) = set_ttl cache ttl

unfoldable pub run : DnsCache → List Operation → DnsCache
unfolding apply
run cache [] = cache
run cache (op ∷ ops) = run (apply cache op) ops

-- Every operation keeps one entry to an address.
pub apply-IsValid : (cache : DnsCache) (op : Operation) → IsValid cache → IsValid (apply cache op)
unfolding apply
apply-IsValid cache (puts now ip hostname) u =
    assign-HasUniqueKeys text_discrete ip (new_entry cache now hostname) cache.entries u
apply-IsValid cache (invalidates ip) u = erase-HasUniqueKeys text_discrete ip cache.entries u
apply-IsValid cache clears u = Nodup-nil
apply-IsValid cache (purges now) u = Nodup.sublist (keys-purge_loop-sublist now cache.entries) u
apply-IsValid cache (sets_ttl ttl) u = u

run-IsValid : (cache : DnsCache) (ops : List Operation) → IsValid cache → IsValid (run cache ops)
unfolding run
run-IsValid cache [] u = u
run-IsValid cache (op ∷ ops) u = run-IsValid (apply cache op) ops (apply-IsValid cache op u)

-- After any sequence of calls on a new cache, each address has at most one entry.
pub run-initial-IsValid : (ttl : ℕ) (ops : List Operation) → IsValid (run (initial ttl) ops)
run-initial-IsValid ttl ops = run-IsValid (initial ttl) ops Nodup-nil
