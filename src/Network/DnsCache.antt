-- ===== src/Network/DnsCache.antt =====
-- src/network/cache/DnsCache.h and .cpp. The clock's reading is an argument of each operation that
-- reads it; a duration is its count of clock ticks.
pub mod Laws
pub mod Refinement
mod Tests
use mathlib.Core.List.{lookup}
use data_exfiltration_detect.Common.{
  ℕ, ◌+◌, List, [], ◌∷◌, Bool, Option, none, some, leb, if◌then◌else◌, length,
}
use data_exfiltration_detect.Common.Text.{Text, text_discrete}
use data_exfiltration_detect.Common.Maps.{assign, erase}

pub record DnsCacheEntry : Type 0 where
  pub hostname : Text
  pub stored_at : ℕ
  pub expires_at : ℕ

pub record DnsCache : Type 0 where
  pub ttl : ℕ
  pub entries : List (Text × DnsCacheEntry)

-- The constructor; the default is 300 seconds.
abbrev pub initial : ℕ → DnsCache
initial ttl = record { ttl = ttl; entries = [] }

unfoldable pub is_expired : DnsCacheEntry → ℕ → Bool
is_expired entry now = leb entry.expires_at now

-- `get`, with the out-parameter and the Boolean result as an option.
unfoldable pub get : DnsCache → ℕ → Text → Option DnsCacheEntry
unfolding is_expired lookup text_discrete
get cache now ip = elim (lookup text_discrete ip cache.entries) [
  | none ↦ none
  | some entry ↦ if is_expired entry now then none else some entry
]

-- What `put` stores.
abbrev pub new_entry : DnsCache → ℕ → Text → DnsCacheEntry
new_entry cache now hostname = record {
  hostname = hostname;
  stored_at = now;
  expires_at = now + cache.ttl;
}

unfoldable pub put : DnsCache → ℕ → Text → Text → DnsCache
unfolding assign text_discrete
put cache now ip hostname = record cache {
  entries = assign text_discrete ip (new_entry cache now hostname) cache.entries;
}

unfoldable pub invalidate : DnsCache → Text → DnsCache
unfolding erase text_discrete
invalidate cache ip = record cache { entries = erase text_discrete ip cache.entries }

unfoldable pub clear : DnsCache → DnsCache
clear cache = record cache { entries = [] }

-- The loop of `purgeExpired`: the entries that stay, and how many were erased.
unfoldable pub purge_loop : ℕ → List (Text × DnsCacheEntry) → List (Text × DnsCacheEntry) × ℕ
unfolding is_expired
purge_loop now [] = ([], 0)
purge_loop now ((ip, entry) ∷ entries) =
    let (kept, removed) = purge_loop now entries in
    if is_expired entry now then (kept, removed + 1) else ((ip, entry) ∷ kept, removed)

unfoldable pub purge_expired : DnsCache → ℕ → DnsCache × ℕ
unfolding purge_loop
purge_expired cache now =
    let (kept, removed) = purge_loop now cache.entries in (record cache { entries = kept }, removed)

unfoldable pub size : DnsCache → ℕ
size cache = length cache.entries

unfoldable pub set_ttl : DnsCache → ℕ → DnsCache
set_ttl cache ttl = record cache { ttl = ttl }
