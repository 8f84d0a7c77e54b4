-- ===== src/Network/DnsCache/Tests.antt =====
-- A cache of 300 ticks with one entry, stored at 1000.
use data_exfiltration_detect.Common.{◌≡◌, refl, [], ◌∷◌, none, arith}
use data_exfiltration_detect.Common.Text.{Text, codes}
use data_exfiltration_detect.Network.DnsCache.{DnsCache, initial, get, put, new_entry}
use data_exfiltration_detect.Network.DnsCache.Laws.{puts, purges, sets_ttl, run}
use data_exfiltration_detect.Network.DnsCache.Refinement.{
  read, replay, initial_specification, run-initial-refines,
}

abbrev address : Text
address = codes "1.1.1.1"

abbrev domain : Text
domain = codes "one.one"

abbrev filled : DnsCache
filled = record { ttl = 300; entries = (address, new_entry (initial 300) 1000 domain) ∷ [] }

put_fills : put (initial 300) 1000 address domain ≡ filled
unfolding put
put_fills = refl

expires_at_the_end : get filled 1300 address ≡ none
unfolding get
expires_at_the_end = refl

run-initial-refines_example :
    get (run (initial 300) (puts 1000 address domain ∷ purges 1100 ∷ sets_ttl 60 ∷ [])) 1200 address
    ≡ read
        (replay
          (initial_specification 300)
          (puts 1000 address domain ∷ purges 1100 ∷ sets_ttl 60 ∷ []))
        1200
        address
run-initial-refines_example =
    run-initial-refines 300 1100 (puts 1000 address domain ∷ purges 1100 ∷ sets_ttl 60 ∷ [])
      (omega arith) 1200 address (omega arith)
