-- ===== src/Network/ProtocolPortAnalyzer/Laws.antt =====
-- ProtocolPortAnalyzer.cpp: which connections give a profile, and what holds of every profile.
use data_exfiltration_detect.Common.{
  ◌≡◌, refl, List, [], ◌∷◌, map, Bool, ◌&&◌, none, some, ltb, keep_if, arith, if◌then◌else◌,
}
use data_exfiltration_detect.Common.Text.{Text}
use data_exfiltration_detect.Network.Types.{Connection}
use data_exfiltration_detect.Network.NetworkUtils.Addresses.{is_valid_port, has_remote_port}
use data_exfiltration_detect.Network.ConnectionAttributor.{AttributedConnection}
use data_exfiltration_detect.Network.ProtocolPortAnalyzer.{
  ProtocolPortProfile, is_transport, local_family, try_analyze, analyze, analyze_attributed,
}

-- A connection with a local port over TCP or UDP.
abbrev pub is_reportable : Connection → Bool
is_reportable c = ltb 0 c.local_port && is_transport c.protocol

-- What is reported of a connection of a process with a name.
abbrev pub profile_of : Connection → Text → ProtocolPortProfile
profile_of c process_name = record {
  process_id = c.process_id;
  process_name = process_name;
  protocol = c.protocol;
  local_port = c.local_port;
  remote_port = c.remote_port;
  connection_state = c.state;
  address_family = local_family c.local_address;
  has_port = ltb 0 c.remote_port;
  timestamp = c.timestamp;
}

try_analyze_lem :
    (c : Connection) (process_name : Text)
    → try_analyze c process_name
      ≡ (if is_reportable c then some (profile_of c process_name) else none)
unfolding try_analyze is_valid_port has_remote_port
try_analyze_lem c process_name = ground arith

abbrev pub name_of : AttributedConnection → Text
name_of a = if a.has_process_info then a.process_info.process_name else []

analyze_plain :
    (xs : List Connection) → analyze xs ≡ map (λ c. profile_of c []) (keep_if is_reportable xs)
unfolding analyze
analyze_plain [] = refl
analyze_plain (x ∷ xs) = ground (arith, try_analyze_lem x [], analyze_plain xs)

analyze_named :
    (xs : List AttributedConnection)
    → analyze_attributed xs
      ≡ map
          (λ a. profile_of a.connection (name_of a))
          (keep_if (λ a. is_reportable a.connection) xs)
unfolding analyze_attributed
analyze_named [] = refl
analyze_named (x ∷ xs) = ground (arith, try_analyze_lem x.connection (name_of x), analyze_named xs)

-- The profiles are those of the connections with a local port over TCP or UDP, in their order: all
-- fields of the connection are kept, and a remote port is reported as one exactly when it is not
-- zero. Attributed connections give the same profiles, with the name of a known process.
pub analyze_lem :
    (cs : List Connection) (as' : List AttributedConnection)
    → (analyze cs ≡ map (λ c. profile_of c []) (keep_if is_reportable cs))
      × (analyze_attributed as'
          ≡ map
              (λ a. profile_of a.connection (name_of a))
              (keep_if (λ a. is_reportable a.connection) as'))
analyze_lem cs as' = (analyze_plain cs, analyze_named as')
