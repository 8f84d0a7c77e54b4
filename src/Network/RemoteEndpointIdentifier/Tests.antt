-- ===== src/Network/RemoteEndpointIdentifier/Tests.antt =====
-- One established connection and one listening socket.
use mathlib.Core.List.{mem-cons_self}
use data_exfiltration_detect.Common.{◌≡◌, refl, sym, subst, ◌≢◌, List, [], ◌∷◌, Mem, false}
use data_exfiltration_detect.Common.Text.{Text, codes}
use data_exfiltration_detect.Network.Types.{
  Connection, ConnectionState, ProtocolType, AddressFamily,
}
use data_exfiltration_detect.Network.NetworkUtils.Addresses.{
  is_valid_ip_address, detect_address_family, is_unspecified, has_remote_endpoint,
}
use data_exfiltration_detect.Network.DnsCache.{initial}
use data_exfiltration_detect.Network.DomainResolver.{
  RemoteEndpoint, ResolutionStatus, LookupFn, throws, resolve,
}
use data_exfiltration_detect.Network.RemoteEndpointIdentifier.{identify}
use data_exfiltration_detect.Network.RemoteEndpointIdentifier.Laws.{resolve-identify}

abbrev connection_to : Text → Connection
connection_to remote = record {
  process_id = 7;
  local_address = codes "10.0.0.5";
  local_port = 50000;
  remote_address = remote;
  remote_port = 443;
  protocol = ProtocolType.tcp;
  state = ConnectionState.established;
  timestamp = 100;
}

abbrev rows : List Connection
rows = connection_to (codes "0.0.0.0") ∷ connection_to (codes "1.1.1.1") ∷ []

abbrev peer : RemoteEndpoint
peer = record {
  process_id = 7;
  process_name = [];
  protocol = ProtocolType.tcp;
  local_ip = codes "10.0.0.5";
  local_port = 50000;
  remote_ip = codes "1.1.1.1";
  remote_port = 443;
  address_family = AddressFamily.ipv4;
  timestamp = 100;
}

one_peer : identify rows ≡ peer ∷ []
unfolding identify has_remote_endpoint is_unspecified is_valid_ip_address detect_address_family
one_peer = refl

peer-identified : Mem peer (identify rows)
peer-identified = subst (Mem peer) (sym one_peer) mem-cons_self

abbrev breaks : LookupFn
breaks ip = throws

resolve-identify_example :
    (resolve breaks
      (record { asked = 1000; answered = 1001 })
      (initial 300)
      peer
      false).1.resolution_status
    ≢ ResolutionStatus.invalid_ip
resolve-identify_example =
    resolve-identify breaks (record { asked = 1000; answered = 1001 }) (initial 300) rows peer false
      peer-identified
