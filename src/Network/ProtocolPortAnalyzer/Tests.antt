-- ===== src/Network/ProtocolPortAnalyzer/Tests.antt =====
-- A TCP connection, and a row without a local port.
use data_exfiltration_detect.Common.{ℕ, ◌≡◌, refl, List, [], ◌∷◌, map}
use data_exfiltration_detect.Common.Text.{codes}
use data_exfiltration_detect.Network.Types.{ConnectionState, ProtocolType, Connection}
use data_exfiltration_detect.Network.ProtocolPortAnalyzer.{ProtocolPortProfile, analyze}

abbrev connection : ℕ → Connection
connection local_port = record {
  process_id = 7;
  local_address = codes "10.0.0.5";
  local_port = local_port;
  remote_address = codes "93.184.216.34";
  remote_port = 443;
  protocol = ProtocolType.tcp;
  state = ConnectionState.established;
  timestamp = 100;
}

abbrev connections : List Connection
connections = connection 50000 ∷ connection 0 ∷ []

ports : ProtocolPortProfile → ℕ × ℕ
ports p = (p.local_port, p.remote_port)

analyzes : map ports (analyze connections) ≡ (50000, 443) ∷ []
unfolding analyze ports
analyzes = refl
