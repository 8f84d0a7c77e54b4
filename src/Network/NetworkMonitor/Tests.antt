-- ===== src/Network/NetworkMonitor/Tests.antt =====
-- An operating system with one TCP connection, one listening socket, one UDP endpoint, and no IPv6.
use data_exfiltration_detect.Common.{ℕ, ◌≡◌, refl, [], ◌∷◌, map, some, none, arith}
use data_exfiltration_detect.Common.Text.{codes}
use data_exfiltration_detect.Network.Types.{ConnectionTransferSnapshot}
use data_exfiltration_detect.Network.NetworkMonitor.{Windows, get_connection_transfer_snapshots}
use data_exfiltration_detect.Network.NetworkMonitor.Laws.{
  HasDistinctStates, AreQuiet, get_connection_transfer_snapshots-AreQuiet,
}

abbrev windows : Windows
windows = record {
  error_insufficient_buffer = 122;
  no_error = 0;
  state_listen = 2;
  state_estab = 5;
  state_time_wait = 11;
  state_close_wait = 8;
  state_closed = 1;
  ntohs = λ n. n;
  inet_ntop4 = λ a. some (codes "10.0.0.5");
  inet_ntop6 = λ a. none;
  tcp4 = record {
    size_query = (122, 64);
    fill = λ size. (
      0,
      record {
        state = 5;
        local_addr = 1;
        local_port = 50000;
        remote_addr = 2;
        remote_port = 443;
        owning_pid = 7;
      }
          ∷ record {
            state = 2;
            local_addr = 1;
            local_port = 80;
            remote_addr = 0;
            remote_port = 0;
            owning_pid = 8;
          }
          ∷ [],
    );
  };
  tcp6 = record { size_query = (50, 0); fill = λ size. (50, []) };
  udp4 = record {
    size_query = (122, 16);
    fill = λ size. (0, record { local_addr = 1; local_port = 53; owning_pid = 9 } ∷ []);
  };
  udp6 = record { size_query = (122, 16); fill = λ size. (5, []) };
  estats4 = λ row. (0, 100, 200);
  estats6 = λ row. (0, 0, 0);
}

windows-HasDistinctStates : HasDistinctStates windows
windows-HasDistinctStates = record {
  listen-estab = λ h. omega arith;
  listen-close_wait = λ h. omega arith;
  estab-close_wait = λ h. omega arith;
  time_wait-close_wait = λ h. omega arith;
}

sent : ConnectionTransferSnapshot → ℕ × ℕ
sent s = (s.connection.process_id, s.bytes_sent)

reports : map sent (get_connection_transfer_snapshots windows 100) ≡ (7, 100) ∷ (8, 0) ∷ (9, 0) ∷ []
unfolding sent get_connection_transfer_snapshots
reports = refl

get_connection_transfer_snapshots-AreQuiet_example :
    AreQuiet (get_connection_transfer_snapshots windows 100)
get_connection_transfer_snapshots-AreQuiet_example =
    get_connection_transfer_snapshots-AreQuiet windows windows-HasDistinctStates 100
