-- ===== src/Network/NetworkMonitor.antt =====
-- src/network/collectors/NetworkMonitor.h and .cpp. What the operating system answers during one call
-- (the table functions of iphlpapi, the TCP statistics, inet_ntop, ntohs, and the values of its
-- constants) is an argument, a record `Windows`; so is the clock's reading.
pub mod Laws
mod Tests
use data_exfiltration_detect.Common.{
  ℕ, ◌%◌, ◌^◌, List, [], ◌∷◌, ◌++◌, map, Bool, true, false, not, ◌&&◌, ◌||◌, Option, none, some,
  ◌==◌, if◌then◌else◌,
}
use data_exfiltration_detect.Common.Text.{Text}
use data_exfiltration_detect.Network.Types.{
  ProtocolType, ConnectionState, Connection, ConnectionTransferSnapshot,
}

-- `MIB_TCPROW_OWNER_PID`, and without the last field `MIB_TCPROW`.
pub record Tcp4Row : Type 0 where
  pub state : ℕ
  pub local_addr : ℕ
  pub local_port : ℕ
  pub remote_addr : ℕ
  pub remote_port : ℕ
  pub owning_pid : ℕ

-- `MIB_TCP6ROW_OWNER_PID`.
pub record Tcp6Row : Type 0 where
  pub local_addr : List ℕ
  pub local_scope_id : ℕ
  pub local_port : ℕ
  pub remote_addr : List ℕ
  pub remote_scope_id : ℕ
  pub remote_port : ℕ
  pub state : ℕ
  pub owning_pid : ℕ

-- `MIB_UDPROW_OWNER_PID` and `MIB_UDP6ROW_OWNER_PID`.
pub record UdpRow (Address : Type 0) : Type 0 where
  pub local_addr : Address
  pub local_port : ℕ
  pub owning_pid : ℕ

-- The two calls of a table function: the return code and the size that the first one gives for no
-- buffer, and the return code and the entries that the second one gives for a buffer of a size.
pub record Table (Row : Type 0) : Type 0 where
  pub size_query : ℕ × ℕ
  pub fill : ℕ → ℕ × List Row

-- `GetPerTcpConnectionEStats` for a row, after the collection was enabled for it: the return code,
-- `DataBytesOut` and `DataBytesIn`.
abbrev pub Estats : Type 0 → Type 0
Estats Row = Row → ℕ × ℕ × ℕ

pub record Windows : Type 0 where
  pub error_insufficient_buffer : ℕ
  pub no_error : ℕ
  pub state_listen : ℕ
  pub state_estab : ℕ
  pub state_time_wait : ℕ
  pub state_close_wait : ℕ
  pub state_closed : ℕ
  pub ntohs : ℕ → ℕ
  pub inet_ntop4 : ℕ → Option Text
  pub inet_ntop6 : List ℕ → Option Text
  pub tcp4 : Table Tcp4Row
  pub tcp6 : Table Tcp6Row
  pub udp4 : Table (UdpRow ℕ)
  pub udp6 : Table (UdpRow (List ℕ))
  pub estats4 : Estats Tcp4Row
  pub estats6 : Estats Tcp6Row

-- The call for the size, and the call for the entries; no entries where either fails.
unfoldable pub read_table : {Row : Type 0} → Windows → Table Row → List Row
read_table w table =
    let (ret, size) = table.size_query in
    let (ret', rows) = table.fill size in
    if not (ret == w.error_insufficient_buffer) || size == 0
    then []
    else if not (ret' == w.no_error)
    then []
    else rows

module _ (w : Windows) where
  unfoldable pub to_connection_state : ℕ → ConnectionState
  to_connection_state windows_state =
      if windows_state == w.state_listen
      then ConnectionState.listening
      else if windows_state == w.state_estab
      then ConnectionState.established
      else if windows_state == w.state_time_wait
      then ConnectionState.time_wait
      else if windows_state == w.state_close_wait
      then ConnectionState.close_wait
      else if windows_state == w.state_closed
      then ConnectionState.closed
      else ConnectionState.unknown

  unfoldable pub ipv4_to_string : ℕ → Text
  ipv4_to_string addr = elim (w.inet_ntop4 addr) [ none ↦ [] | some text ↦ text ]

  unfoldable pub ipv6_to_string : List ℕ → Text
  ipv6_to_string addr = elim (w.inet_ntop6 addr) [ none ↦ [] | some text ↦ text ]

  -- `ntohs(static_cast<u_short>(port))`.
  unfoldable pub port_of : ℕ → ℕ
  port_of port = w.ntohs (port % 2 ^ 16)

  -- `dwState != MIB_TCP_STATE_ESTAB && dwState != MIB_TCP_STATE_CLOSE_WAIT`.
  unfoldable pub has_no_estats : ℕ → Bool
  has_no_estats state = not (state == w.state_estab) && not (state == w.state_close_wait)

  -- The result, the bytes sent and the bytes received.
  unfoldable pub read_tcp4_estats : Tcp4Row → Bool × ℕ × ℕ
  unfolding has_no_estats
  read_tcp4_estats row =
      let (status, bytes_out, bytes_in) = w.estats4 row in
      if has_no_estats row.state
      then (false, 0, 0)
      else if not (status == w.no_error)
      then (false, 0, 0)
      else (true, bytes_out, bytes_in)

  unfoldable pub read_tcp6_estats : Tcp6Row → Bool × ℕ × ℕ
  unfolding has_no_estats
  read_tcp6_estats row =
      let (status, bytes_out, bytes_in) = w.estats6 row in
      if has_no_estats row.state
      then (false, 0, 0)
      else if not (status == w.no_error)
      then (false, 0, 0)
      else (true, bytes_out, bytes_in)

  -- The connection of a row of each table.
  unfoldable pub tcp4_connection : ℕ → Tcp4Row → Connection
  unfolding ipv4_to_string port_of to_connection_state
  tcp4_connection now row = record {
    process_id = row.owning_pid;
    local_address = ipv4_to_string row.local_addr;
    local_port = port_of row.local_port;
    remote_address = ipv4_to_string row.remote_addr;
    remote_port = port_of row.remote_port;
    protocol = ProtocolType.tcp;
    state = to_connection_state row.state;
    timestamp = now;
  }

  unfoldable pub tcp6_connection : ℕ → Tcp6Row → Connection
  unfolding ipv6_to_string port_of to_connection_state
  tcp6_connection now row = record {
    process_id = row.owning_pid;
    local_address = ipv6_to_string row.local_addr;
    local_port = port_of row.local_port;
    remote_address = ipv6_to_string row.remote_addr;
    remote_port = port_of row.remote_port;
    protocol = ProtocolType.tcp;
    state = to_connection_state row.state;
    timestamp = now;
  }

  unfoldable pub udp_connection :
      {Address : Type 0} → (Address → Text) → ℕ → UdpRow Address → Connection
  unfolding port_of
  udp_connection to_string now row = record {
    process_id = row.owning_pid;
    local_address = to_string row.local_addr;
    local_port = port_of row.local_port;
    remote_address = [];
    remote_port = 0;
    protocol = ProtocolType.udp;
    state = ConnectionState.listening;
    timestamp = now;
  }

  unfoldable pub collect_tcp_ipv4 : ℕ → List Connection → List Connection
  unfolding read_table tcp4_connection
  collect_tcp_ipv4 now connections = connections ++ map (tcp4_connection now) (read_table w w.tcp4)

  unfoldable pub collect_tcp_ipv6 : ℕ → List Connection → List Connection
  unfolding read_table tcp6_connection
  collect_tcp_ipv6 now connections = connections ++ map (tcp6_connection now) (read_table w w.tcp6)

  unfoldable pub collect_udp_ipv4 : ℕ → List Connection → List Connection
  unfolding read_table udp_connection ipv4_to_string
  collect_udp_ipv4 now connections =
      connections ++ map (udp_connection ipv4_to_string now) (read_table w w.udp4)

  unfoldable pub collect_udp_ipv6 : ℕ → List Connection → List Connection
  unfolding read_table udp_connection ipv6_to_string
  collect_udp_ipv6 now connections =
      connections ++ map (udp_connection ipv6_to_string now) (read_table w w.udp6)

  unfoldable pub get_active_connections : ℕ → List Connection
  unfolding collect_tcp_ipv4 collect_tcp_ipv6 collect_udp_ipv4 collect_udp_ipv6
  get_active_connections now =
      collect_udp_ipv6 now (collect_udp_ipv4 now (collect_tcp_ipv6 now (collect_tcp_ipv4 now [])))

-- A snapshot with an empty process name.
abbrev pub snapshot_of : Connection → ℕ → ℕ → ConnectionTransferSnapshot
snapshot_of connection bytes_sent bytes_received = record {
  connection = connection;
  bytes_sent = bytes_sent;
  bytes_received = bytes_received;
  process_name = [];
}

module _ (w : Windows) where
  unfoldable pub collect_tcp_ipv4_snapshots :
      ℕ → List ConnectionTransferSnapshot → List ConnectionTransferSnapshot
  unfolding read_table tcp4_connection read_tcp4_estats
  collect_tcp_ipv4_snapshots now snapshots =
      snapshots
      ++ map
          (λ row.
            let (_, sent, received) = read_tcp4_estats w row in
            snapshot_of (tcp4_connection w now row) sent received)
          (read_table w w.tcp4)

  unfoldable pub collect_tcp_ipv6_snapshots :
      ℕ → List ConnectionTransferSnapshot → List ConnectionTransferSnapshot
  unfolding read_table tcp6_connection read_tcp6_estats
  collect_tcp_ipv6_snapshots now snapshots =
      snapshots
      ++ map
          (λ row.
            let (_, sent, received) = read_tcp6_estats w row in
            snapshot_of (tcp6_connection w now row) sent received)
          (read_table w w.tcp6)

  unfoldable pub append_zero_counter_snapshots :
      List ConnectionTransferSnapshot → List Connection → List ConnectionTransferSnapshot
  append_zero_counter_snapshots snapshots connections =
      snapshots ++ map (λ connection. snapshot_of connection 0 0) connections

  unfoldable pub get_connection_transfer_snapshots : ℕ → List ConnectionTransferSnapshot
  unfolding collect_tcp_ipv4_snapshots collect_tcp_ipv6_snapshots collect_udp_ipv4 collect_udp_ipv6
      append_zero_counter_snapshots
  get_connection_transfer_snapshots now =
      let snapshots = collect_tcp_ipv6_snapshots now (collect_tcp_ipv4_snapshots now []) in
      let udp_endpoints = collect_udp_ipv6 w now (collect_udp_ipv4 w now []) in
      append_zero_counter_snapshots snapshots udp_endpoints
