-- ===== src/Network/NetworkMonitor/Laws.antt =====
-- NetworkMonitor.cpp: the two views of the operating system's tables agree, and which counters are
-- zero.
use mathlib.Core.List.{map-append, map-map, append_assoc}
use data_exfiltration_detect.Common.{
  ℕ, ◌≡◌, ◌≢◌, ◌⊎◌, refl, List, [], ◌∷◌, ◌++◌, map, inl, inr, Bool-cases, arith, ◌==◌,
}
use data_exfiltration_detect.Network.Types.{
  ProtocolType, ConnectionState, Connection, ConnectionTransferSnapshot,
}
use data_exfiltration_detect.Network.NetworkMonitor.{
  snapshot_of, Windows, Tcp4Row, Tcp6Row, read_table, to_connection_state, has_no_estats,
  read_tcp4_estats, read_tcp6_estats, tcp4_connection, tcp6_connection, collect_tcp_ipv4,
  collect_tcp_ipv6, collect_udp_ipv4, collect_udp_ipv6, get_active_connections,
  collect_tcp_ipv4_snapshots, collect_tcp_ipv6_snapshots, append_zero_counter_snapshots,
  get_connection_transfer_snapshots,
}

abbrev pub connection_of : ConnectionTransferSnapshot → Connection
connection_of s = s.connection

-- If the operating system answers both calls alike, the transfer snapshots are of exactly the
-- active connections, in their order.
pub connections-get_connection_transfer_snapshots :
    (w : Windows) (now : ℕ)
    → map connection_of (get_connection_transfer_snapshots w now) ≡ get_active_connections w now
unfolding get_connection_transfer_snapshots get_active_connections collect_tcp_ipv4 collect_tcp_ipv6
    collect_udp_ipv4 collect_udp_ipv6 collect_tcp_ipv4_snapshots collect_tcp_ipv6_snapshots
    append_zero_counter_snapshots
connections-get_connection_transfer_snapshots w now = simp (map-append, map-map, append_assoc)

-- The operating system's states are told apart.
pub record HasDistinctStates (w : Windows) : Type 0 where
  pub listen-estab : w.state_estab ≢ w.state_listen
  pub listen-close_wait : w.state_close_wait ≢ w.state_listen
  pub estab-close_wait : w.state_close_wait ≢ w.state_estab
  pub time_wait-close_wait : w.state_close_wait ≢ w.state_time_wait

-- No counter of a snapshot is above zero, unless it is of a TCP connection that is established or
-- waits to close.
abbrev pub IsQuiet : ConnectionTransferSnapshot → Type 0
IsQuiet s =
    ((s.connection.protocol ≡ ProtocolType.tcp)
      × ((s.connection.state ≡ ConnectionState.established)
          ⊎ (s.connection.state ≡ ConnectionState.close_wait)))
    ⊎ ((s.bytes_sent ≡ 0) × (s.bytes_received ≡ 0))

abbrev pub AreQuiet : List ConnectionTransferSnapshot → Type 0
AreQuiet [] = Unit {0}
AreQuiet (s ∷ snapshots) = IsQuiet s × AreQuiet snapshots

AreQuiet-append :
    (xs ys : List ConnectionTransferSnapshot) → AreQuiet xs → AreQuiet ys → AreQuiet (xs ++ ys)
AreQuiet-append [] ys hx hy = hy
AreQuiet-append (x ∷ xs) ys hx hy = (hx.0, AreQuiet-append xs ys hx.1 hy)

AreQuiet-map :
    {Row : Type 0} (build : Row → ConnectionTransferSnapshot)
    → ((row : Row) → IsQuiet (build row))
    → (rows : List Row) → AreQuiet (map build rows)
AreQuiet-map build h [] = tt
AreQuiet-map build h (row ∷ rows) = (h row, AreQuiet-map build h rows)

module _ (w : Windows) (distinct : HasDistinctStates w) (now : ℕ) where
  quiet4 :
      (row : Tcp4Row)
      → let r = read_tcp4_estats w row in IsQuiet (snapshot_of (tcp4_connection w now row) r.1 r.2)
  unfolding read_tcp4_estats tcp4_connection has_no_estats to_connection_state
  quiet4 row = elim (Bool-cases (row.state == w.state_estab)) [
    | inl e ↦ inl (refl, inl (ground (arith, e, distinct.listen-estab)))
    | inr e ↦ elim (Bool-cases (row.state == w.state_close_wait)) [
      | inl f ↦ inl (refl, inr (ground (arith, e, f, distinct)))
      | inr f ↦ inr (ground (arith, e, f))
    ]
  ]

  quiet6 :
      (row : Tcp6Row)
      → let r = read_tcp6_estats w row in IsQuiet (snapshot_of (tcp6_connection w now row) r.1 r.2)
  unfolding read_tcp6_estats tcp6_connection has_no_estats to_connection_state
  quiet6 row = elim (Bool-cases (row.state == w.state_estab)) [
    | inl e ↦ inl (refl, inl (ground (arith, e, distinct.listen-estab)))
    | inr e ↦ elim (Bool-cases (row.state == w.state_close_wait)) [
      | inl f ↦ inl (refl, inr (ground (arith, e, f, distinct)))
      | inr f ↦ inr (ground (arith, e, f))
    ]
  ]

  -- Where the operating system tells its connection states apart, every transfer snapshot is of a
  -- TCP connection that is established or waits to close, or it has zero counters: of no other
  -- state, and of no UDP endpoint, are bytes ever reported.
  pub get_connection_transfer_snapshots-AreQuiet :
      AreQuiet (get_connection_transfer_snapshots w now)
  unfolding get_connection_transfer_snapshots collect_tcp_ipv4_snapshots collect_tcp_ipv6_snapshots
      append_zero_counter_snapshots
  get_connection_transfer_snapshots-AreQuiet =
      AreQuiet-append _ _
        (AreQuiet-append _ _ (AreQuiet-map _ quiet4 (read_table w w.tcp4))
          (AreQuiet-map _ quiet6 (read_table w w.tcp6)))
        (AreQuiet-map (λ c. snapshot_of c 0 0) (λ c. inr (refl, refl))
          (collect_udp_ipv6 w now (collect_udp_ipv4 w now [])))
