-- ===== src/Network/ConnectionTracker/Tests.antt =====
-- The tracker on two snapshots: one connection goes and one appears.
use data_exfiltration_detect.Common.{ℕ, ◌≡◌, refl, ◌↔◌, ◌∨₁◌, arith, List, [], ◌∷◌, Mem, false}
use data_exfiltration_detect.Common.Text.{codes}
use data_exfiltration_detect.Common.Maps.{in_order}
use data_exfiltration_detect.Network.Types.{
  Connection, ConnectionState, ProtocolType, make_key, SameIdentity, make_key-eq_iff,
}
use data_exfiltration_detect.Network.ConnectionTracker.{
  ConnectionTracker, created_event, closed_event, update,
}
use data_exfiltration_detect.Network.ConnectionTracker.Laws.{
  update-IsValid, Created, Closed, mem-update_connections_iff,
}

abbrev connection_at : ℕ → Connection
connection_at port = record {
  process_id = 7;
  local_address = codes "10.0.0.5";
  local_port = port;
  remote_address = codes "93.184.216.34";
  remote_port = 443;
  protocol = ProtocolType.tcp;
  state = ConnectionState.established;
  timestamp = 100;
}

abbrev fresh : ConnectionTracker
fresh = record { active_connections = []; seeded = false }

abbrev seeded_tracker : ConnectionTracker
seeded_tracker = (update in_order 100 fresh (connection_at 50000 ∷ [])).0

abbrev later_rows : List Connection
later_rows = connection_at 50001 ∷ connection_at 50001 ∷ []

two_events :
    (update in_order 200 seeded_tracker later_rows).1
    ≡ created_event 200 (connection_at 50001) ∷ closed_event 200 (connection_at 50000) ∷ []
unfolding update
two_events = refl

mem-update_connections_iff_example :
    let r = update in_order 200 seeded_tracker later_rows in
    Mem (created_event 200 (connection_at 50001)) r.1 ↔ (
      Created 200 seeded_tracker r.0 (created_event 200 (connection_at 50001))
      ∨₁ Closed 200 seeded_tracker r.0 (created_event 200 (connection_at 50001)))
unfolding update
mem-update_connections_iff_example =
    mem-update_connections_iff in_order 200 seeded_tracker later_rows refl
      (update-IsValid in_order 100 fresh (connection_at 50000 ∷ []))
      (created_event 200 (connection_at 50001))

make_key-eq_iff_example :
    (make_key (connection_at 50000) ≡ make_key (connection_at 50001))
    ↔ SameIdentity (connection_at 50000) (connection_at 50001)
make_key-eq_iff_example =
    make_key-eq_iff (connection_at 50000) (connection_at 50001) (ground arith, ground arith)
      (ground arith, ground arith)
