-- ===== src/Network/ConnectionTracker.antt =====
-- src/network/tracker/ConnectionTracker.h and .cpp. The clock's reading and the order in which the
-- loops visit the maps are arguments of `update`.
pub mod Laws
mod Tests
use data_exfiltration_detect.Common.{ℕ, List, [], ◌++◌, Bool, true, false, if◌then◌else◌}
use data_exfiltration_detect.Common.Text.{Text, text_discrete}
use data_exfiltration_detect.Common.Maps.{Visit}
use data_exfiltration_detect.Common.Snapshots.{Pass, start, scan_rows, missing_from}
use data_exfiltration_detect.Network.Types.{
  Connection, ConnectionEvent, ConnectionEventType, make_key,
}

pub record ConnectionTracker : Type 0 where
  pub active_connections : List (Text × Connection)
  pub seeded : Bool

abbrev pub created_event : ℕ → Connection → ConnectionEvent
created_event now c = record { type = ConnectionEventType.created; connection = c; timestamp = now }

abbrev pub closed_event : ℕ → Connection → ConnectionEvent
closed_event now c = record { type = ConnectionEventType.closed; connection = c; timestamp = now }

-- The loop over the snapshot: the first row with each key.
pub next_active : List Connection → List (Text × Connection)
unfolding scan_rows text_discrete make_key
next_active current = (scan_rows text_discrete make_key (λ (c : Connection). c) start current).next

pub update :
    Visit Text → ℕ → ConnectionTracker → List Connection → ConnectionTracker × List ConnectionEvent
unfolding next_active missing_from
update order now t current =
    let next = next_active current in
    if t.seeded
    then (
      record { active_connections = next; seeded = true },
      missing_from text_discrete t.active_connections (created_event now) (order.visit next)
          ++ missing_from text_discrete next (closed_event now) (order.visit t.active_connections),
    )
    else (record { active_connections = next; seeded = true }, [])

pub reset : ConnectionTracker → ConnectionTracker
reset t = record { active_connections = []; seeded = false }
