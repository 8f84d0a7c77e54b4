-- ===== src/Network/UploadTracker.antt =====
-- src/network/tracker/UploadTracker.h and .cpp. The clock's reading and the order in which the loops
-- visit the maps are arguments of `update`. `makeKey` is the one of ConnectionTracker.cpp, and the
-- byte counters are numbers below `2 ^ 64`: the sum of a total and an increase wraps around.
pub mod Laws
pub mod Totals
mod Tests
use mathlib.Core.List.{lookup}
use data_exfiltration_detect.Common.{
  ℕ, ◌+◌, ◌-◌, ◌%◌, ◌^◌, List, [], Bool, true, false, Option, none, some, ◌==◌, leb, if◌then◌else◌,
  is_empty,
}
use data_exfiltration_detect.Common.Text.{Text, text_discrete}
use data_exfiltration_detect.Common.Maps.{Visit}
use data_exfiltration_detect.Common.Snapshots.{start, scan_rows}
use data_exfiltration_detect.Common.Statistics.{record_missing, publish}
use data_exfiltration_detect.Network.Types.{Connection, ConnectionTransferSnapshot, make_key}
use data_exfiltration_detect.Network.TransferStats.{ConnectionUploadStats}

pub record TrackedUpload : Type 0 where
  pub connection : Connection
  pub process_name : Text
  pub baseline_bytes_sent : ℕ
  pub cumulative_uploaded_bytes : ℕ
  pub first_observed : ℕ
  pub last_updated : ℕ

pub record UploadTracker : Type 0 where
  pub active_uploads : List (Text × TrackedUpload)
  pub active_upload_stats : List (Text × ConnectionUploadStats)
  pub closed_upload_stats : List (Text × ConnectionUploadStats)
  pub seeded : Bool

unfoldable pub compute_delta : ℕ → ℕ → ℕ
compute_delta previous_counter current_counter =
    if leb previous_counter current_counter
    then current_counter - previous_counter
    else current_counter

unfoldable pub to_stats : Bool → TrackedUpload → ConnectionUploadStats
to_stats is_active tracked = record {
  process_id = tracked.connection.process_id;
  process_name = tracked.process_name;
  remote_address = tracked.connection.remote_address;
  remote_port = tracked.connection.remote_port;
  protocol = tracked.connection.protocol;
  uploaded_bytes = tracked.cumulative_uploaded_bytes;
  first_observed = tracked.first_observed;
  last_updated = tracked.last_updated;
  is_active = is_active;
}

-- The time of a row, or the clock's reading where the row has none.
unfoldable pub row_time : ℕ → ConnectionTransferSnapshot → ℕ
row_time now row = if row.connection.timestamp == 0 then now else row.connection.timestamp

-- The row of a connection that was not tracked.
unfoldable pub first_track : ℕ → ConnectionTransferSnapshot → TrackedUpload
unfolding row_time
first_track now row = record {
  connection = row.connection;
  process_name = row.process_name;
  baseline_bytes_sent = row.bytes_sent;
  cumulative_uploaded_bytes = 0;
  first_observed = row_time now row;
  last_updated = row_time now row;
}

-- The row of a connection that was tracked.
unfoldable pub next_track : Bool → ℕ → TrackedUpload → ConnectionTransferSnapshot → TrackedUpload
unfolding row_time compute_delta
next_track seeded now existing row = record {
  connection = row.connection;
  process_name = if is_empty row.process_name then existing.process_name else row.process_name;
  baseline_bytes_sent = row.bytes_sent;
  cumulative_uploaded_bytes =
      if seeded
      then (existing.cumulative_uploaded_bytes
          + compute_delta existing.baseline_bytes_sent row.bytes_sent)
        % 2 ^ 64
      else existing.cumulative_uploaded_bytes;
  first_observed = existing.first_observed;
  last_updated = row_time now row;
}

unfoldable pub row_key : ConnectionTransferSnapshot → Text
unfolding make_key
row_key row = make_key row.connection

-- What the loop over the snapshots builds of a row.
unfoldable pub track : UploadTracker → ℕ → ConnectionTransferSnapshot → TrackedUpload
unfolding lookup text_discrete row_key first_track next_track
track t now row = elim (lookup text_discrete (row_key row) t.active_uploads) [
  | none ↦ first_track now row
  | some existing ↦ next_track t.seeded now existing row
]

-- The loop over the snapshots: the first row with each key.
unfoldable pub next_active :
    UploadTracker → ℕ → List ConnectionTransferSnapshot → List (Text × TrackedUpload)
unfolding scan_rows text_discrete row_key track
next_active t now rows = (scan_rows text_discrete row_key (track t now) start rows).next

unfoldable pub update :
    Visit Text
    → ℕ
    → UploadTracker
    → List ConnectionTransferSnapshot
    → UploadTracker × List ConnectionUploadStats
unfolding next_active record_missing publish text_discrete to_stats
update order now t snapshots =
    let next = next_active t now snapshots in
    let published = publish text_discrete (to_stats true) [] (order.visit next) in
    let closed =
      if t.seeded
      then record_missing text_discrete next (to_stats false) t.closed_upload_stats
          (order.visit t.active_uploads)
      else t.closed_upload_stats in
    (
      record {
        active_uploads = next;
        active_upload_stats = published.0;
        closed_upload_stats = closed;
        seeded = true;
      },
      published.1,
    )

unfoldable pub reset : UploadTracker → UploadTracker
reset t = record {
  active_uploads = [];
  active_upload_stats = [];
  closed_upload_stats = [];
  seeded = false;
}
