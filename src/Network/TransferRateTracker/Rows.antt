-- ===== src/Network/TransferRateTracker/Rows.antt =====
-- TransferRateTracker.cpp, the loop of `update` over the snapshots: what is tracked of each row, and
-- what it notes of the row's process.
use mathlib.Core.List.{lookup}
use data_exfiltration_detect.Common.{
  ℕ, ◌+◌, ◌%◌, ◌^◌, List, [], ◌∷◌, Bool, none, some, ◌==◌, ltb, is_empty, ℕ_discrete, if◌then◌else◌,
}
use data_exfiltration_detect.Common.Text.{Text, text_discrete}
use data_exfiltration_detect.Common.Maps.{contains, assign}
use data_exfiltration_detect.Common.Snapshots.{Pass, start, admit}
use data_exfiltration_detect.Network.Floats.{Floats}
use data_exfiltration_detect.Network.Types.{ConnectionTransferSnapshot, make_key}
use data_exfiltration_detect.Network.TransferRateTracker.State.{
  TrackedTransfer, TransferRateTracker, compute_delta, compute_rate,
}

unfoldable pub row_key : ConnectionTransferSnapshot → Text
unfolding make_key
row_key row = make_key row.connection

-- The time of a row, or the clock's reading where the row has none.
unfoldable pub row_time : ℕ → ConnectionTransferSnapshot → ℕ
row_time now row = if row.connection.timestamp == 0 then now else row.connection.timestamp

-- The loop's local variables and the two maps of the tracker that it writes to.
pub record Scan (Double : Type 0) : Type 0 where
  pub pass : Pass Text (TrackedTransfer Double)
  pub names : List (ℕ × Text)
  pub first : List (ℕ × ℕ)

-- `if (!tracked.processName.empty()) processNames_[pid] = tracked.processName;`
unfoldable pub note_name :
    {Double : Type 0} → TrackedTransfer Double → List (ℕ × Text) → List (ℕ × Text)
unfolding assign ℕ_discrete
note_name tracked names =
    if is_empty tracked.process_name
    then names
    else assign ℕ_discrete tracked.connection.process_id tracked.process_name names

-- `if (firstSeen == end() || time < firstSeen->second) processFirstObserved_[pid] = time;`
unfoldable pub note_first : ℕ → ℕ → List (ℕ × ℕ) → List (ℕ × ℕ)
unfolding assign lookup ℕ_discrete
note_first pid time first = elim (lookup ℕ_discrete pid first) [
  | none ↦ assign ℕ_discrete pid time first
  | some seen ↦ if ltb time seen then assign ℕ_discrete pid time first else first
]

module _ {Double : Type 0} (f : Floats Double) where
  -- The row of a connection that was not tracked.
  unfoldable pub first_track : ℕ → ConnectionTransferSnapshot → TrackedTransfer Double
  unfolding row_time
  first_track now row = record {
    connection = row.connection;
    process_name = row.process_name;
    baseline_bytes_sent = row.bytes_sent;
    baseline_bytes_received = row.bytes_received;
    cumulative_uploaded_bytes = 0;
    cumulative_downloaded_bytes = 0;
    upload_rate_bps = f.zero;
    download_rate_bps = f.zero;
    first_observed = row_time now row;
    last_updated = row_time now row;
  }

  -- `safeElapsed`: the time between two updates, or zero where it is not above the least.
  unfoldable pub safe_elapsed : ℕ → ℕ → Double
  safe_elapsed before after =
      let elapsed_seconds = f.seconds before after in
      if f.greater elapsed_seconds f.nano then elapsed_seconds else f.zero

  -- The row of a connection that was tracked. A tracker that is not seeded leaves the rates at 0.
  unfoldable pub next_track :
      Bool → ℕ → TrackedTransfer Double → ConnectionTransferSnapshot → TrackedTransfer Double
  unfolding row_time compute_delta compute_rate safe_elapsed
  next_track seeded now existing row =
      let upload_delta = compute_delta existing.baseline_bytes_sent row.bytes_sent in
      let download_delta = compute_delta existing.baseline_bytes_received row.bytes_received in
      let elapsed = safe_elapsed existing.last_updated (row_time now row) in
      record {
        connection = row.connection;
        process_name =
            if is_empty row.process_name then existing.process_name else row.process_name;
        baseline_bytes_sent = row.bytes_sent;
        baseline_bytes_received = row.bytes_received;
        cumulative_uploaded_bytes =
            if seeded
            then (existing.cumulative_uploaded_bytes + upload_delta) % 2 ^ 64
            else existing.cumulative_uploaded_bytes;
        cumulative_downloaded_bytes =
            if seeded
            then (existing.cumulative_downloaded_bytes + download_delta) % 2 ^ 64
            else existing.cumulative_downloaded_bytes;
        upload_rate_bps = if seeded then compute_rate f upload_delta elapsed else f.zero;
        download_rate_bps = if seeded then compute_rate f download_delta elapsed else f.zero;
        first_observed = existing.first_observed;
        last_updated = row_time now row;
      }

  -- What the loop builds of a row.
  unfoldable pub track :
      TransferRateTracker Double → ℕ → ConnectionTransferSnapshot → TrackedTransfer Double
  unfolding lookup text_discrete row_key first_track next_track
  track t now row = elim (lookup text_discrete (row_key row) t.active_transfers) [
    | none ↦ first_track now row
    | some existing ↦ next_track t.seeded now existing row
  ]

  -- The body of the loop: a row whose key was seen is skipped.
  unfoldable pub scan_row :
      TransferRateTracker Double → ℕ → Scan Double → ConnectionTransferSnapshot → Scan Double
  unfolding contains admit text_discrete row_key track note_name note_first
  scan_row t now s row =
      let tracked = track t now row in
      if contains text_discrete (row_key row) s.pass.seen then s else record {
        pass = admit text_discrete (row_key row) tracked s.pass;
        names = note_name tracked s.names;
        first = note_first tracked.connection.process_id tracked.first_observed s.first;
      }

  unfoldable pub scan_loop :
      TransferRateTracker Double → ℕ → Scan Double → List ConnectionTransferSnapshot → Scan Double
  unfolding scan_row
  scan_loop t now s [] = s
  scan_loop t now s (row ∷ rows) = scan_loop t now (scan_row t now s row) rows

  unfoldable pub scan :
      TransferRateTracker Double → ℕ → List ConnectionTransferSnapshot → Scan Double
  unfolding scan_loop
  scan t now rows =
      scan_loop t now
        (record { pass = start; names = t.process_names; first = t.process_first_observed }) rows
