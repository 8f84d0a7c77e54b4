-- ===== src/Network/TransferRateTracker/Tests.antt =====
-- The tracker on a process with two connections, one of which closes.
use mathlib.Core.List.{lookup}
use mathlib.Core.Option
use native.Mathlib.Nat.{ℕ_set}
use data_exfiltration_detect.Common.{
  ℕ, ◌+◌, ◌*◌, ◌%◌, ◌^◌, ◌≡◌, ◌≢◌, refl, List, [], ◌∷◌, map, Perm, none, some, true, false, ◌==◌,
  if◌then◌else◌, arith,
}
use data_exfiltration_detect.Common.Text.{Text, codes, text_discrete}
use data_exfiltration_detect.Common.Maps.{in_order}
use data_exfiltration_detect.Common.Snapshots.{first_row}
use data_exfiltration_detect.Common.Statistics.{closing}
use data_exfiltration_detect.Common.Sums.{sum_by}
use data_exfiltration_detect.Network.Floats.{whole_floats, whole_floats-HasOrder}
use data_exfiltration_detect.Network.Types.{
  ConnectionState, ProtocolType, ConnectionTransferSnapshot,
}
use data_exfiltration_detect.Network.BandwidthStats.{ProcessBandwidthStats}
use data_exfiltration_detect.Network.TransferRateTracker.State.{
  TrackedTransfer, TransferRateTracker, compute_delta, reset,
}
use data_exfiltration_detect.Network.TransferRateTracker.Rows.{
  row_key, row_time, first_track, track,
}
use data_exfiltration_detect.Network.TransferRateTracker.Aggregates.{rebuild_process_stats}
use data_exfiltration_detect.Network.TransferRateTracker.Updates.{update, update_connections}
use data_exfiltration_detect.Network.TransferRateTracker.Connections.{
  row_of, tracked, active_stats, closed_stats,
}
use data_exfiltration_detect.Network.TransferRateTracker.Totals.{total, one_each}
use data_exfiltration_detect.Network.TransferRateTracker.Processes.{
  active_process, closed_process, numbers,
}
use data_exfiltration_detect.Network.TransferRateTracker.Invariant.{
  IsValid, reset-IsValid, update-IsValid,
}
use data_exfiltration_detect.Network.TransferRateTracker.Sessions.{
  session_uploaded, session_downloaded, sent_counter, received_counter, grown_between,
  active_process-update, session_bytes-update,
}
use data_exfiltration_detect.Network.TransferRateTracker.Reports.{
  rate, rates-update, active_transfers-update, live_stats, final_stats_of,
}
use data_exfiltration_detect.Network.TransferRateTracker.Finals.{closed_process-update}
use data_exfiltration_detect.Network.TransferRateTracker.Refinement.{
  Agreement, run_rates, run_uploads, run_downloads, reset-Agreement, run-Agreement,
}
use data_exfiltration_detect.Network.UploadTracker
use data_exfiltration_detect.Network.UploadTracker.{UploadTracker}
use data_exfiltration_detect.Network.DownloadTracker
use data_exfiltration_detect.Network.DownloadTracker.{DownloadTracker}

abbrev row : ℕ → ℕ → ℕ → ConnectionTransferSnapshot
row port time bytes = record {
  connection = record {
    process_id = 7;
    local_address = codes "10.0.0.5";
    local_port = port;
    remote_address = codes "93.184.216.34";
    remote_port = 443;
    protocol = ProtocolType.tcp;
    state = ConnectionState.established;
    timestamp = time;
  };
  bytes_sent = bytes;
  bytes_received = 2 * bytes;
  process_name = codes "curl";
}

abbrev blank : TransferRateTracker ℕ
blank = record {
  active_transfers = [];
  active_connection_stats = [];
  closed_connection_stats = [];
  active_process_stats = [];
  closed_process_stats = [];
  closed_uploaded_by_process = [];
  closed_downloaded_by_process = [];
  process_names = [];
  process_first_observed = [];
  seeded = false;
}

next : ℕ → TransferRateTracker ℕ → List ConnectionTransferSnapshot → TransferRateTracker ℕ
unfolding update
next now t rows = (update whole_floats in_order in_order now t rows).0

two_rows : List ConnectionTransferSnapshot
two_rows = row 50000 100 1000 ∷ row 50001 100 500 ∷ []

seeded_tracker : TransferRateTracker ℕ
unfolding next two_rows
seeded_tracker = next 100 (reset blank) two_rows

seeded_tracker-seeded : seeded_tracker.seeded ≡ true
unfolding seeded_tracker next update_connections rebuild_process_stats
seeded_tracker-seeded = refl

seeded_tracker-IsValid : IsValid seeded_tracker
unfolding seeded_tracker next
seeded_tracker-IsValid =
    update-IsValid whole_floats ℕ_set in_order in_order 100 (reset blank) two_rows
      (reset-IsValid blank)

-- One connection sends 300 bytes in 3 seconds, the other closes; then the first closes.
later_rows : List ConnectionTransferSnapshot
later_rows = row 50000 103 1300 ∷ []

uploads_and_rate : ProcessBandwidthStats ℕ → ℕ × ℕ × ℕ
uploads_and_rate s = (s.uploaded_bytes, s.upload_rate_bps, s.active_connection_count)

runs :
    let r = next 103 seeded_tracker later_rows in
    let r' = next 105 r [] in
    (Option.map uploads_and_rate (active_process r 7) ≡ some (300, 100, 1))
    × (active_process r' 7 ≡ none)
    × (Option.map uploads_and_rate (closed_process r' 7) ≡ some (300, 0, 0))
unfolding next seeded_tracker two_rows later_rows reset uploads_and_rate
runs = (refl, refl, refl)

active_process-update_example :
    let r = (update whole_floats in_order in_order 103 seeded_tracker later_rows).0 in
    Option.map numbers (active_process r 7) ≡ (
      if total one_each 7 r.active_transfers == 0
      then none
      else some (
        7,
        session_uploaded r 7 % 2 ^ 64,
        session_downloaded r 7 % 2 ^ 64,
        total one_each 7 r.active_transfers % 2 ^ 64,
      ))
active_process-update_example =
    active_process-update whole_floats ℕ_set in_order in_order 103 seeded_tracker later_rows 7

session_bytes-update_example :
    let r = (update whole_floats in_order in_order 103 seeded_tracker later_rows).0 in
    (session_uploaded r 7 % 2 ^ 64
      ≡ (session_uploaded seeded_tracker 7 + grown_between sent_counter seeded_tracker r 7)
        % 2 ^ 64)
    × (session_downloaded r 7 % 2 ^ 64
        ≡ (session_downloaded seeded_tracker 7 + grown_between received_counter seeded_tracker r 7)
          % 2 ^ 64)
session_bytes-update_example =
    session_bytes-update whole_floats ℕ_set in_order in_order 103 seeded_tracker later_rows 7
      seeded_tracker-seeded seeded_tracker-IsValid

update-IsValid_example :
    IsValid (update whole_floats in_order in_order 103 seeded_tracker later_rows).0
update-IsValid_example =
    update-IsValid whole_floats ℕ_set in_order in_order 103 seeded_tracker later_rows
      seeded_tracker-IsValid

first_connection : TrackedTransfer ℕ
first_connection = first_track whole_floats 100 (row 50000 100 1000)

first_connection-held :
    tracked seeded_tracker (row_key (row 50000 100 1000)) ≡ some first_connection
unfolding seeded_tracker next two_rows reset first_connection lookup row_key text_discrete
first_connection-held = refl

row_of-later : row_of (row_key (row 50000 100 1000)) later_rows ≡ some (row 50000 103 1300)
unfolding later_rows row_key first_row text_discrete
row_of-later = refl

rates-update_example :
    (v : TrackedTransfer ℕ) × (tracked
        (update whole_floats in_order in_order 103 seeded_tracker later_rows).0
        (row_key (row 50000 100 1000))
      ≡ some v)
    × (v.upload_rate_bps
        ≡ rate whole_floats
            (compute_delta first_connection.baseline_bytes_sent 1300)
            first_connection.last_updated
            (row_time 103 (row 50000 103 1300)))
    × (v.download_rate_bps
        ≡ rate whole_floats
            (compute_delta first_connection.baseline_bytes_received 2600)
            first_connection.last_updated
            (row_time 103 (row 50000 103 1300)))
rates-update_example =
    rates-update whole_floats ℕ_set in_order in_order 103 seeded_tracker later_rows
      (row_key (row 50000 100 1000)) first_connection (row 50000 103 1300) whole_floats-HasOrder
      seeded_tracker-seeded first_connection-held row_of-later

active_transfers-update_example :
    let r = update whole_floats in_order in_order 103 seeded_tracker later_rows in
    ((k : Text)
      → tracked r.0 k ≡ Option.map (track whole_floats seeded_tracker 103) (row_of k later_rows))
    × ((k : Text) → active_stats r.0 k ≡ Option.map (live_stats whole_floats) (tracked r.0 k))
    × ((k : Text)
        → closed_stats r.0 k
          ≡ closing
              (final_stats_of whole_floats)
              (tracked r.0 k)
              (tracked seeded_tracker k)
              (closed_stats seeded_tracker k))
    × Perm r.1
        (map (λ (e : Text × TrackedTransfer ℕ). live_stats whole_floats e.1) r.0.active_transfers)
active_transfers-update_example =
    active_transfers-update whole_floats ℕ_set in_order in_order 103 seeded_tracker later_rows
      seeded_tracker-seeded seeded_tracker-IsValid

two_tracked : total one_each 7 seeded_tracker.active_transfers ≡ 2
unfolding seeded_tracker next two_rows reset sum_by
two_tracked = refl

two_connections : total one_each 7 seeded_tracker.active_transfers ≢ 0
two_connections h = omega (arith, two_tracked)

none_left :
    total one_each 7
      (update whole_floats in_order in_order 105 seeded_tracker []).0.active_transfers
    ≡ 0
unfolding update update_connections rebuild_process_stats sum_by
none_left = refl

closed_process-update_example :
    let r = (update whole_floats in_order in_order 105 seeded_tracker []).0 in
    (s : ProcessBandwidthStats ℕ) × (closed_process r 7 ≡ some s)
    × (active_process r 7 ≡ none)
    × (s.uploaded_bytes % 2 ^ 64 ≡ session_uploaded seeded_tracker 7 % 2 ^ 64)
    × (s.downloaded_bytes % 2 ^ 64 ≡ session_downloaded seeded_tracker 7 % 2 ^ 64)
    × (s.upload_rate_bps ≡ 0)
    × (s.download_rate_bps ≡ 0)
    × (s.active_connection_count ≡ 0)
closed_process-update_example =
    closed_process-update whole_floats ℕ_set in_order 105 seeded_tracker [] seeded_tracker-IsValid 7
      in_order seeded_tracker-seeded two_connections none_left

blank_uploads : UploadTracker
blank_uploads = record {
  active_uploads = [];
  active_upload_stats = [];
  closed_upload_stats = [];
  seeded = false;
}

blank_downloads : DownloadTracker
blank_downloads = record {
  active_downloads = [];
  active_download_stats = [];
  closed_download_stats = [];
  seeded = false;
}

steps : List (ℕ × List ConnectionTransferSnapshot)
steps = (100, two_rows) ∷ (103, later_rows) ∷ []

run-Agreement_example :
    Agreement
      (run_rates whole_floats in_order in_order (reset blank) steps)
      (run_uploads in_order (UploadTracker.reset blank_uploads) steps)
      (run_downloads in_order (DownloadTracker.reset blank_downloads) steps)
run-Agreement_example =
    run-Agreement whole_floats ℕ_set in_order in_order steps (reset blank)
      (UploadTracker.reset blank_uploads) (DownloadTracker.reset blank_downloads)
      (reset-Agreement blank blank_uploads blank_downloads)
