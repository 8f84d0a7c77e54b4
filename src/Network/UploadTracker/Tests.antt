-- ===== src/Network/UploadTracker/Tests.antt =====
-- The tracker on three snapshots of one connection, whose counter rises from 100 to 250 and 400.
use mathlib.Core.List.{lookup, Nodup-nil, Nodup-cons, not-mem-nil}
use data_exfiltration_detect.Common.{
  ℕ, ◌+◌, ◌≡◌, refl, List, [], ◌∷◌, map, Perm, true, false, some, arith,
}
use data_exfiltration_detect.Common.Text.{Text, text_discrete, codes}
use data_exfiltration_detect.Common.Maps.{in_order}
use data_exfiltration_detect.Common.Snapshots.{first_row}
use data_exfiltration_detect.Common.Statistics.{closing}
use data_exfiltration_detect.Network.Types.{
  ConnectionState, ProtocolType, ConnectionTransferSnapshot,
}
use mathlib.Core.Option
use data_exfiltration_detect.Network.UploadTracker.{
  TrackedUpload, UploadTracker, compute_delta, row_key, first_track, track, update,
}
use data_exfiltration_detect.Network.UploadTracker.Laws.{
  row_of, tracked, active_stats, closed_stats, active_uploads-update, reported,
}
use data_exfiltration_detect.Network.UploadTracker.Totals.{
  run, last_counter, Rises, cumulative_uploaded_bytes-run,
}

abbrev sent : ℕ → ConnectionTransferSnapshot
sent bytes = record {
  connection = record {
    process_id = 7;
    local_address = codes "10.0.0.5";
    local_port = 50000;
    remote_address = codes "93.184.216.34";
    remote_port = 443;
    protocol = ProtocolType.tcp;
    state = ConnectionState.established;
    timestamp = 100;
  };
  bytes_sent = bytes;
  bytes_received = bytes;
  process_name = codes "curl";
}

abbrev seeded_tracker : UploadTracker
seeded_tracker = record {
  active_uploads = (row_key (sent 100), first_track 100 (sent 100)) ∷ [];
  active_upload_stats = [];
  closed_upload_stats = [];
  seeded = true;
}

abbrev steps : List (ℕ × List ConnectionTransferSnapshot)
steps = (200, sent 250 ∷ []) ∷ (300, sent 400 ∷ []) ∷ []

delta_rises : compute_delta 100 250 ≡ 150
unfolding compute_delta
delta_rises = refl

delta_after_reset : compute_delta 250 40 ≡ 40
unfolding compute_delta
delta_after_reset = refl

active_uploads-update_example :
    let r = update in_order 200 seeded_tracker (sent 250 ∷ []) in
    ((k : Text) → tracked r.0 k ≡ Option.map (track seeded_tracker 200) (row_of k (sent 250 ∷ [])))
    × ((k : Text) → active_stats r.0 k ≡ Option.map (reported true) (tracked r.0 k))
    × ((k : Text)
        → closed_stats r.0 k
          ≡ closing
              (reported false)
              (tracked r.0 k)
              (tracked seeded_tracker k)
              (closed_stats seeded_tracker k))
    × Perm r.1 (map (λ (e : Text × TrackedUpload). reported true e.1) r.0.active_uploads)
active_uploads-update_example =
    active_uploads-update in_order 200 seeded_tracker (sent 250 ∷ []) refl
      (Nodup-cons.1 (not-mem-nil, Nodup-nil))

cumulative_uploaded_bytes-run_example :
    (v : TrackedUpload) × (tracked (run in_order seeded_tracker steps) (row_key (sent 100))
      ≡ some v)
    × (v.cumulative_uploaded_bytes + 100 ≡ 0 + last_counter (row_key (sent 100)) 100 steps)
unfolding last_counter Rises first_track row_key lookup first_row text_discrete
cumulative_uploaded_bytes-run_example =
    cumulative_uploaded_bytes-run in_order seeded_tracker steps (row_key (sent 100))
      (first_track 100 (sent 100)) refl refl
      (sent 250, refl, omega arith, (sent 400, refl, omega arith, tt)) (omega arith)
