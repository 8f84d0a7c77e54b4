-- ===== src/Network/UploadTracker/Laws.antt =====
-- UploadTracker.cpp: which connections are tracked, what is reported, and how totals grow.
use mathlib.Core.List.{lookup}
use mathlib.Core.List.Perm
use mathlib.Core.Option
use data_exfiltration_detect.Common.{
  ℕ, ◌≡◌, ◌∙◌, ap, List, [], map, Perm, Bool, true, false, Option, if◌then◌else◌,
}
use data_exfiltration_detect.Common.Text.{Text, text_discrete}
use data_exfiltration_detect.Common.Maps.{Visit, HasUniqueKeys, lookup-perm}
use data_exfiltration_detect.Common.Snapshots.{first_row, lookup-scan_rows, scan_rows-HasUniqueKeys}
use data_exfiltration_detect.Common.Statistics.{
  closing, record_missing, lookup-record_missing, lookup-publish, results-publish_cleared,
}
use data_exfiltration_detect.Network.Types.{ConnectionTransferSnapshot}
use data_exfiltration_detect.Network.TransferStats.{ConnectionUploadStats}
use data_exfiltration_detect.Network.UploadTracker.{
  TrackedUpload, UploadTracker, to_stats, row_key, track, next_active, update,
}

-- The first row of a snapshot with a key.
abbrev pub row_of : Text → List ConnectionTransferSnapshot → Option ConnectionTransferSnapshot
row_of = first_row text_discrete row_key

-- What is held of the connection with a key.
abbrev pub tracked : UploadTracker → Text → Option TrackedUpload
tracked t k = lookup text_discrete k t.active_uploads

abbrev pub active_stats : UploadTracker → Text → Option ConnectionUploadStats
active_stats t k = lookup text_discrete k t.active_upload_stats

abbrev pub closed_stats : UploadTracker → Text → Option ConnectionUploadStats
closed_stats t k = lookup text_discrete k t.closed_upload_stats

TrackedUpload-set : IsSet TrackedUpload
TrackedUpload-set = hlevel

next_active-HasUniqueKeys :
    (t : UploadTracker) (now : ℕ) (rows : List ConnectionTransferSnapshot)
    → HasUniqueKeys (next_active t now rows)
unfolding next_active
next_active-HasUniqueKeys t now rows =
    scan_rows-HasUniqueKeys text_discrete row_key (track t now) rows

lookup-next_active :
    (t : UploadTracker) (now : ℕ) (rows : List ConnectionTransferSnapshot) (k : Text)
    → lookup text_discrete k (next_active t now rows) ≡ Option.map (track t now) (row_of k rows)
unfolding next_active
lookup-next_active t now rows k = lookup-scan_rows text_discrete row_key (track t now) k rows

unique-visit :
    (order : Visit Text) (m : List (Text × TrackedUpload))
    → HasUniqueKeys m
    → HasUniqueKeys (order.visit m)
unique-visit order m u = Perm.nodup (Perm.symm (Perm.map (λ e. e.0) (order.visit-perm m))) u

pub tracked-update :
    (order : Visit Text) (now : ℕ) (t : UploadTracker) (rows : List ConnectionTransferSnapshot)
    (k : Text)
    → tracked (update order now t rows).0 k ≡ Option.map (track t now) (row_of k rows)
unfolding update
tracked-update order now t rows k = lookup-next_active t now rows k

active_stats-update :
    (order : Visit Text) (now : ℕ) (t : UploadTracker) (rows : List ConnectionTransferSnapshot)
    (k : Text)
    → let r = update order now t rows in
      active_stats r.0 k ≡ Option.map (to_stats true) (tracked r.0 k)
unfolding update lookup
active_stats-update order now t rows k =
    let next = next_active t now rows in
    lookup-publish text_discrete (to_stats true) k [] (order.visit next)
    ∙ ap (Option.map (to_stats true)) (
        lookup-perm text_discrete TrackedUpload-set k (next_active-HasUniqueKeys t now rows)
          (order.visit-perm next))

closed_stats-update :
    (order : Visit Text) (now : ℕ) (t : UploadTracker) (rows : List ConnectionTransferSnapshot)
    (k : Text)
    → t.seeded ≡ true
    → HasUniqueKeys t.active_uploads
    → let r = update order now t rows in
      closed_stats r.0 k ≡ closing (to_stats false) (tracked r.0 k) (tracked t k) (closed_stats t k)
unfolding update
closed_stats-update order now t rows k seeded u =
    let next = next_active t now rows in
    let kept =
      record_missing text_discrete next (to_stats false) t.closed_upload_stats
        (order.visit t.active_uploads) in
    ap (λ b. lookup text_discrete k (if b then kept else t.closed_upload_stats)) seeded
    ∙ lookup-record_missing text_discrete next (to_stats false) k t.closed_upload_stats
        (order.visit t.active_uploads) (unique-visit order t.active_uploads u)
    ∙ ap (λ o. closing (to_stats false) (lookup text_discrete k next) o (closed_stats t k))
        (lookup-perm text_discrete TrackedUpload-set k u (order.visit-perm t.active_uploads))

results-update :
    (order : Visit Text) (now : ℕ) (t : UploadTracker) (rows : List ConnectionTransferSnapshot)
    → let r = update order now t rows in
      Perm r.1 (map (λ (e : Text × TrackedUpload). to_stats true e.1) r.0.active_uploads)
unfolding update
results-update order now t rows =
    let next = next_active t now rows in
    rw
      (results-publish_cleared text_discrete (to_stats true) (order.visit next)
        (unique-visit order next (next_active-HasUniqueKeys t now rows)))
      (Perm.map (λ (e : Text × TrackedUpload). to_stats true e.1) (order.visit-perm next))

-- What is reported of a tracked connection: its process, remote end, total and times.
abbrev pub reported : Bool → TrackedUpload → ConnectionUploadStats
reported is_active v = record {
  process_id = v.connection.process_id;
  process_name = v.process_name;
  remote_address = v.connection.remote_address;
  remote_port = v.connection.remote_port;
  protocol = v.connection.protocol;
  uploaded_bytes = v.cumulative_uploaded_bytes;
  first_observed = v.first_observed;
  last_updated = v.last_updated;
  is_active = is_active;
}

-- After an update of a seeded upload tracker with unique keys, the tracked connections are built
-- of the first row with each key, the active statistics and the result are what is held of them,
-- marked as active, and the final statistics of a connection that went are what was last tracked
-- of it, marked as not active.
pub active_uploads-update :
    (order : Visit Text) (now : ℕ) (t : UploadTracker) (rows : List ConnectionTransferSnapshot)
    → t.seeded ≡ true
    → HasUniqueKeys t.active_uploads
    → let r = update order now t rows in
      ((k : Text) → tracked r.0 k ≡ Option.map (track t now) (row_of k rows))
      × ((k : Text) → active_stats r.0 k ≡ Option.map (reported true) (tracked r.0 k))
      × ((k : Text)
          → closed_stats r.0 k
            ≡ closing (reported false) (tracked r.0 k) (tracked t k) (closed_stats t k))
      × Perm r.1 (map (λ (e : Text × TrackedUpload). reported true e.1) r.0.active_uploads)
unfolding to_stats
active_uploads-update order now t rows seeded u = (
  tracked-update order now t rows,
  active_stats-update order now t rows,
  λ k. closed_stats-update order now t rows k seeded u,
  results-update order now t rows,
)
