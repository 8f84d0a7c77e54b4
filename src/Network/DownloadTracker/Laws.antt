-- ===== src/Network/DownloadTracker/Laws.antt =====
-- DownloadTracker.cpp: which connections are tracked, what is reported, and how totals grow.
use mathlib.Core.List.{lookup}
use mathlib.Core.List.Perm
use mathlib.Core.Option
use data_exfiltration_detect.Common.{
  ℕ, ◌≡◌, ◌∙◌, ap, List, [], map, Perm, true, false, Option, if◌then◌else◌,
}
use data_exfiltration_detect.Common.Text.{Text, text_discrete}
use data_exfiltration_detect.Common.Maps.{Visit, HasUniqueKeys, lookup-perm}
use data_exfiltration_detect.Common.Snapshots.{first_row, lookup-scan_rows, scan_rows-HasUniqueKeys}
use data_exfiltration_detect.Common.Statistics.{
  closing, record_missing, lookup-record_missing, lookup-publish, results-publish_cleared,
}
use data_exfiltration_detect.Network.Types.{ConnectionTransferSnapshot}
use data_exfiltration_detect.Network.TransferStats.{ConnectionDownloadStats}
use data_exfiltration_detect.Network.DownloadTracker.{
  TrackedDownload, DownloadTracker, to_stats, row_key, track, next_active, update,
}

-- The first row of a snapshot with a key.
abbrev pub row_of : Text → List ConnectionTransferSnapshot → Option ConnectionTransferSnapshot
row_of = first_row text_discrete row_key

-- What is held of the connection with a key.
abbrev pub tracked : DownloadTracker → Text → Option TrackedDownload
tracked t k = lookup text_discrete k t.active_downloads

abbrev pub active_stats : DownloadTracker → Text → Option ConnectionDownloadStats
active_stats t k = lookup text_discrete k t.active_download_stats

abbrev pub closed_stats : DownloadTracker → Text → Option ConnectionDownloadStats
closed_stats t k = lookup text_discrete k t.closed_download_stats

TrackedDownload-set : IsSet TrackedDownload
TrackedDownload-set = hlevel

next_active-HasUniqueKeys :
    (t : DownloadTracker) (now : ℕ) (rows : List ConnectionTransferSnapshot)
    → HasUniqueKeys (next_active t now rows)
unfolding next_active
next_active-HasUniqueKeys t now rows =
    scan_rows-HasUniqueKeys text_discrete row_key (track t now) rows

lookup-next_active :
    (t : DownloadTracker) (now : ℕ) (rows : List ConnectionTransferSnapshot) (k : Text)
    → lookup text_discrete k (next_active t now rows) ≡ Option.map (track t now) (row_of k rows)
unfolding next_active
lookup-next_active t now rows k = lookup-scan_rows text_discrete row_key (track t now) k rows

unique-visit :
    (order : Visit Text) (m : List (Text × TrackedDownload))
    → HasUniqueKeys m
    → HasUniqueKeys (order.visit m)
unique-visit order m u = Perm.nodup (Perm.symm (Perm.map (λ e. e.0) (order.visit-perm m))) u

pub tracked-update :
    (order : Visit Text) (now : ℕ) (t : DownloadTracker) (rows : List ConnectionTransferSnapshot)
    (k : Text)
    → tracked (update order now t rows).0 k ≡ Option.map (track t now) (row_of k rows)
unfolding update
tracked-update order now t rows k = lookup-next_active t now rows k

active_stats-update :
    (order : Visit Text) (now : ℕ) (t : DownloadTracker) (rows : List ConnectionTransferSnapshot)
    (k : Text)
    → let r = update order now t rows in
      active_stats r.0 k ≡ Option.map (to_stats true) (tracked r.0 k)
unfolding update lookup
active_stats-update order now t rows k =
    let next = next_active t now rows in
    lookup-publish text_discrete (to_stats true) k [] (order.visit next)
    ∙ ap (Option.map (to_stats true)) (
        lookup-perm text_discrete TrackedDownload-set k (next_active-HasUniqueKeys t now rows)
          (order.visit-perm next))

closed_stats-update :
    (order : Visit Text) (now : ℕ) (t : DownloadTracker) (rows : List ConnectionTransferSnapshot)
    (k : Text)
    → t.seeded ≡ true
    → HasUniqueKeys t.active_downloads
    → let r = update order now t rows in
      closed_stats r.0 k ≡ closing (to_stats false) (tracked r.0 k) (tracked t k) (closed_stats t k)
unfolding update
closed_stats-update order now t rows k seeded u =
    let next = next_active t now rows in
    let kept =
      record_missing text_discrete next (to_stats false) t.closed_download_stats
        (order.visit t.active_downloads) in
    ap (λ b. lookup text_discrete k (if b then kept else t.closed_download_stats)) seeded
    ∙ lookup-record_missing text_discrete next (to_stats false) k t.closed_download_stats
        (order.visit t.active_downloads) (unique-visit order t.active_downloads u)
    ∙ ap (λ o. closing (to_stats false) (lookup text_discrete k next) o (closed_stats t k))
        (lookup-perm text_discrete TrackedDownload-set k u (order.visit-perm t.active_downloads))

results-update :
    (order : Visit Text) (now : ℕ) (t : DownloadTracker) (rows : List ConnectionTransferSnapshot)
    → let r = update order now t rows in
      Perm r.1 (map (λ (e : Text × TrackedDownload). to_stats true e.1) r.0.active_downloads)
unfolding update
results-update order now t rows =
    let next = next_active t now rows in
    rw
      (results-publish_cleared text_discrete (to_stats true) (order.visit next)
        (unique-visit order next (next_active-HasUniqueKeys t now rows)))
      (Perm.map (λ (e : Text × TrackedDownload). to_stats true e.1) (order.visit-perm next))

-- After an update of a seeded download tracker with unique keys, the tracked connections are
-- built of the first row with each key, the active statistics and the result are theirs, and the
-- final statistics of a connection that went are what was last tracked of it.
pub active_downloads-update :
    (order : Visit Text) (now : ℕ) (t : DownloadTracker) (rows : List ConnectionTransferSnapshot)
    → t.seeded ≡ true
    → HasUniqueKeys t.active_downloads
    → let r = update order now t rows in
      ((k : Text) → tracked r.0 k ≡ Option.map (track t now) (row_of k rows))
      × ((k : Text) → active_stats r.0 k ≡ Option.map (to_stats true) (tracked r.0 k))
      × ((k : Text)
          → closed_stats r.0 k
            ≡ closing (to_stats false) (tracked r.0 k) (tracked t k) (closed_stats t k))
      × Perm r.1 (map (λ (e : Text × TrackedDownload). to_stats true e.1) r.0.active_downloads)
active_downloads-update order now t rows seeded u = (
  tracked-update order now t rows,
  active_stats-update order now t rows,
  λ k. closed_stats-update order now t rows k seeded u,
  results-update order now t rows,
)
