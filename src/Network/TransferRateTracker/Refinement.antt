-- ===== src/Network/TransferRateTracker/Refinement.antt =====
-- TransferRateTracker.cpp beside UploadTracker.cpp and DownloadTracker.cpp: over any sequence of
-- snapshots the rate tracker holds of each connection what the two other trackers hold.
use mathlib.Core.List.{lookup}
use mathlib.Core.Option
use data_exfiltration_detect.Common.{
  ℕ, ◌≡◌, refl, sym, ap, ◌∙◌, List, [], ◌∷◌, Option, none, some, inl, inr, Option-cases, Bool, true,
}
use data_exfiltration_detect.Common.Text.{Text, text_discrete}
use data_exfiltration_detect.Common.Maps.{Visit}
use data_exfiltration_detect.Network.Floats.{Floats}
use data_exfiltration_detect.Network.Types.{ConnectionTransferSnapshot}
use data_exfiltration_detect.Network.UploadTracker
use data_exfiltration_detect.Network.UploadTracker.{TrackedUpload, UploadTracker}
use data_exfiltration_detect.Network.UploadTracker.Laws as Uploads
use data_exfiltration_detect.Network.DownloadTracker
use data_exfiltration_detect.Network.DownloadTracker.{TrackedDownload, DownloadTracker}
use data_exfiltration_detect.Network.DownloadTracker.Laws as Downloads
use data_exfiltration_detect.Network.TransferRateTracker.State.{
  TrackedTransfer, TransferRateTracker, compute_delta, reset,
}
use data_exfiltration_detect.Network.TransferRateTracker.Rows.{
  row_key, row_time, first_track, next_track, track,
}
use data_exfiltration_detect.Network.TransferRateTracker.Aggregates.{rebuild_process_stats}
use data_exfiltration_detect.Network.TransferRateTracker.Updates.{update_connections, update}
use data_exfiltration_detect.Network.TransferRateTracker.Connections.{
  row_of, tracked, tracked-update,
}

-- What the upload tracker keeps of a connection, and what the download tracker does.
abbrev pub upload_part : {Double : Type 0} → TrackedTransfer Double → TrackedUpload
upload_part v = record {
  connection = v.connection;
  process_name = v.process_name;
  baseline_bytes_sent = v.baseline_bytes_sent;
  cumulative_uploaded_bytes = v.cumulative_uploaded_bytes;
  first_observed = v.first_observed;
  last_updated = v.last_updated;
}

abbrev pub download_part : {Double : Type 0} → TrackedTransfer Double → TrackedDownload
download_part v = record {
  connection = v.connection;
  process_name = v.process_name;
  baseline_bytes_received = v.baseline_bytes_received;
  cumulative_downloaded_bytes = v.cumulative_downloaded_bytes;
  first_observed = v.first_observed;
  last_updated = v.last_updated;
}

-- The calls of `update` on the three trackers, each with its clock's reading and its snapshot.
unfoldable pub run_rates :
    {Double : Type 0}
    → Floats Double
    → Visit Text
    → Visit ℕ
    → TransferRateTracker Double
    → List (ℕ × List ConnectionTransferSnapshot)
    → TransferRateTracker Double
unfolding update
run_rates f order pids t [] = t
run_rates f order pids t ((now, rows) ∷ steps) =
    run_rates f order pids (update f order pids now t rows).0 steps

unfoldable pub run_uploads :
    Visit Text → UploadTracker → List (ℕ × List ConnectionTransferSnapshot) → UploadTracker
run_uploads order u [] = u
run_uploads order u ((now, rows) ∷ steps) =
    run_uploads order (UploadTracker.update order now u rows).0 steps

unfoldable pub run_downloads :
    Visit Text → DownloadTracker → List (ℕ × List ConnectionTransferSnapshot) → DownloadTracker
run_downloads order d [] = d
run_downloads order d ((now, rows) ∷ steps) =
    run_downloads order (DownloadTracker.update order now d rows).0 steps

-- Two trackers agree: what one holds of each connection is a part of what the other holds.
abbrev Agrees :
    {Double V : Type 0}
    → (TrackedTransfer Double → V)
    → TransferRateTracker Double
    → List (Text × V)
    → Type 0
Agrees part t m = (k : Text) → lookup text_discrete k m ≡ Option.map part (tracked t k)

module _ {Double : Type 0} (f : Floats Double) where
  upload-first_track :
      (now : ℕ) (r : ConnectionTransferSnapshot)
      → UploadTracker.first_track now r ≡ upload_part (first_track f now r)
  unfolding first_track UploadTracker.first_track row_time UploadTracker.row_time
  upload-first_track now r = refl

  upload-next_track :
      (b : Bool) (now : ℕ) (v : TrackedTransfer Double) (r : ConnectionTransferSnapshot)
      → UploadTracker.next_track b now (upload_part v) r ≡ upload_part (next_track f b now v r)
  unfolding next_track UploadTracker.next_track compute_delta UploadTracker.compute_delta row_time
      UploadTracker.row_time
  upload-next_track b now v r = refl

  upload-track :
      (t : TransferRateTracker Double) (u : UploadTracker) (now : ℕ)
      (r : ConnectionTransferSnapshot)
      → u.seeded ≡ t.seeded
      → Agrees upload_part t u.active_uploads
      → UploadTracker.track u now r ≡ upload_part (track f t now r)
  unfolding track UploadTracker.track row_key UploadTracker.row_key
  upload-track t u now r seeded agrees = elim (Option-cases (tracked t (row_key r))) [
    | inl e ↦
        let e' = agrees (row_key r) ∙ ap (Option.map upload_part) e in
        rw (e, e', track, UploadTracker.track) (upload-first_track now r)
    | inr (w, e) ↦
        let e' = agrees (row_key r) ∙ ap (Option.map upload_part) e in
        rw (e, e', track, UploadTracker.track)
          (ap (λ b. UploadTracker.next_track b now (upload_part w) r) seeded
            ∙ upload-next_track t.seeded now w r)
  ]

  download-first_track :
      (now : ℕ) (r : ConnectionTransferSnapshot)
      → DownloadTracker.first_track now r ≡ download_part (first_track f now r)
  unfolding first_track DownloadTracker.first_track row_time DownloadTracker.row_time
  download-first_track now r = refl

  download-next_track :
      (b : Bool) (now : ℕ) (v : TrackedTransfer Double) (r : ConnectionTransferSnapshot)
      → DownloadTracker.next_track b now (download_part v) r
        ≡ download_part (next_track f b now v r)
  unfolding next_track DownloadTracker.next_track compute_delta DownloadTracker.compute_delta
      row_time DownloadTracker.row_time
  download-next_track b now v r = refl

  download-track :
      (t : TransferRateTracker Double) (d : DownloadTracker) (now : ℕ)
      (r : ConnectionTransferSnapshot)
      → d.seeded ≡ t.seeded
      → Agrees download_part t d.active_downloads
      → DownloadTracker.track d now r ≡ download_part (track f t now r)
  unfolding track DownloadTracker.track row_key DownloadTracker.row_key
  download-track t d now r seeded agrees = elim (Option-cases (tracked t (row_key r))) [
    | inl e ↦
        let e' = agrees (row_key r) ∙ ap (Option.map download_part) e in
        rw (e, e', track, DownloadTracker.track) (download-first_track now r)
    | inr (w, e) ↦
        let e' = agrees (row_key r) ∙ ap (Option.map download_part) e in
        rw (e, e', track, DownloadTracker.track)
          (ap (λ b. DownloadTracker.next_track b now (download_part w) r) seeded
            ∙ download-next_track t.seeded now w r)
  ]

-- The three trackers agree on every connection.
pub record Agreement {Double : Type 0} (t : TransferRateTracker Double) (u : UploadTracker)
    (d : DownloadTracker) : Type 0 where
  pub uploads_agree :
      (k : Text) → lookup text_discrete k u.active_uploads ≡ Option.map upload_part (tracked t k)
  pub downloads_agree :
      (k : Text)
      → lookup text_discrete k d.active_downloads ≡ Option.map download_part (tracked t k)
  pub uploads_seeded : u.seeded ≡ t.seeded
  pub downloads_seeded : d.seeded ≡ t.seeded

map_part :
    {R V W : Type 0} (part : V → W) (build : R → V) (build' : R → W)
    → ((r : R) → build' r ≡ part (build r))
    → (o : Option R) → Option.map build' o ≡ Option.map part (Option.map build o)
map_part part build build' h none = refl
map_part part build build' h (some r) = ap (λ w. some w) (h r)

module _ {Double : Type 0} (f : Floats Double) (set : IsSet Double) (order : Visit Text)
    (pids : Visit ℕ) where
  seeded-update :
      (now : ℕ) (t : TransferRateTracker Double) (rows : List ConnectionTransferSnapshot)
      → (update f order pids now t rows).0.seeded ≡ true
  unfolding update update_connections rebuild_process_stats
  seeded-update now t rows = refl

  Agreement-update :
      (now : ℕ) (rows : List ConnectionTransferSnapshot) (t : TransferRateTracker Double)
      (u : UploadTracker) (d : DownloadTracker)
      → Agreement t u d
      → Agreement
          (update f order pids now t rows).0
          (UploadTracker.update order now u rows).0
          (DownloadTracker.update order now d rows).0
  unfolding row_key UploadTracker.row_key DownloadTracker.row_key UploadTracker.update
      DownloadTracker.update
  Agreement-update now rows t u d a = record {
    uploads_agree = λ k.
        Uploads.tracked-update order now u rows k
        ∙ map_part upload_part (track f t now) (UploadTracker.track u now)
            (λ r. upload-track f t u now r a.uploads_seeded a.uploads_agree) (row_of k rows)
        ∙ ap (Option.map upload_part) (sym (tracked-update f set order pids now t rows k));
    downloads_agree = λ k.
        Downloads.tracked-update order now d rows k
        ∙ map_part download_part (track f t now) (DownloadTracker.track d now)
            (λ r. download-track f t d now r a.downloads_seeded a.downloads_agree) (row_of k rows)
        ∙ ap (Option.map download_part) (sym (tracked-update f set order pids now t rows k));
    uploads_seeded = sym (seeded-update now t rows);
    downloads_seeded = sym (seeded-update now t rows);
  }

  -- Started from states that agree, and fed with the same snapshots at the same times, however
  -- many, the rate tracker, with rates from any set, holds of every connection what the upload
  -- tracker and the download tracker hold of it: the byte totals of the three components never
  -- diverge.
  pub run-Agreement :
      (steps : List (ℕ × List ConnectionTransferSnapshot)) (t : TransferRateTracker Double)
      (u : UploadTracker) (d : DownloadTracker)
      → Agreement t u d
      → Agreement
          (run_rates f order pids t steps)
          (run_uploads order u steps)
          (run_downloads order d steps)
  unfolding run_rates run_uploads run_downloads
  run-Agreement [] t u d a = a
  run-Agreement ((now, rows) ∷ steps) t u d a =
      run-Agreement steps (update f order pids now t rows).0
        (UploadTracker.update order now u rows).0 (DownloadTracker.update order now d rows).0
        (Agreement-update now rows t u d a)

-- Three trackers that were reset agree.
pub reset-Agreement :
    {Double : Type 0} (t : TransferRateTracker Double) (u : UploadTracker) (d : DownloadTracker)
    → Agreement (reset t) (UploadTracker.reset u) (DownloadTracker.reset d)
unfolding reset UploadTracker.reset DownloadTracker.reset lookup
reset-Agreement t u d = record {
  uploads_agree = λ k. refl;
  downloads_agree = λ k. refl;
  uploads_seeded = refl;
  downloads_seeded = refl;
}
