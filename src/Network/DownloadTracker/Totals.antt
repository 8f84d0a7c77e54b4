-- ===== src/Network/DownloadTracker/Totals.antt =====
-- DownloadTracker.cpp: how the total of a connection grows over several updates.
use mathlib.Core.Option
use data_exfiltration_detect.Common.{
  ℕ, ◌+◌, ◌-◌, ◌%◌, ◌^◌, ◌≤◌, ◌<◌, ◌≡◌, refl, sym, ◌∙◌, ap, List, [], ◌∷◌, true, some, arith,
}
use data_exfiltration_detect.Common.Text.{Text, text_discrete}
use data_exfiltration_detect.Common.Maps.{Visit}
use data_exfiltration_detect.Common.Snapshots.{first_row-key}
use data_exfiltration_detect.Network.Types.{ConnectionTransferSnapshot}
use data_exfiltration_detect.Network.DownloadTracker.{
  TrackedDownload, DownloadTracker, compute_delta, next_track, row_key, track, update,
}
use data_exfiltration_detect.Network.DownloadTracker.Laws.{row_of, tracked, tracked-update}

-- The calls of `update`, each with its clock's reading and its snapshot.
pub run :
    Visit Text → DownloadTracker → List (ℕ × List ConnectionTransferSnapshot) → DownloadTracker
run order t [] = t
run order t ((now, rows) ∷ steps) = run order (update order now t rows).0 steps

-- The counter of a connection after the snapshots, where each has a row of it.
unfoldable pub last_counter : Text → ℕ → List (ℕ × List ConnectionTransferSnapshot) → ℕ
last_counter k counter [] = counter
last_counter k counter ((now, rows) ∷ steps) =
    last_counter k
      (Option.get_or
        (Option.map (λ (r : ConnectionTransferSnapshot). r.bytes_received) (row_of k rows)) counter)
      steps

-- Each snapshot has a row of the connection, and its counter never falls.
unfoldable pub Rises : Text → ℕ → List (ℕ × List ConnectionTransferSnapshot) → Type 0
Rises k counter [] = Unit {0}
Rises k counter ((now, rows) ∷ steps) =
    (r : ConnectionTransferSnapshot) × (row_of k rows ≡ some r)
    × (counter ≤ r.bytes_received)
    × Rises k r.bytes_received steps

last_counter-Rises :
    (k : Text) (counter : ℕ) (steps : List (ℕ × List ConnectionTransferSnapshot))
    → Rises k counter steps
    → counter ≤ last_counter k counter steps
unfolding last_counter Rises
last_counter-Rises k counter [] h = omega arith
last_counter-Rises k counter ((now, rows) ∷ steps) (r, e, le, h) =
    rw (e, last_counter) (omega (arith, le, last_counter-Rises k r.bytes_received steps h))

track-held :
    (t : DownloadTracker) (now : ℕ) (r : ConnectionTransferSnapshot) (u : TrackedDownload)
    → tracked t (row_key r) ≡ some u
    → track t now r ≡ next_track t.seeded now u r
unfolding track
track-held t now r u held = rw (held, track) refl

tracked-update_again :
    (order : Visit Text) (now : ℕ) (t : DownloadTracker) (rows : List ConnectionTransferSnapshot)
    (k : Text) (u : TrackedDownload) (r : ConnectionTransferSnapshot)
    → t.seeded ≡ true
    → tracked t k ≡ some u
    → row_of k rows ≡ some r
    → tracked (update order now t rows).0 k ≡ some (next_track true now u r)
tracked-update_again order now t rows k u r seeded held row =
    tracked-update order now t rows k
    ∙ ap (Option.map (track t now)) row
    ∙ ap (λ x. some x)
        (track-held t now r u
          (ap (tracked t) (first_row-key text_discrete row_key k rows r row) ∙ held))
    ∙ ap (λ b. some (next_track b now u r)) seeded

seeded-update :
    (order : Visit Text) (now : ℕ) (t : DownloadTracker) (rows : List ConnectionTransferSnapshot)
    → (update order now t rows).0.seeded ≡ true
unfolding update
seeded-update order now t rows = refl

no_wrap : (n : ℕ) → n < 2 ^ 64 → n % 2 ^ 64 ≡ n
no_wrap n h = omega arith

cumulative-next_track :
    (now : ℕ) (u : TrackedDownload) (r : ConnectionTransferSnapshot) (last : ℕ)
    → u.baseline_bytes_received ≤ r.bytes_received
    → r.bytes_received ≤ last
    → u.cumulative_downloaded_bytes + last < 2 ^ 64 + u.baseline_bytes_received
    → (next_track true now u r).cumulative_downloaded_bytes + u.baseline_bytes_received
      ≡ u.cumulative_downloaded_bytes + r.bytes_received
unfolding next_track compute_delta
cumulative-next_track now u r last le below fits = ground (
  arith,
  no_wrap (u.cumulative_downloaded_bytes + (r.bytes_received - u.baseline_bytes_received))
      (omega arith),
)

-- Two growths in a row, read as one.
chain :
    (final before total counter last middle : ℕ)
    → middle + before ≡ total + counter
    → final + counter ≡ middle + last
    → final + before ≡ total + last
chain final before total counter last middle h k = omega arith

-- While every snapshot has a row of a connection that a seeded tracker tracks, and its counter
-- never falls, the downloaded total grows by exactly what the counter grew, over any number of
-- updates, as long as the result fits into 64 bits.
pub cumulative_downloaded_bytes-run :
    (order : Visit Text) (t : DownloadTracker) (steps : List (ℕ × List ConnectionTransferSnapshot))
    (k : Text) (u : TrackedDownload)
    → t.seeded ≡ true
    → tracked t k ≡ some u
    → Rises k u.baseline_bytes_received steps
    → u.cumulative_downloaded_bytes + last_counter k u.baseline_bytes_received steps
      < 2 ^ 64 + u.baseline_bytes_received
    → (v : TrackedDownload) × (tracked (run order t steps) k ≡ some v)
      × (v.cumulative_downloaded_bytes + u.baseline_bytes_received
          ≡ u.cumulative_downloaded_bytes + last_counter k u.baseline_bytes_received steps)
unfolding run last_counter Rises next_track
cumulative_downloaded_bytes-run order t [] k u seeded held rises fits = (u, held, refl)
cumulative_downloaded_bytes-run order t ((now, rows) ∷ steps) k u seeded held (r, row, le, rises)
      fits =
    let next = (update order now t rows).0 in
    let last = last_counter k r.bytes_received steps in
    let fits' : u.cumulative_downloaded_bytes + last < 2 ^ 64 + u.baseline_bytes_received =
      rw (row, last_counter) at fits in
    let total =
      cumulative-next_track now u r last le (last_counter-Rises k r.bytes_received steps rises)
        fits' in
    let (v, found, grown) =
      cumulative_downloaded_bytes-run order next steps k (next_track true now u r)
        (seeded-update order now t rows)
        (tracked-update_again order now t rows k u r seeded held row) rises
        (omega (arith, total, fits')) in
    (
      v,
      found,
      chain v.cumulative_downloaded_bytes u.baseline_bytes_received u.cumulative_downloaded_bytes
            r.bytes_received last (next_track true now u r).cumulative_downloaded_bytes total grown
          ∙ ap
              (λ o.
                u.cumulative_downloaded_bytes
                + last_counter k
                    (Option.get_or
                      (Option.map (λ (x : ConnectionTransferSnapshot). x.bytes_received) o)
                      u.baseline_bytes_received)
                    steps)
              (sym row),
    )
