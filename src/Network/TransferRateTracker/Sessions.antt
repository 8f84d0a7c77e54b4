-- ===== src/Network/TransferRateTracker/Sessions.antt =====
-- TransferRateTracker.cpp, `update` and `getProcessBandwidthStats`: what is reported of a process over
-- a session.
use mathlib.Core.Option
use data_exfiltration_detect.Common.{
  ℕ, ◌+◌, ◌%◌, ◌^◌, ◌≡◌, refl, ap, List, none, some, true, if◌then◌else◌, ◌==◌,
}
use data_exfiltration_detect.Common.Text.{Text}
use data_exfiltration_detect.Common.Maps.{Visit}
use data_exfiltration_detect.Common.Sums.{sum_by}
use data_exfiltration_detect.Network.Floats.{Floats}
use data_exfiltration_detect.Network.Types.{ConnectionTransferSnapshot}
use data_exfiltration_detect.Network.TransferRateTracker.State.{
  TrackedTransfer, TransferRateTracker, compute_delta,
}
use data_exfiltration_detect.Network.TransferRateTracker.Rows.{first_track, next_track, scan}
use data_exfiltration_detect.Network.TransferRateTracker.Aggregates.{rebuild_process_stats}
use data_exfiltration_detect.Network.TransferRateTracker.Updates.{
  Closing, close_transfer, close_missing, close, update_connections, update,
}
use data_exfiltration_detect.Network.TransferRateTracker.Totals.{
  total, uploaded, downloaded, one_each,
}
use data_exfiltration_detect.Network.TransferRateTracker.Processes.{
  active_process, closed_uploaded, closed_downloaded, numbers, numbers-rebuild,
}
use data_exfiltration_detect.Network.TransferRateTracker.Conservation.{
  grown, total-update, total_of,
}
use data_exfiltration_detect.Network.TransferRateTracker.Invariant.{IsValid}

module _ {Double : Type 0} where
  -- All bytes that a process has moved: by its tracked connections, and by those that closed.
  abbrev pub session_uploaded : TransferRateTracker Double → ℕ → ℕ
  session_uploaded t pid = total uploaded pid t.active_transfers + closed_uploaded t pid

  abbrev pub session_downloaded : TransferRateTracker Double → ℕ → ℕ
  session_downloaded t pid = total downloaded pid t.active_transfers + closed_downloaded t pid

  abbrev pub sent_counter : TrackedTransfer Double → ℕ
  sent_counter v = v.baseline_bytes_sent

  abbrev pub received_counter : TrackedTransfer Double → ℕ
  received_counter v = v.baseline_bytes_received

  -- What the counters of a process's connections grew by from one state to the next.
  abbrev pub grown_between :
      (TrackedTransfer Double → ℕ) → TransferRateTracker Double → TransferRateTracker Double → ℕ → ℕ
  grown_between baseline before after pid =
      sum_by (grown baseline before pid) after.active_transfers

module _ {Double : Type 0} (f : Floats Double) where
  fresh-uploaded : (now : ℕ) (r : ConnectionTransferSnapshot) → uploaded (first_track f now r) ≡ 0
  unfolding first_track
  fresh-uploaded now r = refl

  fresh-downloaded :
      (now : ℕ) (r : ConnectionTransferSnapshot) → downloaded (first_track f now r) ≡ 0
  unfolding first_track
  fresh-downloaded now r = refl

  again-uploaded :
      (now : ℕ) (u : TrackedTransfer Double) (r : ConnectionTransferSnapshot)
      → let v = next_track f true now u r in
        uploaded v ≡ (uploaded u + compute_delta (sent_counter u) (sent_counter v)) % 2 ^ 64
  unfolding next_track
  again-uploaded now u r = refl

  again-downloaded :
      (now : ℕ) (u : TrackedTransfer Double) (r : ConnectionTransferSnapshot)
      → let v = next_track f true now u r in
        downloaded v
        ≡ (downloaded u + compute_delta (received_counter u) (received_counter v)) % 2 ^ 64
  unfolding next_track
  again-downloaded now u r = refl

  module _ (set : IsSet Double) (order : Visit Text) (pids : Visit ℕ) (now : ℕ)
      (t : TransferRateTracker Double) (rows : List ConnectionTransferSnapshot) where
    -- The state before the closing loop, and after it.
    unfoldable pub before : Closing Double
    unfolding scan
    before = record {
      stats = t.closed_connection_stats;
      uploaded = t.closed_uploaded_by_process;
      downloaded = t.closed_downloaded_by_process;
      names = (scan f t now rows).names;
    }

    unfoldable pub after : Closing Double
    unfolding before
    after = close_missing f (scan f t now rows).pass.next before (order.visit t.active_transfers)

    pub close-seeded :
        t.seeded ≡ true
        → close f order t (scan f t now rows).pass.next (scan f t now rows).names ≡ after
    unfolding close after before
    close-seeded seeded = ap (λ b. if b then after else before) seeded

    pub maps-update :
        t.seeded ≡ true
        → let r = (update f order pids now t rows).0 in
          (r.active_transfers ≡ (scan f t now rows).pass.next)
          × (r.closed_uploaded_by_process ≡ after.uploaded)
          × (r.closed_downloaded_by_process ≡ after.downloaded)
    unfolding update update_connections rebuild_process_stats
    maps-update seeded = (
      refl,
      ap (λ (c : Closing Double). c.uploaded) (close-seeded seeded),
      ap (λ (c : Closing Double). c.downloaded) (close-seeded seeded),
    )

    uploaded-after :
        (pid : ℕ)
        → t.seeded ≡ true
        → IsValid t
        → let next = (scan f t now rows).pass.next in
          (total uploaded pid next + total_of pid after.uploaded) % 2 ^ 64
          ≡ (session_uploaded t pid + sum_by (grown sent_counter t pid) next) % 2 ^ 64
    unfolding after before close_transfer
    uploaded-after pid seeded v =
        total-update f set uploaded sent_counter (λ c. c.uploaded) (λ k u c. refl)
          (λ now r. fresh-uploaded now r) again-uploaded t seeded v.unique_transfers v.keyed pid now
          rows order before

    downloaded-after :
        (pid : ℕ)
        → t.seeded ≡ true
        → IsValid t
        → let next = (scan f t now rows).pass.next in
          (total downloaded pid next + total_of pid after.downloaded) % 2 ^ 64
          ≡ (session_downloaded t pid + sum_by (grown received_counter t pid) next) % 2 ^ 64
    unfolding after before close_transfer
    downloaded-after pid seeded v =
        total-update f set downloaded received_counter (λ c. c.downloaded) (λ k u c. refl)
          (λ now r. fresh-downloaded now r) again-downloaded t seeded v.unique_transfers v.keyed pid
          now rows order before

    -- After any update a process has active statistics exactly when it owns a tracked connection;
    -- they hold the number of these and the sums of their totals and of the totals preserved of
    -- its closed connections, modulo 2^64, in whatever order the maps are visited and whatever
    -- set the rates are from.
    pub active_process-update :
        (pid : ℕ)
        → let r = (update f order pids now t rows).0 in
          Option.map numbers (active_process r pid) ≡ (
            if total one_each pid r.active_transfers == 0
            then none
            else some (
              pid,
              session_uploaded r pid % 2 ^ 64,
              session_downloaded r pid % 2 ^ 64,
              total one_each pid r.active_transfers % 2 ^ 64,
            ))
    unfolding update rebuild_process_stats
    active_process-update pid =
        numbers-rebuild f set order pids (update_connections f order now t rows).0 pid

    -- An update of a seeded tracker with the invariant adds to the session's bytes of a process,
    -- which are the totals of its tracked connections and those preserved of its closed ones,
    -- exactly what the counters of its tracked connections grew by, modulo 2^64, whatever set the
    -- rates are from and in whatever order the maps are visited.
    pub session_bytes-update :
        (pid : ℕ)
        → t.seeded ≡ true
        → IsValid t
        → let r = (update f order pids now t rows).0 in
          (session_uploaded r pid % 2 ^ 64
            ≡ (session_uploaded t pid + grown_between sent_counter t r pid) % 2 ^ 64)
          × (session_downloaded r pid % 2 ^ 64
              ≡ (session_downloaded t pid + grown_between received_counter t r pid) % 2 ^ 64)
    session_bytes-update pid seeded v =
        let m = maps-update seeded in
        (rw (m.0, m.1) (uploaded-after pid seeded v), rw (m.0, m.2) (downloaded-after pid seeded v))
