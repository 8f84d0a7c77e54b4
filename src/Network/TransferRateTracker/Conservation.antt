-- ===== src/Network/TransferRateTracker/Conservation.antt =====
-- TransferRateTracker.cpp, `update`: the bytes of a process are conserved when its connections close.
use mathlib.Core.List.{lookup}
use mathlib.Core.Option
use data_exfiltration_detect.Common.{
  ℕ, ◌+◌, ◌%◌, ◌^◌, ◌≡◌, refl, sym, ap, ap₂, subst, ◌∙◌, List, [], ◌∷◌, Mem, none, some, inl, inr,
  Option-cases, true, arith, ℕ_discrete, ite,
}
use data_exfiltration_detect.Common.Text.{Text, text_discrete}
use data_exfiltration_detect.Common.Maps.{Visit, HasUniqueKeys, lookup-assign, mem-lookup_iff}
use data_exfiltration_detect.Common.Snapshots.{first_row-key}
use data_exfiltration_detect.Common.Sums.{sum_by, sum_by-perm, sum_by-map, sum_by-mod}
use data_exfiltration_detect.Network.Floats.{Floats}
use data_exfiltration_detect.Network.Types.{
  ConnectionTransferSnapshot, make_key, make_key-process_id,
}
use data_exfiltration_detect.Network.TransferRateTracker.State.{
  TrackedTransfer, TransferRateTracker, compute_delta,
}
use data_exfiltration_detect.Network.TransferRateTracker.Rows.{
  row_key, first_track, next_track, track, scan,
}
use data_exfiltration_detect.Network.TransferRateTracker.Aggregates.{held_total}
use data_exfiltration_detect.Network.TransferRateTracker.Updates.{
  accumulate, Closing, close_transfer, close_missing,
}
use data_exfiltration_detect.Network.TransferRateTracker.Connections.{
  row_of, tracked, TrackedTransfer-set, next-HasUniqueKeys, lookup-scan,
}
use data_exfiltration_detect.Network.TransferRateTracker.Totals.{share, total}
use data_exfiltration_detect.Network.TransferRateTracker.Shares.{lost, share_at, shares_split}

-- The total of a process, if it has one.
abbrev pub total_of : ℕ → List (ℕ × ℕ) → ℕ
total_of pid totals = Option.get_or (held_total pid totals) 0

total_of-accumulate :
    (pid p bytes : ℕ) (totals : List (ℕ × ℕ))
    → total_of pid (accumulate p bytes totals)
      ≡ ite (ℕ_discrete pid p) ((total_of p totals + bytes) % 2 ^ 64) (total_of pid totals)
unfolding accumulate
total_of-accumulate pid p bytes totals =
    ground (arith, lookup-assign ℕ_discrete pid p ((total_of p totals + bytes) % 2 ^ 64) totals)

-- Each connection is held under its key.
abbrev pub IsKeyed : {Double : Type 0} → List (Text × TrackedTransfer Double) → Type 0
IsKeyed {Double} m =
    (k : Text) (v : TrackedTransfer Double)
    → lookup text_discrete k m ≡ some v
    → make_key v.connection ≡ k

-- What the counter of a process's connection grew by, if the tracker held the connection before.
abbrev pub grown :
    {Double : Type 0}
    → (TrackedTransfer Double → ℕ)
    → TransferRateTracker Double
    → ℕ
    → Text × TrackedTransfer Double
    → ℕ
grown baseline t pid e =
    share
      (λ v. elim (tracked t e.0) [ none ↦ 0 | some u ↦ compute_delta (baseline u) (baseline v) ])
      pid e

-- One direction of the traffic: its total and its counter, of a tracked connection, and the map of
-- the totals of closed connections.
module _ {Double : Type 0} (f : Floats Double) (set : IsSet Double)
    (cumulative baseline : TrackedTransfer Double → ℕ)
    (closed : Closing Double → List (ℕ × ℕ)) where
  total-close_missing :
      ((k : Text) (v : TrackedTransfer Double) (c : Closing Double)
        → closed (close_transfer f k v c)
          ≡ accumulate v.connection.process_id (cumulative v) (closed c))
      → (pid : ℕ) (next : List (Text × TrackedTransfer Double)) (c : Closing Double)
        (ts : List (Text × TrackedTransfer Double))
      → total_of pid (closed (close_missing f next c ts)) % 2 ^ 64
        ≡ (total_of pid (closed c) + sum_by (lost set cumulative pid next) ts) % 2 ^ 64
  unfolding close_missing sum_by
  total-close_missing h pid next c [] = omega arith
  total-close_missing h pid next c ((k, v) ∷ ts) =
      elim (Option-cases (lookup text_discrete k next)) [
        | inl e ↦ ground (
          arith,
          e,
          total-close_missing h pid next (close_transfer f k v c) ts,
          ap (total_of pid) (h k v c),
          total_of-accumulate pid v.connection.process_id (cumulative v) (closed c),
        )
        | inr (w, e) ↦ ground (arith, e, total-close_missing h pid next c ts)
      ]

  share_grows :
      (k : Text) (u v : TrackedTransfer Double) (pid d : ℕ)
      → u.connection.process_id ≡ v.connection.process_id
      → cumulative v ≡ (cumulative u + d) % 2 ^ 64
      → share cumulative pid (k, v) % 2 ^ 64
        ≡ (share cumulative pid (k, u) + share (λ x. d) pid (k, v)) % 2 ^ 64
  share_grows k u v pid d same h = ground arith

  share-track :
      ((now : ℕ) (r : ConnectionTransferSnapshot) → cumulative (first_track f now r) ≡ 0)
      → ((now : ℕ) (u : TrackedTransfer Double) (r : ConnectionTransferSnapshot)
          → cumulative (next_track f true now u r)
            ≡ (cumulative u + compute_delta (baseline u) (baseline (next_track f true now u r)))
              % 2 ^ 64)
      → (t : TransferRateTracker Double) (pid now : ℕ) (r : ConnectionTransferSnapshot)
      → t.seeded ≡ true
      → IsKeyed t.active_transfers
      → let e : Text × TrackedTransfer Double = (row_key r, track f t now r) in
        share cumulative pid e % 2 ^ 64
        ≡ (share_at set cumulative pid t.active_transfers (row_key r) + grown baseline t pid e)
          % 2 ^ 64
  unfolding track row_key
  share-track fresh again t pid now r seeded keyed = elim (Option-cases (tracked t (row_key r))) [
    | inl e ↦
        let new : track f t now r ≡ first_track f now r = rw (e, track) refl in
        rw (new, e, share_at) (ground (arith, fresh now r))
    | inr (u, e) ↦
        let v = track f t now r in
        let new : track f t now r ≡ next_track f true now u r =
          rw (e, track) (ap (λ b. next_track f b now u r) seeded) in
        let same : u.connection.process_id ≡ v.connection.process_id =
          make_key-process_id u.connection r.connection (keyed (row_key r) u e)
          ∙ ap (λ (x : TrackedTransfer Double). x.connection.process_id) (sym new) in
        let d = compute_delta (baseline u) (baseline v) in
        let total_grows : cumulative v ≡ (cumulative u + d) % 2 ^ 64 =
          ap cumulative new
          ∙ again now u r
          ∙ ap (λ x. (cumulative u + compute_delta (baseline u) (baseline x)) % 2 ^ 64) (sym new) in
        rw (e, share_at) (share_grows (row_key r) u v pid d same total_grows)
  ]

  -- The bytes of a process are conserved by the scan and the closing loop, in one direction.
  module _
      (closes : (k : Text) (v : TrackedTransfer Double) (c : Closing Double)
        → closed (close_transfer f k v c)
          ≡ accumulate v.connection.process_id (cumulative v) (closed c))
      (fresh : (now : ℕ) (r : ConnectionTransferSnapshot) → cumulative (first_track f now r) ≡ 0)
      (again : (now : ℕ) (u : TrackedTransfer Double) (r : ConnectionTransferSnapshot)
        → cumulative (next_track f true now u r)
          ≡ (cumulative u + compute_delta (baseline u) (baseline (next_track f true now u r)))
            % 2 ^ 64)
      (t : TransferRateTracker Double) (seeded : t.seeded ≡ true)
      (u : HasUniqueKeys t.active_transfers) (keyed : IsKeyed t.active_transfers) (pid now : ℕ)
      (rows : List ConnectionTransferSnapshot) where
    share-scan :
        (e : Text × TrackedTransfer Double)
        → Mem e (scan f t now rows).pass.next
        → share cumulative pid e % 2 ^ 64
          ≡ (share_at set cumulative pid t.active_transfers e.0 + grown baseline t pid e) % 2 ^ 64
    share-scan (k, v) mem =
        let found =
          sym (lookup-scan f t now rows k)
          ∙ (mem-lookup_iff text_discrete (TrackedTransfer-set set) k v
                (scan f t now rows).pass.next (next-HasUniqueKeys f t now rows)).0
              mem in
        elim (Option-cases (row_of k rows)) [
          | inl e ↦ absurd (ground (arith, found, e))
          | inr (r, e) ↦
              let held : track f t now r ≡ v = ground (arith, found, e) in
              let key : row_key r ≡ k = first_row-key text_discrete row_key k rows r e in
              subst
                (λ (x : Text × TrackedTransfer Double).
                  share cumulative pid x % 2 ^ 64
                  ≡ (share_at set cumulative pid t.active_transfers x.0 + grown baseline t pid x)
                    % 2 ^ 64)
                (ap₂ (λ x y. (x, y)) key held) (share-track fresh again t pid now r seeded keyed)
        ]

    pub total-update :
        (order : Visit Text) (c : Closing Double)
        → let next = (scan f t now rows).pass.next in
          let c' = close_missing f next c (order.visit t.active_transfers) in
          (total cumulative pid next + total_of pid (closed c')) % 2 ^ 64
          ≡ (total cumulative pid t.active_transfers
              + total_of pid (closed c)
              + sum_by (grown baseline t pid) next)
            % 2 ^ 64
    total-update order c =
        let next = (scan f t now rows).pass.next in
        let held = share_at set cumulative pid t.active_transfers in
        omega (
          arith,
          total-close_missing closes pid next c (order.visit t.active_transfers),
          sum_by-perm (lost set cumulative pid next) (order.visit-perm t.active_transfers),
          shares_split set cumulative pid t.active_transfers next u
              (next-HasUniqueKeys f t now rows),
          sum_by-mod (share cumulative pid) (λ e. held e.0) (grown baseline t pid) next share-scan,
          sum_by-map held (λ (e : Text × TrackedTransfer Double). e.0) next,
        )
