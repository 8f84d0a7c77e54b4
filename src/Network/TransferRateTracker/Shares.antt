-- ===== src/Network/TransferRateTracker/Shares.antt =====
-- TransferRateTracker.cpp: what the connections of a process hold, split into those that the next
-- map keeps and those that it lacks.
use mathlib.Core.List.{lookup}
use data_exfiltration_detect.Common.{
  ℕ, ◌+◌, ◌≡◌, ◌↔◌, refl, sym, ◌∙◌, List, Mem, none, some, inl, inr, Option-cases, Bool, true,
  false, arith, if◌then◌else◌,
}
use data_exfiltration_detect.Common.Text.{Text, text_discrete}
use data_exfiltration_detect.Common.Maps.{
  HasUniqueKeys, keys, mem-keys-lookup, lookup-none_iff, mem-lookup_iff,
}
use data_exfiltration_detect.Common.Sums.{sum_by, sum_by-congr, sum_by-map, sum_by-shared}
use data_exfiltration_detect.Network.TransferRateTracker.State.{TrackedTransfer}
use data_exfiltration_detect.Network.TransferRateTracker.Connections.{TrackedTransfer-set}
use data_exfiltration_detect.Network.TransferRateTracker.Totals.{share, total}

module _ {Double : Type 0} (set : IsSet Double) (cumulative : TrackedTransfer Double → ℕ)
    (pid : ℕ) where
  -- What the closing loop adds for a process.
  abbrev pub lost : List (Text × TrackedTransfer Double) → Text × TrackedTransfer Double → ℕ
  lost next e = elim (lookup text_discrete e.0 next) [ none ↦ share cumulative pid e | some w ↦ 0 ]

  -- What a tracker holds for a process under a key.
  abbrev pub share_at : List (Text × TrackedTransfer Double) → Text → ℕ
  share_at m k = elim (lookup text_discrete k m) [ none ↦ 0 | some v ↦ share cumulative pid (k, v) ]

  share_at_entry :
      (m : List (Text × TrackedTransfer Double))
      → HasUniqueKeys m
      → (e : Text × TrackedTransfer Double) → Mem e m
      → share_at m e.0 ≡ share cumulative pid e
  share_at_entry m u (k, v) mem =
      rw ((mem-lookup_iff text_discrete (TrackedTransfer-set set) k v m u).0 mem, share_at) refl

  share_at_absent :
      (m : List (Text × TrackedTransfer Double)) (k : Text) → ¬ Mem k (keys m) → share_at m k ≡ 0
  share_at_absent m k h = rw ((lookup-none_iff text_discrete k m).1 h, share_at) refl

  abbrev outside : List (Text × TrackedTransfer Double) → Text → Bool
  outside next k = elim (lookup text_discrete k next) [ none ↦ true | some v ↦ false ]

  mem-keys_iff :
      (next : List (Text × TrackedTransfer Double)) (k : Text)
      → Mem k (keys next) ↔ (outside next k ≡ false)
  mem-keys_iff next k = elim (Option-cases (lookup text_discrete k next)) [
    | inl e ↦ (
      λ mem. absurd ((lookup-none_iff text_discrete k next).0 e mem),
      λ h. absurd (ground (arith, e)),
    )
    | inr (v, e) ↦ (λ mem. ground (arith, e), λ h. mem-keys-lookup text_discrete k v next e)
  ]

  -- The shares of the connections that stay and of those that go make up the total.
  pub shares_split :
      (m next : List (Text × TrackedTransfer Double))
      → HasUniqueKeys m
      → HasUniqueKeys next
      → sum_by (share_at m) (keys next) + sum_by (lost next) m ≡ total cumulative pid m
  shares_split m next um un =
      let go =
        sum_by-shared text_discrete (share_at m) (outside next) (keys m) (keys next) um un
          (mem-keys_iff next) (share_at_absent m) in
      let gone : sum_by (lost next) m
          ≡ sum_by (λ k. if outside next k then share_at m k else 0) (keys m) =
        sum_by-congr (lost next) (λ e. if outside next e.0 then share_at m e.0 else 0) m
          (λ e mem. elim (Option-cases (lookup text_discrete e.0 next)) [
            | inl x ↦ ground (arith, x, share_at_entry m um e mem)
            | inr (v, x) ↦ ground (arith, x)
          ])
        ∙ sym (sum_by-map (λ k. if outside next k then share_at m k else 0) (λ e. e.0) m) in
      let all : sum_by (share_at m) (keys m) ≡ total cumulative pid m =
        sum_by-map (share_at m) (λ e. e.0) m
        ∙ sum_by-congr (λ e. share_at m e.0) (share cumulative pid) m (share_at_entry m um) in
      omega (arith, go, gone, all)
