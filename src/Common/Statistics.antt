-- ===== src/Common/Statistics.antt =====
-- The two loops that the upload and download trackers share: one that records the final statistics
-- of what the next map lacks, and one that publishes the statistics of what is active.
use mathlib.Core.List.{List, [], ◌∷◌, lookup, map, Mem, Nodup-cons, mem-cons_self, mem-cons_of_mem}
use mathlib.Core.Logic.{inl, inr, ite}
use mathlib.Core.Option
use mathlib.Core.Option.{Option, none, some}
use mathlib.Core.Path.{◌≡◌, refl, ap₂, subst}
use native.Mathlib.Omega.{arith}
use data_exfiltration_detect.Common.Tests.{Option-cases}
use data_exfiltration_detect.Common.Maps.{
  HasUniqueKeys, keys, assign, emplace, lookup-assign, lookup-emplace_new, lookup-none_iff,
}

-- What a final entry is after a closing loop: that of a value which the next map lacks, else the one
-- that was there.
abbrev pub closing {ℓ} : {W V S : Type ℓ} → (V → S) → Option W → Option V → Option S → Option S
closing final none (some v) old = some (final v)
closing final none none old = old
closing final (some w) v old = old

module _ {ℓ} {K V W S : Type ℓ} (dec : Discrete K) (next : List (K × W)) (final : V → S) where
  -- `for (auto& [k, v] : entries) if (next.find(k) == next.end()) closed[k] = final(v);`
  unfoldable pub record_missing : List (K × S) → List (K × V) → List (K × S)
  unfolding lookup assign
  record_missing closed [] = closed
  record_missing closed ((k, v) ∷ entries) =
      let skipped = record_missing closed entries in
      let kept = record_missing (assign dec k (final v) closed) entries in
      elim (lookup dec k next) [ none ↦ kept | some w ↦ skipped ]

  pub lookup-record_missing :
      (q : K) (closed : List (K × S)) (entries : List (K × V))
      → HasUniqueKeys entries
      → lookup dec q (record_missing closed entries)
        ≡ closing final (lookup dec q next) (lookup dec q entries) (lookup dec q closed)
  unfolding record_missing lookup
  lookup-record_missing q closed [] u = ground arith
  lookup-record_missing q closed ((k, v) ∷ entries) u =
      let fresh = (lookup-none_iff dec k entries).1 (Nodup-cons.0 u).0 in
      ground (
        arith,
        fresh,
        lookup-record_missing q closed entries (Nodup-cons.0 u).1,
        lookup-record_missing q (assign dec k (final v) closed) entries (Nodup-cons.0 u).1,
        lookup-assign dec q k (final v) closed,
      )

-- The first of two results.
abbrev pub or_else {ℓ} : {S : Type ℓ} → Option S → Option S → Option S
or_else none o = o
or_else (some s) o = some s

module _ {ℓ} {K S : Type ℓ} (dec : Discrete K) where
  pub lookup-emplace :
      (q k : K) (s : S) (m : List (K × S))
      → lookup dec q (emplace dec k s m) ≡ or_else (lookup dec q m) (ite (dec q k) (some s) none)
  unfolding emplace
  lookup-emplace q k s m = elim (Option-cases (lookup dec k m)) [
    | inl e ↦ ground (arith, e, lookup-emplace_new dec q k s m e)
    | inr (w, e) ↦ ground (arith, e)
  ]

module _ {ℓ} {K V S : Type ℓ} (dec : Discrete K) (report : V → S) where
  -- `for (auto& [k, v] : entries) { stats.emplace(k, report(v)); results.push_back(stats.at(k)); }`;
  -- `at` finds the key, since it was emplaced just before.
  unfoldable pub publish : List (K × S) → List (K × V) → List (K × S) × List S
  unfolding lookup emplace
  publish stats [] = (stats, [])
  publish stats ((k, v) ∷ entries) =
      let stats' = emplace dec k (report v) stats in
      let rest = publish stats' entries in
      (rest.0, Option.get_or (lookup dec k stats') (report v) ∷ rest.1)

  pub lookup-publish :
      (q : K) (stats : List (K × S)) (entries : List (K × V))
      → lookup dec q (publish stats entries).0
        ≡ or_else (lookup dec q stats) (Option.map report (lookup dec q entries))
  unfolding publish lookup
  lookup-publish q stats [] = ground arith
  lookup-publish q stats ((k, v) ∷ entries) = ground (
    arith,
    lookup-emplace dec q k (report v) stats,
    lookup-publish q (emplace dec k (report v) stats) entries,
  )

  results-publish :
      (stats : List (K × S)) (entries : List (K × V))
      → HasUniqueKeys entries
      → ((k : K) → Mem k (keys entries) → lookup dec k stats ≡ none)
      → (publish stats entries).1 ≡ map (λ e. report e.1) entries
  unfolding publish
  results-publish stats [] u fresh = refl
  results-publish stats ((k, v) ∷ entries) u fresh =
      ap₂ (λ a b. a ∷ b)
        (ground (arith, lookup-emplace dec k k (report v) stats, fresh k mem-cons_self))
        (results-publish (emplace dec k (report v) stats) entries (Nodup-cons.0 u).1 later)
    where
      later : (q : K) → Mem q (keys entries) → lookup dec q (emplace dec k (report v) stats) ≡ none
      later q mem = elim (dec q k) [
        | yes p ↦ absurd ((Nodup-cons.0 u).0 (subst (λ x. Mem x (keys entries)) p mem))
        | no p ↦
            ground (arith, lookup-emplace dec q k (report v) stats, fresh q (mem-cons_of_mem k mem))
      ]

  -- Published into a cleared map, every entry gives one result, in the order of the loop.
  pub results-publish_cleared :
      (entries : List (K × V))
      → HasUniqueKeys entries
      → (publish [] entries).1 ≡ map (λ e. report e.1) entries
  unfolding lookup
  results-publish_cleared entries u = results-publish [] entries u (λ k m. refl)
