-- ===== src/Common/Snapshots.antt =====
-- The two loops that every snapshot tracker has: one that builds the next map from the rows of a
-- snapshot, skipping a row whose key was seen, and one that reports the entries of a map whose
-- keys another map lacks.
use mathlib.Core.List.{
  List, [], ◌∷◌, lookup, Mem, Nodup-nil, mem-cons_self, mem-cons_of_mem, eq-or-mem_of_mem-cons,
  not-mem-nil, Mem-prop,
}
use mathlib.Core.List.Perm
use mathlib.Core.Logic.Or
use mathlib.Core.Logic.{◌↔◌, ◌≢◌, inl, inr, ite, if_neg, ∥∥₁_prop, ∥∥₁_elim, ∥∥₁_map}
use mathlib.Core.Option
use mathlib.Core.Option.{Option, none, some}
use mathlib.Core.Path.{◌≡◌, refl, sym, ap, ◌∙◌}
use mathlib.Core.Bool.{true}
use native.Mathlib.Omega.{arith}
use data_exfiltration_detect.Common.Tests.{if◌then◌else◌, Option-cases, Bool-cases}
use data_exfiltration_detect.Common.Maps.{
  Visit, HasUniqueKeys, contains, emplace, lookup-emplace_new, emplace-HasUniqueKeys,
  mem-lookup_iff,
}

-- The loop's two local variables: the set of keys seen, and the map under construction.
pub record Pass {ℓ} (K V : Type ℓ) : Type ℓ where
  pub seen : List K
  pub next : List (K × V)

abbrev pub start {ℓ} : {K V : Type ℓ} → Pass K V
start = record { seen = []; next = [] }

module _ {ℓ} {K V : Type ℓ} (dec : Discrete K) where
  -- `if (!seen.insert(key).second) continue; ... next.emplace(key, value);`
  unfoldable pub admit : K → V → Pass K V → Pass K V
  unfolding contains emplace
  admit k v p =
      if contains dec k p.seen
      then p
      else record { seen = k ∷ p.seen; next = emplace dec k v p.next }

module _ {ℓ} {K R : Type ℓ} (dec : Discrete K) (key : R → K) where
  -- The first row of a snapshot with a key.
  unfoldable pub first_row : K → List R → Option R
  first_row k [] = none
  first_row k (r ∷ rows) = ite (dec k (key r)) (some r) (first_row k rows)

  -- It is a row with that key.
  pub first_row-key : (k : K) (rows : List R) (r : R) → first_row k rows ≡ some r → key r ≡ k
  unfolding first_row
  first_row-key k [] r h = cc
  first_row-key k (s ∷ rows) r h = elim (dec k (key s)) [
    | yes p ↦ ground arith
    | no p ↦ first_row-key k rows r (rw (if_neg (dec k (key s)) p (some s) (first_row k rows)) at h)
  ]

  -- There is none exactly when every row has another key.
  abbrev pub NoRow : K → List R → Type ℓ
  NoRow k [] = Unit
  NoRow k (r ∷ rows) = (k ≢ key r) × NoRow k rows

  pub first_row-none_iff : (k : K) (rows : List R) → (first_row k rows ≡ none) ↔ NoRow k rows
  unfolding first_row
  first_row-none_iff k [] = (λ h. tt, λ h. refl)
  first_row-none_iff k (r ∷ rows) = ground (arith, first_row-none_iff k rows)

module _ {ℓ} {K V R : Type ℓ} (dec : Discrete K) (key : R → K) (build : R → V) where
  unfoldable pub scan_rows : Pass K V → List R → Pass K V
  unfolding admit
  scan_rows p [] = p
  scan_rows p (r ∷ rows) = scan_rows (admit dec (key r) (build r) p) rows

  -- A key is in the set exactly when it has an entry.
  abbrev InStep : Pass K V → Type ℓ
  InStep p = (q : K) → (contains dec q p.seen ≡ true) ↔ (lookup dec q p.next ≢ none)

  admit-InStep : (k : K) (v : V) (p : Pass K V) → InStep p → InStep (admit dec k v p)
  unfolding admit contains
  admit-InStep k v p s q = elim (Bool-cases (contains dec k p.seen)) [
    | inl e ↦ rw e (s q)
    | inr e ↦ rw e (ground (arith, s q, s k, lookup-emplace_new dec q k v p.next))
  ]

  or_else : Option V → Option V → Option V
  or_else none o = o
  or_else (some v) o = some v

  lookup-admit :
      (q k : K) (v : V) (p : Pass K V)
      → InStep p
      → lookup dec q (admit dec k v p).next
        ≡ or_else (lookup dec q p.next) (ite (dec q k) (some v) none)
  unfolding admit or_else
  lookup-admit q k v p s = elim (Bool-cases (contains dec k p.seen)) [
    | inl e ↦ rw e (ground (arith, s k))
    | inr e ↦ rw e (ground (arith, s k, lookup-emplace_new dec q k v p.next))
  ]

  lookup-scan_rows_from :
      (q : K) (p : Pass K V) (rows : List R)
      → InStep p
      → lookup dec q (scan_rows p rows).next
        ≡ or_else (lookup dec q p.next) (Option.map build (first_row dec key q rows))
  unfolding scan_rows first_row or_else
  lookup-scan_rows_from q p [] s = ground arith
  lookup-scan_rows_from q p (r ∷ rows) s =
      let next = admit dec (key r) (build r) p in
      ground (
        arith,
        lookup-scan_rows_from q next rows (admit-InStep (key r) (build r) p s),
        lookup-admit q (key r) (build r) p s,
      )

  start-InStep : InStep start
  unfolding contains lookup
  start-InStep q = (λ h. cc, λ h. absurd (h refl))

  -- The map holds what is built of the first row with each key.
  pub lookup-scan_rows :
      (q : K) (rows : List R)
      → lookup dec q (scan_rows start rows).next ≡ Option.map build (first_row dec key q rows)
  unfolding lookup or_else
  lookup-scan_rows q rows = lookup-scan_rows_from q start rows start-InStep

  admit-HasUniqueKeys :
      (k : K) (v : V) (p : Pass K V) → HasUniqueKeys p.next → HasUniqueKeys (admit dec k v p).next
  unfolding admit
  admit-HasUniqueKeys k v p u = elim (Bool-cases (contains dec k p.seen)) [
    | inl e ↦ rw e u
    | inr e ↦ rw e (emplace-HasUniqueKeys dec k v p.next u)
  ]

  scan_rows-HasUniqueKeys_from :
      (p : Pass K V) (rows : List R) → HasUniqueKeys p.next → HasUniqueKeys (scan_rows p rows).next
  unfolding scan_rows
  scan_rows-HasUniqueKeys_from p [] u = u
  scan_rows-HasUniqueKeys_from p (r ∷ rows) u =
      scan_rows-HasUniqueKeys_from (admit dec (key r) (build r) p) rows
        (admit-HasUniqueKeys (key r) (build r) p u)

  pub scan_rows-HasUniqueKeys : (rows : List R) → HasUniqueKeys (scan_rows start rows).next
  scan_rows-HasUniqueKeys rows = scan_rows-HasUniqueKeys_from start rows Nodup-nil

module _ {K V W E : Type 0} (dec : Discrete K) (other : List (K × W)) (emit : V → E) where
  -- `for (auto& [k, v] : entries) if (other.find(k) == other.end()) out.emplace_back(emit(v));`
  unfoldable pub missing_from : List (K × V) → List E
  unfolding lookup
  missing_from [] = []
  missing_from ((k, v) ∷ entries) =
      let rest = missing_from entries in
      elim (lookup dec k other) [ none ↦ emit v ∷ rest | some w ↦ rest ]

  -- An entry whose key the other map lacks, and what is emitted for it.
  abbrev Emits : List (K × V) → E → Type 0
  Emits m e = ∥ ((k : K) × (v : V) × (Mem (k, v) m) × (lookup dec k other ≡ none) × (e ≡ emit v)) ∥₁

  Emits-cons : (x : K × V) (m : List (K × V)) (e : E) → Emits m e → Emits (x ∷ m) e
  Emits-cons x m e h = ∥∥₁_map h (λ (k, v, mem, gone, p). (k, v, mem-cons_of_mem x mem, gone, p))

  missing_from→Emits : (e : E) (m : List (K × V)) → Mem e (missing_from m) → Emits m e
  unfolding missing_from
  missing_from→Emits e [] h = absurd (not-mem-nil h)
  missing_from→Emits e ((k, v) ∷ m) h = elim (Option-cases (lookup dec k other)) [
    | inl gone ↦
        Or.elim ∥∥₁_prop (eq-or-mem_of_mem-cons (rw (gone, missing_from) at h))
          (λ p. ∣ (k, v, mem-cons_self, gone, p) ∣₁)
          (λ t. Emits-cons (k, v) m e (missing_from→Emits e m t))
    | inr (w, held) ↦ Emits-cons (k, v) m e (missing_from→Emits e m (rw (held, missing_from) at h))
  ]

  mem-missing_from_tail :
      (e : E) (x : K × V) (m : List (K × V)) → Mem e (missing_from m) → Mem e (missing_from (x ∷ m))
  unfolding missing_from
  mem-missing_from_tail e (k, v) m h = elim (Option-cases (lookup dec k other)) [
    | inl gone ↦ rw (gone, missing_from) (mem-cons_of_mem _ h)
    | inr (w, held) ↦ rw (held, missing_from) h
  ]

  Emits→missing_from :
      (k : K) (v : V) (m : List (K × V))
      → lookup dec k other ≡ none
      → Mem (k, v) m
      → Mem (emit v) (missing_from m)
  unfolding missing_from
  Emits→missing_from k v [] gone h = absurd (not-mem-nil h)
  Emits→missing_from k v ((j, w) ∷ m) gone h =
      Or.elim Mem-prop (eq-or-mem_of_mem-cons h)
        (λ p.
          rw (rw (ap (λ (x : K × V). x.0) p) at gone, missing_from, ap (λ (x : K × V). x.1) p)
            mem-cons_self)
        (λ t. mem-missing_from_tail (emit v) (j, w) m (Emits→missing_from k v m gone t))

  -- Nothing is emitted when the other map has every key.
  missing_from-none :
      (m : List (K × V))
      → ((k : K) (v : V) → Mem (k, v) m → lookup dec k other ≢ none)
      → missing_from m ≡ []
  unfolding missing_from
  missing_from-none [] h = refl
  missing_from-none ((k, v) ∷ m) h = elim (Option-cases (lookup dec k other)) [
    | inl gone ↦ absurd (h k v mem-cons_self gone)
    | inr (w, held) ↦
        rw (held, missing_from) (missing_from-none m (λ j u t. h j u (mem-cons_of_mem (k, v) t)))
  ]

  -- Whatever the order of the loop, the emitted values are those of the entries that the map holds
  -- and the other lacks.
  pub mem-missing_from_iff :
      (order : Visit K) (set : IsSet V) (m : List (K × V))
      → HasUniqueKeys m
      → (e : E)
      → Mem e (missing_from (order.visit m))
        ↔ ∥ (
            (k : K) × (v : V) × (lookup dec k m ≡ some v)
            × (lookup dec k other ≡ none)
            × (e ≡ emit v)) ∥₁
  mem-missing_from_iff order set m u e = (
    λ h. ∥∥₁_map (missing_from→Emits e (order.visit m) h) (λ (k, v, mem, gone, p). (
      k,
      v,
      (mem-lookup_iff dec set k v m u).0 ((Perm.mem_iff (order.visit-perm m)).0 mem),
      gone,
      p,
    )),
    λ h. ∥∥₁_elim h Mem-prop (λ (k, v, found, gone, p). rw p (
        Emits→missing_from k v (order.visit m) gone
          ((Perm.mem_iff (order.visit-perm m)).1 ((mem-lookup_iff dec set k v m u).1 found)))),
  )

  -- Nothing is emitted, in any order, when the other map has every key of this one.
  pub missing_from-visit_none :
      (order : Visit K) (set : IsSet V) (m : List (K × V))
      → HasUniqueKeys m
      → ((k : K) → lookup dec k m ≢ none → lookup dec k other ≢ none)
      → missing_from (order.visit m) ≡ []
  missing_from-visit_none order set m u h = missing_from-none (order.visit m) (λ k v mem. h k (λ e.
      some-ne-none
        (sym ((mem-lookup_iff dec set k v m u).0 ((Perm.mem_iff (order.visit-perm m)).0 mem)) ∙ e)))
    where
      some-ne-none : {v : V} → some v ≢ none
      some-ne-none h = cc
