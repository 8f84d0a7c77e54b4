-- ===== src/Common/Maps.antt =====
-- `std::unordered_map` as an association list and `std::unordered_set` as a list of its keys, with
-- what the program uses of them, and the two loops that all snapshot trackers share.
use mathlib.Core.List.{
  List, [], ◌∷◌, ◌++◌, map, lookup, Mem, Perm, Nodup, Nodup-cons, not-mem-nil, mem-cons_self,
  mem-cons_of_mem, eq-or-mem_of_mem-cons, mem-map_of_mem, map-append, perm_append_singleton,
  Sublist, nil-sublist,
}
use mathlib.Core.List.Nodup
use mathlib.Core.List.Sublist
use mathlib.Core.List.Perm
use mathlib.Core.Logic.Or
use mathlib.Core.Logic.{◌≢◌, ◌↔◌, inl, inr, ite, if_pos, if_neg}
use mathlib.Core.Option
use mathlib.Core.Option.{Option, none, some, is_set as Option-set}
use mathlib.Core.Path.{◌≡◌, refl, sym, ap, ◌∙◌, subst}
use mathlib.Core.Bool.{Bool, true, false, Bool-set}
use mathlib.Core.HLevel.{⊥_prop}
use native.Mathlib.Omega.{arith}
use data_exfiltration_detect.Common.Tests.{Option-cases}

-- The order in which a loop visits the entries of an `unordered_map` is not specified: each
-- operation that loops over a map takes the order, any permutation of the entries.
pub record Visit (K : Type 0) : Type 1 where
  pub visit : {V : Type 0} → List (K × V) → List (K × V)
  pub visit-perm : {V : Type 0} (m : List (K × V)) → Perm (visit m) m

-- The order of insertion is one such order.
abbrev pub in_order : {K : Type 0} → Visit K
in_order = record { visit = λ m. m; visit-perm = λ m. Perm.refl m }

abbrev pub keys {ℓ} : {K V : Type ℓ} → List (K × V) → List K
keys = map (λ e. e.0)

-- No key has two entries, which `unordered_map` promises.
abbrev pub HasUniqueKeys {ℓ} : {K V : Type ℓ} → List (K × V) → Type ℓ
HasUniqueKeys m = Nodup (keys m)

Nodup-snoc {ℓ} : {K : Type ℓ} (k : K) (s : List K) → Nodup s → ¬ Mem k s → Nodup (s ++ (k ∷ []))
Nodup-snoc k s u h = Perm.nodup (Perm.symm (perm_append_singleton k s)) (Nodup-cons.1 (h, u))

module _ {ℓ} {K : Type ℓ} (dec : Discrete K) where
  -- `set.count(k)`.
  unfoldable pub contains : K → List K → Bool
  contains k [] = false
  contains k (j ∷ s) = ite (dec k j) true (contains k s)

  -- A set contains what is an element of the list of its keys.
  pub contains_iff : (k : K) (s : List K) → (contains k s ≡ true) ↔ Mem k s
  unfolding contains
  contains_iff k [] = (λ h. cc, λ m. absurd (not-mem-nil m))
  contains_iff k (j ∷ s) = elim (dec k j) [
    | yes p ↦ (λ h. rw p mem-cons_self, λ m. ground (arith, p))
    | no p ↦ (
      λ h. mem-cons_of_mem j ((contains_iff k s).0 (ground (arith, h, p))),
      λ m.
          Or.elim (Bool-set _ _) (eq-or-mem_of_mem-cons m) (λ here. absurd (p here))
            (λ t. ground (arith, p, (contains_iff k s).1 t)),
    )
  ]

module _ {ℓ} {K V : Type ℓ} (dec : Discrete K) where
  -- `m[k] = v`.
  unfoldable pub assign : K → V → List (K × V) → List (K × V)
  assign k v [] = (k, v) ∷ []
  assign k v ((j, w) ∷ m) = ite (dec k j) ((j, v) ∷ m) ((j, w) ∷ assign k v m)

  -- `m.emplace(k, v)`: an entry that is there stays.
  unfoldable pub emplace : K → V → List (K × V) → List (K × V)
  unfolding lookup
  emplace k v m = elim (lookup dec k m) [ none ↦ m ++ ((k, v) ∷ []) | some w ↦ m ]

  -- `m.erase(k)`.
  unfoldable pub erase : K → List (K × V) → List (K × V)
  erase k [] = []
  erase k ((j, w) ∷ m) = let rest = erase k m in ite (dec k j) rest ((j, w) ∷ rest)

  pub lookup-assign :
      (q k : K) (v : V) (m : List (K × V))
      → lookup dec q (assign k v m) ≡ ite (dec q k) (some v) (lookup dec q m)
  unfolding lookup assign
  lookup-assign q k v [] = ground arith
  lookup-assign q k v ((j, w) ∷ m) = ground (arith, lookup-assign q k v m)

  pub lookup-erase :
      (q k : K) (m : List (K × V)) → lookup dec q (erase k m) ≡ ite (dec q k) none (lookup dec q m)
  unfolding lookup erase
  lookup-erase q k [] = ground arith
  lookup-erase q k ((j, w) ∷ m) = ground (arith, lookup-erase q k m)

  lookup-append_one :
      (q k : K) (v : V) (m : List (K × V))
      → lookup dec k m ≡ none
      → lookup dec q (m ++ ((k, v) ∷ [])) ≡ ite (dec q k) (some v) (lookup dec q m)
  unfolding lookup
  lookup-append_one q k v [] h = refl
  lookup-append_one q k v ((j, w) ∷ m) h = ground (arith, lookup-append_one q k v m)

  pub lookup-emplace_new :
      (q k : K) (v : V) (m : List (K × V))
      → lookup dec k m ≡ none
      → lookup dec q (emplace k v m) ≡ ite (dec q k) (some v) (lookup dec q m)
  unfolding emplace
  lookup-emplace_new q k v m h = rw (h, emplace) (lookup-append_one q k v m h)

  none→not-mem : (k : K) (m : List (K × V)) → lookup dec k m ≡ none → ¬ Mem k (keys m)
  unfolding lookup
  none→not-mem k [] h = not-mem-nil
  none→not-mem k ((j, w) ∷ m) h = λ mem.
      Or.elim ⊥_prop (eq-or-mem_of_mem-cons mem) (λ here. ground arith)
        (none→not-mem k m (ground arith))

  not-mem→none : (k : K) (m : List (K × V)) → ¬ Mem k (keys m) → lookup dec k m ≡ none
  unfolding lookup
  not-mem→none k [] h = refl
  not-mem→none k ((j, w) ∷ m) h = elim (dec k j) [
    | yes p ↦ absurd (h (rw p mem-cons_self))
    | no p ↦ rw (if_neg _ p) (not-mem→none k m (λ x. h (mem-cons_of_mem j x)))
  ]

  -- A lookup fails exactly when no entry has the key.
  pub lookup-none_iff : (k : K) (m : List (K × V)) → (lookup dec k m ≡ none) ↔ (¬ Mem k (keys m))
  lookup-none_iff k m = (none→not-mem k m, not-mem→none k m)

  mem-keys : (k : K) (v : V) (m : List (K × V)) → Mem (k, v) m → Mem k (keys m)
  mem-keys k v m h = mem-map_of_mem (λ e. e.0) h

  -- In a map, the entries are exactly what the lookups give.
  mem→lookup :
      IsSet V
      → (k : K) (v : V) (m : List (K × V)) → HasUniqueKeys m
      → Mem (k, v) m
      → lookup dec k m ≡ some v
  unfolding lookup
  mem→lookup set k v [] u h = absurd (not-mem-nil h)
  mem→lookup set k v ((j, w) ∷ m) u h =
      Or.elim ((Option-set set) _ _) (eq-or-mem_of_mem-cons h)
        (λ e.
          rw (if_pos (dec k j) (ap (λ (x : K × V). x.0) e) _ _)
            (ap (λ (x : K × V). some x.1) (sym e)))
        (λ t.
          rw (if_neg (dec k j) (λ (p : k ≡ j). (Nodup-cons.0 u).0 (rw p at (mem-keys k v m t))) _ _)
            (mem→lookup set k v m (Nodup-cons.0 u).1 t))

  pub lookup→mem : (k : K) (v : V) (m : List (K × V)) → lookup dec k m ≡ some v → Mem (k, v) m
  unfolding lookup
  lookup→mem k v [] h = cc
  lookup→mem k v ((j, w) ∷ m) h = elim (dec k j) [
    | yes p ↦ ground (arith, mem-cons_self {a = (j, w)} {l = m})
    | no p ↦ mem-cons_of_mem (j, w) (lookup→mem k v m (ground arith))
  ]

  -- A key that is found has an entry.
  pub mem-keys-lookup :
      (k : K) (v : V) (m : List (K × V)) → lookup dec k m ≡ some v → Mem k (keys m)
  mem-keys-lookup k v m h = mem-keys k v m (lookup→mem k v m h)

  pub mem-lookup_iff :
      IsSet V
      → (k : K) (v : V) (m : List (K × V)) → HasUniqueKeys m
      → Mem (k, v) m ↔ (lookup dec k m ≡ some v)
  mem-lookup_iff set k v m u = (mem→lookup set k v m u, lookup→mem k v m)

  -- A lookup does not depend on the order of the entries.
  pub lookup-perm :
      IsSet V
      → (k : K) {m m' : List (K × V)} → HasUniqueKeys m
      → Perm m' m
      → lookup dec k m' ≡ lookup dec k m
  lookup-perm set k {m} {m'} u p =
      let u' = Perm.nodup (Perm.symm (Perm.map (λ e. e.0) p)) u in
      elim (Option-cases (lookup dec k m')) [
        | inl e ↦ elim (Option-cases (lookup dec k m)) [
          | inl f ↦ e ∙ sym f
          | inr (v, f) ↦
              absurd
                (none→not-mem k m' e (mem-keys k v m' ((Perm.mem_iff p).1 (lookup→mem k v m f))))
        ]
        | inr (v, e) ↦ e ∙ sym (mem→lookup set k v m u ((Perm.mem_iff p).0 (lookup→mem k v m' e)))
      ]

  keys-assign_present :
      (k : K) (v : V) (m : List (K × V)) → lookup dec k m ≢ none → keys (assign k v m) ≡ keys m
  unfolding lookup assign
  keys-assign_present k v [] h = absurd (h refl)
  keys-assign_present k v ((j, w) ∷ m) h = ground (arith, keys-assign_present k v m)

  keys-assign_new :
      (k : K) (v : V) (m : List (K × V))
      → lookup dec k m ≡ none
      → keys (assign k v m) ≡ keys m ++ (k ∷ [])
  unfolding lookup assign
  keys-assign_new k v [] h = refl
  keys-assign_new k v ((j, w) ∷ m) h = ground (arith, keys-assign_new k v m)

  pub assign-HasUniqueKeys :
      (k : K) (v : V) (m : List (K × V)) → HasUniqueKeys m → HasUniqueKeys (assign k v m)
  assign-HasUniqueKeys k v m u = elim (Option-cases (lookup dec k m)) [
    | inl e ↦
        subst Nodup (sym (keys-assign_new k v m e)) (Nodup-snoc k (keys m) u (none→not-mem k m e))
    | inr (w, e) ↦
        subst Nodup (sym (keys-assign_present k v m (λ (x : lookup dec k m ≡ none). cc))) u
  ]

  pub emplace-HasUniqueKeys :
      (k : K) (v : V) (m : List (K × V)) → HasUniqueKeys m → HasUniqueKeys (emplace k v m)
  unfolding emplace
  emplace-HasUniqueKeys k v m u = elim (Option-cases (lookup dec k m)) [
    | inl e ↦
        rw (e, emplace)
          (subst Nodup (sym (map-append _ m _)) (Nodup-snoc k (keys m) u (none→not-mem k m e)))
    | inr (w, e) ↦ rw (e, emplace) u
  ]

  keys-erase-sublist : (k : K) (m : List (K × V)) → Sublist (keys (erase k m)) (keys m)
  unfolding erase
  keys-erase-sublist k [] = nil-sublist []
  keys-erase-sublist k ((j, w) ∷ m) = elim (dec k j) [
    | yes p ↦ rw (if_pos _ p) (Sublist.cons j (keys-erase-sublist k m))
    | no p ↦ rw (if_neg _ p) (Sublist.cons-cons j (keys-erase-sublist k m))
  ]

  pub erase-HasUniqueKeys : (k : K) (m : List (K × V)) → HasUniqueKeys m → HasUniqueKeys (erase k m)
  erase-HasUniqueKeys k m u = Nodup.sublist (keys-erase-sublist k m) u

-- Buckets: `m[k].push_back(v)`, where a missing key stands for an empty vector.
module _ {ℓ} {K V : Type ℓ} (dec : Discrete K) where
  unfoldable pub bucket : K → List (K × List V) → List V
  unfolding lookup
  bucket k m = Option.get_or (lookup dec k m) []

  unfoldable pub push_back : K → V → List (K × List V) → List (K × List V)
  unfolding assign bucket
  push_back k v m = assign dec k (bucket k m ++ (v ∷ [])) m

  pub bucket-push_back :
      (q k : K) (v : V) (m : List (K × List V))
      → bucket q (push_back k v m) ≡ ite (dec q k) (bucket k m ++ (v ∷ [])) (bucket q m)
  unfolding bucket push_back
  bucket-push_back q k v m = ground (arith, lookup-assign dec q k (bucket k m ++ (v ∷ [])) m)

  pub push_back-HasUniqueKeys :
      (k : K) (v : V) (m : List (K × List V)) → HasUniqueKeys m → HasUniqueKeys (push_back k v m)
  unfolding push_back
  push_back-HasUniqueKeys k v m u = assign-HasUniqueKeys dec k (bucket k m ++ (v ∷ [])) m u
