-- ===== src/Common/Sums.antt =====
-- Sums over the elements of a list, and over the keys that two lists share.
use mathlib.Core.List.{
  List, [], ◌∷◌, foldr, Mem, Perm, Nodup, filter, mem-filter, mem-cons_self, mem-cons_of_mem,
  not-mem-nil, eq-or-mem_of_mem-cons, perm_ext_iff_of_Nodup, filter-sublist, dec_mem, map,
}
use mathlib.Core.List.Nodup
use mathlib.Core.List.Perm
use mathlib.Core.Logic.Or
use mathlib.Core.Logic.{inl, inr, ite, if_pos, if_neg, ◌↔◌}
use mathlib.Core.Path.{◌≡◌, refl, sym, ap, ap₂, ◌∙◌}
use mathlib.Core.Bool.{Bool, false}
use Prim.Native.Nat.{ℕ, ◌+◌, ◌%◌, ◌^◌}
use native.Mathlib.Nat.{ℕ_set}
use native.Mathlib.Omega.{arith}
use data_exfiltration_detect.Common.Tests.{if◌then◌else◌, Bool-cases}

module _ {ℓ} {A : Type ℓ} where
  unfoldable pub sum_by : (A → ℕ) → List A → ℕ
  sum_by w [] = 0
  sum_by w (x ∷ xs) = w x + sum_by w xs

  sum_by-foldr : (w : A → ℕ) (xs : List A) → sum_by w xs ≡ foldr (λ x n. w x + n) 0 xs
  unfolding sum_by
  sum_by-foldr w [] = refl
  sum_by-foldr w (x ∷ xs) = ap (λ n. w x + n) (sum_by-foldr w xs)

  -- A sum does not depend on the order.
  pub sum_by-perm : (w : A → ℕ) {xs ys : List A} → Perm xs ys → sum_by w xs ≡ sum_by w ys
  sum_by-perm w {xs} {ys} p =
      sum_by-foldr w xs
      ∙ Perm.foldr-eq ℕ_set (λ x n. w x + n) (λ a b n. omega arith) p 0
      ∙ sym (sum_by-foldr w ys)

  pub sum_by-congr :
      (v w : A → ℕ) (xs : List A) → ((x : A) → Mem x xs → v x ≡ w x) → sum_by v xs ≡ sum_by w xs
  unfolding sum_by
  sum_by-congr v w [] h = refl
  sum_by-congr v w (x ∷ xs) h =
      ap₂ ◌+◌ (h x mem-cons_self) (sum_by-congr v w xs (λ y m. h y (mem-cons_of_mem x m)))

  sum_by-filter {κ} :
      {P : A → Type κ} (d : (x : A) → Dec (P x)) (w : A → ℕ) (xs : List A)
      → sum_by w (filter d xs) ≡ sum_by (λ x. ite (d x) (w x) 0) xs
  unfolding sum_by
  sum_by-filter d w [] = refl
  sum_by-filter d w (x ∷ xs) = elim (d x) [
    | yes p ↦
        rw (if_pos (d x) p (x ∷ filter d xs) (filter d xs), if_pos (d x) p (w x) 0)
          (ap (λ n. w x + n) (sum_by-filter d w xs))
    | no p ↦
        rw (if_neg (d x) p (x ∷ filter d xs) (filter d xs), if_neg (d x) p (w x) 0)
          (omega (arith, sum_by-filter d w xs))
  ]

  sum_by-add :
      (u v w : A → ℕ) (xs : List A)
      → ((x : A) → u x ≡ v x + w x)
      → sum_by u xs ≡ sum_by v xs + sum_by w xs
  unfolding sum_by
  sum_by-add u v w [] h = omega arith
  sum_by-add u v w (x ∷ xs) h = omega (arith, h x, sum_by-add u v w xs h)

  -- A sum over one set of keys of what is zero outside of another: with what the other has beyond
  -- the first, it is the sum over the other.
  pub sum_by-shared :
      Discrete A
      → (w : A → ℕ) (outside : A → Bool) (ks js : List A) → Nodup ks
      → Nodup js
      → ((x : A) → Mem x js ↔ (outside x ≡ false))
      → ((x : A) → ¬ Mem x ks → w x ≡ 0)
      → sum_by w js + sum_by (λ x. if outside x then w x else 0) ks ≡ sum_by w ks
  sum_by-shared dec w outside ks js uk uj inside vanish = omega (
    arith,
    kept,
    same,
    sum_by-filter in_js w ks,
    sum_by-add w (λ x. ite (in_js x) (w x) 0) (λ x. if outside x then w x else 0) ks split,
  )
    where
      in_ks : (x : A) → Dec (Mem x ks)
      in_ks x = dec_mem dec x ks

      in_js : (x : A) → Dec (Mem x js)
      in_js x = dec_mem dec x js

      kept : sum_by w js ≡ sum_by w (filter in_ks js)
      kept =
          sum_by-congr w (λ x. ite (in_ks x) (w x) 0) js
            (λ x m. elim (in_ks x) [
              | yes p ↦ sym (if_pos (in_ks x) p _ _)
              | no p ↦ vanish x p ∙ sym (if_neg (in_ks x) p _ _)
            ])
          ∙ sym (sum_by-filter in_ks w js)

      same : sum_by w (filter in_ks js) ≡ sum_by w (filter in_js ks)
      same = sum_by-perm w (
          (perm_ext_iff_of_Nodup (Nodup.sublist (filter-sublist in_ks) uj)
              (Nodup.sublist (filter-sublist in_js) uk)).1
            (λ x. (
              λ m. (mem-filter in_js).1 (((mem-filter in_ks).0 m).1, ((mem-filter in_ks).0 m).0),
              λ m. (mem-filter in_ks).1 (((mem-filter in_js).0 m).1, ((mem-filter in_js).0 m).0),
            )))

      split : (x : A) → w x ≡ ite (in_js x) (w x) 0 + (if outside x then w x else 0)
      split x = elim (in_js x) [
        | yes p ↦ rw (if_pos (in_js x) p, (inside x).0 p) (omega arith)
        | no p ↦ elim (Bool-cases (outside x)) [
          | inl e ↦ rw (if_neg (in_js x) p, e) (omega arith)
          | inr e ↦ absurd (p ((inside x).1 e))
        ]
      ]

-- A sum over the elements of a mapped list.
pub sum_by-map {ℓ κ} :
    {A : Type ℓ} {B : Type κ} (w : B → ℕ) (f : A → B) (xs : List A)
    → sum_by w (map f xs) ≡ sum_by (λ x. w (f x)) xs
unfolding sum_by
sum_by-map w f [] = refl
sum_by-map w f (x ∷ xs) = ap (λ n. w (f x) + n) (sum_by-map w f xs)

-- Sums of machine words that are congruent element by element.
pub sum_by-mod {ℓ} :
    {A : Type ℓ} (u v w : A → ℕ) (xs : List A)
    → ((x : A) → Mem x xs → u x % 2 ^ 64 ≡ (v x + w x) % 2 ^ 64)
    → sum_by u xs % 2 ^ 64 ≡ (sum_by v xs + sum_by w xs) % 2 ^ 64
unfolding sum_by
sum_by-mod u v w [] h = omega arith
sum_by-mod u v w (x ∷ xs) h =
    omega (arith, h x mem-cons_self, sum_by-mod u v w xs (λ y m. h y (mem-cons_of_mem x m)))

-- A sum is zero only if every element counts nothing.
pub sum_by-zero {ℓ} :
    {A : Type ℓ} (w : A → ℕ) (xs : List A) → sum_by w xs ≡ 0 → (x : A) → Mem x xs → w x ≡ 0
unfolding sum_by
sum_by-zero w [] h x m = absurd (not-mem-nil m)
sum_by-zero w (y ∷ xs) h x m =
    Or.elim (ℕ_set _ _) (eq-or-mem_of_mem-cons m) (λ p. rw p (omega (arith, h)))
      (sum_by-zero w xs (omega (arith, h)) x)
