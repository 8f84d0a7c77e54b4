-- ===== src/Common/Lists.antt =====
-- Lists measured and cut by native numbers: `std::vector::size`, erasing a front range, and
-- building a vector from a range of iterators.
use Prim.Native.Nat.{ℕ, zero, suc, ◌+◌, ◌-◌, ◌≤◌}
use mathlib.Core.Path.{◌≡◌, refl, ap}
use mathlib.Core.List.{List, [], ◌∷◌, ◌++◌, map, filter, Mem, mem-append, Perm}
use mathlib.Core.List.Perm
use mathlib.Core.List
use mathlib.Core.Bool.{Bool, true, false, false≢true}
use native.Mathlib.Omega.{arith}
use native.Mathlib.Bridge.{from_ℕ}

module _ {ℓ} {A : Type ℓ} where
  abbrev pub length : List A → ℕ
  length [] = 0
  length (x ∷ xs) = suc (length xs)

  abbrev pub is_empty : List A → Bool
  is_empty [] = true
  is_empty (x ∷ xs) = false

  abbrev pub take : ℕ → List A → List A
  take zero xs = []
  take (suc n) [] = []
  take (suc n) (x ∷ xs) = x ∷ take n xs

  abbrev pub drop : ℕ → List A → List A
  drop zero xs = xs
  drop (suc n) [] = []
  drop (suc n) (x ∷ xs) = drop n xs

  pub take-append-drop : (n : ℕ) (xs : List A) → take n xs ++ drop n xs ≡ xs
  take-append-drop zero xs = refl
  take-append-drop (suc n) [] = refl
  take-append-drop (suc n) (x ∷ xs) = rw (take-append-drop n xs)

  pub length-append : (xs ys : List A) → length (xs ++ ys) ≡ length xs + length ys
  length-append [] ys = omega arith
  length-append (x ∷ xs) ys = omega (arith, length-append xs ys)

  pub length-drop : (n : ℕ) (xs : List A) → length (drop n xs) ≡ length xs - n
  length-drop zero xs = omega arith
  length-drop (suc n) [] = omega arith
  length-drop (suc n) (x ∷ xs) = omega (arith, length-drop n xs)

  pub length-filter-le {κ} :
      {P : A → Type κ} (d : (a : A) → Dec (P a)) (xs : List A) → length (filter d xs) ≤ length xs
  length-filter-le d [] = omega arith
  length-filter-le d (x ∷ xs) = ground (arith, length-filter-le d xs)

  length-from_ℕ : (xs : List A) → length xs ≡ from_ℕ (List.length xs)
  length-from_ℕ [] = refl
  length-from_ℕ (x ∷ xs) = ap suc (length-from_ℕ xs)

  pub length-perm : {xs ys : List A} → Perm xs ys → length xs ≡ length ys
  length-perm {xs} {ys} p = rw (length-from_ℕ xs, length-from_ℕ ys) (ap from_ℕ (Perm.length-eq p))

-- A Boolean test as a decision, for the library's `filter`.
abbrev pub bool_dec : (b : Bool) → Dec (b ≡ true)
bool_dec true = yes refl
bool_dec false = no false≢true

-- The loop that pushes back every element that passes a test.
abbrev pub keep_if {ℓ} : {A : Type ℓ} → (A → Bool) → List A → List A
keep_if p = filter (λ x. bool_dec (p x))
