-- ===== src/Common/Sorting.antt =====
-- `std::stable_sort` with a Boolean `less`, as the insertion sort that keeps equivalent elements in
-- their order: its result is the one that the standard's contract determines.
use mathlib.Core.List.{
  List, [], ◌∷◌, Mem, Perm, Pairwise, filter, mem-cons, mem-cons_self, mem-cons_of_mem, not-mem-nil,
  mem-filter,
}
use mathlib.Core.List.Perm
use mathlib.Core.Logic.Or
use mathlib.Core.Logic.{inl, inr, ite, if_pos, if_neg}
use mathlib.Core.Path.{◌≡◌, refl, sym, ◌∙◌, ap, ap₂, subst}
use mathlib.Core.Bool.{Bool, true, false}
use native.Mathlib.Omega.{arith}
use data_exfiltration_detect.Common.Tests.{if◌then◌else◌, Bool-cases}
use data_exfiltration_detect.Common.Lists.{length, length-perm}

module _ {ℓ} {A : Type ℓ} (less : A → A → Bool) where
  sorted_insert : A → List A → List A
  sorted_insert x [] = x ∷ []
  sorted_insert x (y ∷ ys) = if less y x then y ∷ sorted_insert x ys else x ∷ y ∷ ys

  unfoldable pub stable_sort : List A → List A
  unfolding sorted_insert
  stable_sort [] = []
  stable_sort (x ∷ xs) = sorted_insert x (stable_sort xs)

  sorted_insert-perm : (x : A) (xs : List A) → Perm (sorted_insert x xs) (x ∷ xs)
  unfolding sorted_insert
  sorted_insert-perm x [] = Perm.rfl
  sorted_insert-perm x (y ∷ ys) = elim (Bool-cases (less y x)) [
    | inl e ↦ rw e (Perm.trans (Perm.cons y (sorted_insert-perm x ys)) (Perm.swap x y ys))
    | inr e ↦ rw e Perm.rfl
  ]

  pub stable_sort-perm : (xs : List A) → Perm (stable_sort xs) xs
  unfolding stable_sort
  stable_sort-perm [] = Perm.nil
  stable_sort-perm (x ∷ xs) =
      Perm.trans (sorted_insert-perm x (stable_sort xs)) (Perm.cons x (stable_sort-perm xs))

  pub length-stable_sort : (xs : List A) → length (stable_sort xs) ≡ length xs
  length-stable_sort xs = length-perm (stable_sort-perm xs)

-- What the standard asks of a comparison: a strict weak order.
pub record IsStrictWeak {ℓ} {A : Type ℓ} (less : A → A → Bool) : Type ℓ where
  pub asymm : (x y : A) → less x y ≡ true → less y x ≡ false
  pub negatively_transitive : (x y z : A) → less y x ≡ false → less z y ≡ false → less z x ≡ false

-- No element comes before one that is less.
abbrev pub IsSortedBy {ℓ} : {A : Type ℓ} → (A → A → Bool) → List A → Type ℓ
IsSortedBy less = Pairwise (λ x y. less y x ≡ false)

module _ {ℓ} {A : Type ℓ} {less : A → A → Bool} (weak : IsStrictWeak less) where
  pub not-less_prop : (x y : A) → IsProp (less y x ≡ false)
  not-less_prop x y = hlevel

  sorted_insert-IsSortedBy :
      (x : A) (xs : List A) → IsSortedBy less xs → IsSortedBy less (sorted_insert less x xs)
  unfolding sorted_insert
  sorted_insert-IsSortedBy x [] s = Pairwise.cons (λ y m. absurd (not-mem-nil m)) Pairwise.nil
  sorted_insert-IsSortedBy x (y ∷ ys) (Pairwise.cons h s) = elim (Bool-cases (less y x)) [
    | inl e ↦ rw e (
        Pairwise.cons
          (λ z m.
            Or.elim (not-less_prop y z)
              (mem-cons.0 ((Perm.mem_iff (sorted_insert-perm less x ys)).0 m))
              (λ p. rw p (weak.asymm y x e)) (h z))
          (sorted_insert-IsSortedBy x ys s))
    | inr e ↦ rw e (
        Pairwise.cons
          (λ z m.
            Or.elim (not-less_prop x z) (mem-cons.0 m) (λ p. rw p e)
              (λ t. weak.negatively_transitive x y z e (h z t)))
          (Pairwise.cons h s))
  ]

  pub stable_sort-IsSortedBy : (xs : List A) → IsSortedBy less (stable_sort less xs)
  unfolding stable_sort
  stable_sort-IsSortedBy [] = Pairwise.nil
  stable_sort-IsSortedBy (x ∷ xs) =
      sorted_insert-IsSortedBy x (stable_sort less xs) (stable_sort-IsSortedBy xs)

  sorted_insert_of_IsSortedBy :
      (x : A) (xs : List A) → IsSortedBy less (x ∷ xs) → sorted_insert less x xs ≡ x ∷ xs
  unfolding sorted_insert
  sorted_insert_of_IsSortedBy x [] s = refl
  sorted_insert_of_IsSortedBy x (y ∷ ys) (Pairwise.cons h s) = rw (h y mem-cons_self)

  -- Sorting a sorted list changes nothing.
  stable_sort_of_IsSortedBy : (xs : List A) → IsSortedBy less xs → stable_sort less xs ≡ xs
  unfolding stable_sort
  stable_sort_of_IsSortedBy [] s = refl
  stable_sort_of_IsSortedBy (x ∷ xs) (Pairwise.cons h s) =
      rw (stable_sort_of_IsSortedBy xs s) (sorted_insert_of_IsSortedBy x xs (Pairwise.cons h s))

  -- Elements that a predicate keeps and among which no one is less than another keep their order.
  sorted_insert-filter {κ} :
      {P : A → Type κ} (d : (a : A) → Dec (P a)) (x : A) (xs : List A)
      → ((y : A) → P y → P x → less y x ≡ false)
      → filter d (sorted_insert less x xs) ≡ filter d (x ∷ xs)
  unfolding sorted_insert
  sorted_insert-filter d x [] h = refl
  sorted_insert-filter d x (y ∷ ys) h = ground (arith, h y, sorted_insert-filter d x ys h)

  pub stable_sort-filter {κ} :
      {P : A → Type κ} (d : (a : A) → Dec (P a)) (xs : List A)
      → ((x y : A) → P x → P y → less x y ≡ false)
      → filter d (stable_sort less xs) ≡ filter d xs
  unfolding stable_sort
  stable_sort-filter d [] h = refl
  stable_sort-filter d (x ∷ xs) h =
      sorted_insert-filter d x (stable_sort less xs) (λ y py px. h y x py px)
      ∙ ap (λ r. ite (d x) (x ∷ r) r) (stable_sort-filter d xs h)

  filter-sorted_insert_skip {κ} :
      {P : A → Type κ} (d : (a : A) → Dec (P a)) (x : A) (xs : List A)
      → ¬ P x
      → filter d (sorted_insert less x xs) ≡ filter d xs
  unfolding sorted_insert
  filter-sorted_insert_skip d x [] h = if_neg (d x) h _ _
  filter-sorted_insert_skip d x (y ∷ ys) h = ground (arith, filter-sorted_insert_skip d x ys h)

  sorted_insert_front :
      (x : A) (xs : List A)
      → ((y : A) → Mem y xs → less y x ≡ false)
      → sorted_insert less x xs ≡ x ∷ xs
  unfolding sorted_insert
  sorted_insert_front x [] h = refl
  sorted_insert_front x (y ∷ ys) h = rw (h y mem-cons_self)

  filter-sorted_insert_keep {κ} :
      {P : A → Type κ} (d : (a : A) → Dec (P a)) (x : A) (xs : List A)
      → P x
      → IsSortedBy less xs
      → filter d (sorted_insert less x xs) ≡ sorted_insert less x (filter d xs)
  unfolding sorted_insert
  filter-sorted_insert_keep d x [] px s = if_pos (d x) px _ _
  filter-sorted_insert_keep d x (y ∷ ys) px (Pairwise.cons h s) = elim (Bool-cases (less y x)) [
    | inl e ↦ rw e (ground (arith, filter-sorted_insert_keep d x ys px s))
    | inr e ↦ rw e (
        if_pos (d x) px _ _
        ∙ sym (
            sorted_insert_front x (filter d (y ∷ ys)) (λ z m.
              Or.elim (not-less_prop x z) (mem-cons.0 ((mem-filter d).0 m).0) (λ p. rw p e)
                (λ t. weak.negatively_transitive x y z e (h z t)))))
  ]

  -- A stable sort commutes with the selection of elements.
  pub filter-stable_sort {κ} :
      {P : A → Type κ} (d : (a : A) → Dec (P a)) (xs : List A)
      → filter d (stable_sort less xs) ≡ stable_sort less (filter d xs)
  unfolding stable_sort
  filter-stable_sort d [] = refl
  filter-stable_sort d (x ∷ xs) = elim (d x) [
    | yes p ↦
        filter-sorted_insert_keep d x (stable_sort less xs) p (stable_sort-IsSortedBy xs)
        ∙ ap (sorted_insert less x) (filter-stable_sort d xs)
        ∙ ap (stable_sort less) (sym (if_pos (d x) p (x ∷ filter d xs) (filter d xs)))
    | no p ↦
        filter-sorted_insert_skip d x (stable_sort less xs) p
        ∙ filter-stable_sort d xs
        ∙ ap (stable_sort less) (sym (if_neg (d x) p (x ∷ filter d xs) (filter d xs)))
  ]

  pub stable_sort_idem :
      (xs : List A) → stable_sort less (stable_sort less xs) ≡ stable_sort less xs
  stable_sort_idem xs = stable_sort_of_IsSortedBy (stable_sort less xs) (stable_sort-IsSortedBy xs)

module _ {ℓ} {A : Type ℓ} {less : A → A → Bool} (weak : IsStrictWeak less) where
  -- Elements neither of which is less are equal, among those of a list.
  abbrev pub HasNoTies : List A → Type ℓ
  HasNoTies xs = (x y : A) → Mem x xs → Mem y xs → less x y ≡ false → less y x ≡ false → x ≡ y

  sorted_unique :
      (xs ys : List A)
      → IsSortedBy less xs
      → IsSortedBy less ys
      → HasNoTies xs
      → Perm xs ys
      → xs ≡ ys
  sorted_unique [] ys sx sy h p = Perm.nil-eq p
  sorted_unique (x ∷ xs) [] sx sy h p = Perm.eq-nil p
  sorted_unique (x ∷ xs) (y ∷ ys) (Pairwise.cons hx sx) (Pairwise.cons hy sy) h p =
      let y_here = (Perm.mem_iff p).1 mem-cons_self in
      let before : less x y ≡ false =
        Or.elim (not-less_prop weak y x) (mem-cons.0 ((Perm.mem_iff p).0 mem-cons_self))
          (λ e. rw e (irreflexive y)) (hy x) in
      let behind : less y x ≡ false =
        Or.elim (not-less_prop weak x y) (mem-cons.0 y_here) (λ e. rw e (irreflexive x)) (hx y) in
      let same = h x y mem-cons_self y_here before behind in
      ap₂ ◌∷◌ same (
        sorted_unique xs ys sx sy (λ a b ma mb. h a b (mem-cons_of_mem x ma) (mem-cons_of_mem x mb))
          (Perm.cons_inv (subst (λ z. Perm (x ∷ xs) (z ∷ ys)) (sym same) p)))
    where
      irreflexive : (z : A) → less z z ≡ false
      irreflexive z = elim (Bool-cases (less z z)) [ inl e ↦ weak.asymm z z e | inr e ↦ e ]

  -- Where no elements tie, the sorted list does not depend on the order of the unsorted one.
  pub stable_sort-perm_eq :
      (xs ys : List A) → HasNoTies xs → Perm xs ys → stable_sort less xs ≡ stable_sort less ys
  stable_sort-perm_eq xs ys h p =
      sorted_unique (stable_sort less xs) (stable_sort less ys) (stable_sort-IsSortedBy weak xs)
        (stable_sort-IsSortedBy weak ys)
        (λ a b ma mb.
          h a b ((Perm.mem_iff (stable_sort-perm less xs)).0 ma)
            ((Perm.mem_iff (stable_sort-perm less xs)).0 mb))
        (Perm.trans (stable_sort-perm less xs)
          (Perm.trans p (Perm.symm (stable_sort-perm less ys))))
