-- ===== src/Base/Sort/Insertion.antt =====
-- Insertion sort keeps the contract of `slices.SortFunc`.
use mathlib.Core.Path.{◌≡◌, refl}
use mathlib.Core.Bool.{Bool, true, false}
use mathlib.Core.List.{List, [], ◌∷◌, Perm}
use mathlib.Core.List.Perm
use native.Mathlib.Omega.{arith}
use octelium.Base.Lists.{all}
use octelium.Base.Tests.{if◌then◌else◌, Bool-cases}
use octelium.Base.Sort.Interface.{
  Sign, is_less, follows, is_sorted, IsStrictWeak, SortFunc, all-perm,
}
use mathlib.Core.Logic.{inl, inr}

module _ {A : Type 0} where
  insert : (A → A → Sign) → A → List A → List A
  insert cmp x [] = x ∷ []
  insert cmp x (y ∷ ys) =
      let rest = insert cmp x ys in if is_less (cmp y x) then y ∷ rest else x ∷ y ∷ ys

  unfoldable pub insertion_sort : (A → A → Sign) → List A → List A
  unfolding insert
  insertion_sort cmp [] = []
  insertion_sort cmp (x ∷ xs) = insert cmp x (insertion_sort cmp xs)

  insert-perm : (cmp : A → A → Sign) (x : A) (xs : List A) → Perm (x ∷ xs) (insert cmp x xs)
  unfolding insert
  insert-perm cmp x [] = Perm.refl (x ∷ [])
  insert-perm cmp x (y ∷ ys) = elim (Bool-cases (is_less (cmp y x))) [
    | inl e ↦ rw e (Perm.trans (Perm.swap y x ys) (Perm.cons y (insert-perm cmp x ys)))
    | inr e ↦ rw e (Perm.refl (x ∷ y ∷ ys))
  ]

  pub insertion_sort-perm : (cmp : A → A → Sign) (xs : List A) → Perm xs (insertion_sort cmp xs)
  unfolding insertion_sort
  insertion_sort-perm cmp [] = Perm.refl []
  insertion_sort-perm cmp (x ∷ xs) =
      Perm.trans (Perm.cons x (insertion_sort-perm cmp xs)) (insert-perm cmp x _)

module _ {A : Type 0} (valid : A → Bool) (cmp : A → A → Sign) (w : IsStrictWeak valid cmp) where
  -- What does not come before `y` does not come before anything that `y` does not come before.
  follows-through :
      (x y : A) (ys : List A)
      → valid x ≡ true
      → valid y ≡ true
      → all valid ys ≡ true
      → is_less (cmp y x) ≡ false
      → all (follows cmp y) ys ≡ true
      → all (follows cmp x) ys ≡ true
  follows-through x y [] vx vy vs h f = refl
  follows-through x y (z ∷ zs) vx vy vs h f =
      ground (arith, w.neg_trans z y x, follows-through x y zs)

  asymm :
      (x y : A)
      → valid x ≡ true
      → valid y ≡ true
      → is_less (cmp y x) ≡ true
      → is_less (cmp x y) ≡ false
  asymm x y vx vy h = ground (arith, w.trans y x y, w.irrefl y)

  insert-sorted :
      (x : A) (ys : List A)
      → valid x ≡ true
      → all valid ys ≡ true
      → is_sorted cmp ys ≡ true
      → is_sorted cmp (insert cmp x ys) ≡ true
  unfolding insert
  insert-sorted x [] vx vs s = refl
  insert-sorted x (y ∷ ys) vx vs s = ground (
    arith,
    insert-sorted x ys,
    all-perm (follows cmp y) (insert-perm cmp x ys),
    asymm x y,
    follows-through x y ys,
  )

  pub insertion_sort-sorted :
      (xs : List A) → all valid xs ≡ true → is_sorted cmp (insertion_sort cmp xs) ≡ true
  unfolding insertion_sort
  insertion_sort-sorted [] vs = refl
  insertion_sort-sorted (x ∷ xs) vs = ground (
    arith,
    insert-sorted x (insertion_sort cmp xs),
    insertion_sort-sorted xs,
    all-perm valid (insertion_sort-perm cmp xs),
  )

abbrev pub insertion_sort_func : {A : Type 0} → SortFunc A
insertion_sort_func = record {
  sort = insertion_sort;
  permutes = insertion_sort-perm;
  sorts = λ valid cmp xs w v. insertion_sort-sorted valid cmp w xs v;
}
