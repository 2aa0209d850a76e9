-- ===== src/Base/Sort/Interface.antt =====
-- The contract of `slices.SortFunc`: the result is a permutation of the input, and it is in
-- ascending order wherever the comparison is a strict weak order on the elements.
use mathlib.Core.Path.{◌≡◌, refl, ◌∙◌, ap}
use mathlib.Core.Bool.{Bool, true, false, not, ◌&&◌}
use mathlib.Core.List.{List, [], ◌∷◌, Perm, Permᴰ}
use mathlib.Core.Logic.{∥∥₁_elim}
use native.Mathlib.Omega.{arith}
use octelium.Base.Lists.{all, any}

-- The sign of the number that a Go comparison returns.
pub data Sign : Type 0 where
  less same greater : Sign

abbrev pub is_less : Sign → Bool
is_less less = true
is_less _ = false

module _ {A : Type 0} where
  -- `b` does not come before `a`.
  abbrev pub follows : (A → A → Sign) → A → A → Bool
  follows cmp a b = not (is_less (cmp b a))

  abbrev pub is_sorted : (A → A → Sign) → List A → Bool
  is_sorted cmp [] = true
  is_sorted cmp (x ∷ xs) = all (follows cmp x) xs && is_sorted cmp xs

  pub record IsStrictWeak (valid : A → Bool) (cmp : A → A → Sign) : Type 0 where
    pub irrefl : (a : A) → valid a ≡ true → is_less (cmp a a) ≡ false
    pub trans :
        (a b c : A)
        → valid a ≡ true
        → valid b ≡ true
        → valid c ≡ true
        → is_less (cmp a b) ≡ true
        → is_less (cmp b c) ≡ true
        → is_less (cmp a c) ≡ true
    pub neg_trans :
        (a b c : A)
        → valid a ≡ true
        → valid b ≡ true
        → valid c ≡ true
        → is_less (cmp a b) ≡ false
        → is_less (cmp b c) ≡ false
        → is_less (cmp a c) ≡ false

pub record SortFunc (A : Type 0) : Type 0 where
  pub sort : (A → A → Sign) → List A → List A
  pub permutes : (cmp : A → A → Sign) (xs : List A) → Perm xs (sort cmp xs)
  pub sorts :
      (valid : A → Bool) (cmp : A → A → Sign) (xs : List A)
      → IsStrictWeak valid cmp
      → all valid xs ≡ true
      → is_sorted cmp (sort cmp xs) ≡ true

pub Bool-set : IsSet Bool
Bool-set = hlevel

module _ {A : Type 0} (p : A → Bool) where
  all-permᴰ : {xs ys : List A} → Permᴰ xs ys → all p xs ≡ all p ys
  all-permᴰ Permᴰ.nil = refl
  all-permᴰ (Permᴰ.cons e d) = ground (arith, ap p e, all-permᴰ d)
  all-permᴰ (Permᴰ.swap e f) = ground (arith, ap p e, ap p f)
  all-permᴰ (Permᴰ.trans d e) = all-permᴰ d ∙ all-permᴰ e

  pub all-perm : {xs ys : List A} → Perm xs ys → all p xs ≡ all p ys
  all-perm {xs} {ys} h = ∥∥₁_elim h (Bool-set (all p xs) (all p ys)) all-permᴰ

  any-permᴰ : {xs ys : List A} → Permᴰ xs ys → any p xs ≡ any p ys
  any-permᴰ Permᴰ.nil = refl
  any-permᴰ (Permᴰ.cons e d) = ground (arith, ap p e, any-permᴰ d)
  any-permᴰ (Permᴰ.swap e f) = ground (arith, ap p e, ap p f)
  any-permᴰ (Permᴰ.trans d e) = any-permᴰ d ∙ any-permᴰ e

  pub any-perm : {xs ys : List A} → Perm xs ys → any p xs ≡ any p ys
  any-perm {xs} {ys} h = ∥∥₁_elim h (Bool-set (any p xs) (any p ys)) any-permᴰ
