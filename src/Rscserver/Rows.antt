-- ===== src/Rscserver/Rows.antt =====
-- Tables in which a UID stands once, and a name once in its kind.
use octelium.Base.{
  ◌≡◌, refl, sym, ap, ◌∙◌, Bool, true, false, not, ◌&&◌, ◌||◌, none, some, List, [], ◌∷◌, ◌++◌, any,
  eq_iff, str_eq_refl, arith, ◌⊎◌, inl, inr, Bool-cases,
}
use octelium.Rscserver.Resources.{Resource, first, is_named, has_uid}

-- The two share the UID, or the kind and the name.
abbrev pub shares_key : Resource → Resource → Bool
shares_key x y = has_uid x.uid y || is_named x.kind x.name y

abbrev pub are_apart : List Resource → Bool
are_apart [] = true
are_apart (r ∷ rs) = not (any (shares_key r) rs) && are_apart rs

pub first-any :
    (p : Resource → Bool) (rows : List Resource)
    → ((first p rows ≡ none) × (any p rows ≡ false))
      ⊎ ((r : Resource) × (first p rows ≡ some r) × (p r ≡ true) × (any p rows ≡ true))
first-any p [] = inl (refl, refl)
first-any p (r ∷ rs) = elim (Bool-cases (p r)) [
  | inl hit ↦ inr (r, ground (arith, hit), hit, ground (arith, hit))
  | inr miss ↦ elim (first-any p rs) [
    | inl (e, n) ↦ inl (ground (arith, miss, e), ground (arith, miss, n))
    | inr (x, e, h, y) ↦ inr (x, ground (arith, miss, e), h, ground (arith, miss, y))
  ]
]

-- A row that is found fails every test that all rows fail.
first-fails :
    (p q : Resource → Bool) (rows : List Resource) (r : Resource)
    → first p rows ≡ some r
    → any q rows ≡ false
    → q r ≡ false
first-fails p q [] r e n = cc
first-fails p q (x ∷ xs) r e n = elim (Bool-cases (p x)) [
  | inl hit ↦ let same : x ≡ r = ground (arith, e, hit) in ap q (sym same) ∙ ground (arith, n)
  | inr miss ↦ first-fails p q xs r (ground (arith, e, miss)) (ground (arith, n))
]

pub first-holds :
    (p : Resource → Bool) (rows : List Resource) (r : Resource) → first p rows ≡ some r → p r ≡ true
first-holds p [] r e = cc
first-holds p (x ∷ xs) r e = elim (Bool-cases (p x)) [
  | inl hit ↦ let same : x ≡ r = ground (arith, e, hit) in ap p (sym same) ∙ hit
  | inr miss ↦ first-holds p xs r (ground (arith, e, miss))
]

-- Where keys stand once, a row that any query picks is the one of its name and of its UID.
pub first-keys :
    (p : Resource → Bool) (rows : List Resource) (r : Resource)
    → are_apart rows ≡ true
    → first p rows ≡ some r
    → (first (is_named r.kind r.name) rows ≡ some r) × (first (has_uid r.uid) rows ≡ some r)
first-keys p [] r a e = cc
first-keys p (x ∷ xs) r a e = elim (Bool-cases (p x)) [
  | inl hit ↦
      let same : x ≡ r = ground (arith, e, hit) in
      (
        rw (← same) (ground (arith, str_eq_refl x.kind, str_eq_refl x.name)),
        rw (← same) (ground (arith, str_eq_refl x.uid)),
      )
  | inr miss ↦
      let found : first p xs ≡ some r = ground (arith, e, miss) in
      let ih = first-keys p xs r (ground (arith, a)) found in
      let other = first-fails p (shares_key x) xs r found (ground (arith, a)) in
      (
        ground (
          arith,
          ih.0,
          other,
          eq_iff x.kind r.kind,
          eq_iff r.kind x.kind,
          eq_iff x.name r.name,
          eq_iff r.name x.name,
        ),
        ground (arith, ih.1, other, eq_iff x.uid r.uid, eq_iff r.uid x.uid),
      )
]

pub first-append :
    (p : Resource → Bool) (rows : List Resource) (x r : Resource)
    → first p rows ≡ some r
    → first p (rows ++ (x ∷ [])) ≡ some r
first-append p [] x r e = cc
first-append p (y ∷ ys) x r e = ground (arith, e, first-append p ys x r)

pub first-append_last :
    (p : Resource → Bool) (rows : List Resource) (x : Resource)
    → any p rows ≡ false
    → p x ≡ true
    → first p (rows ++ (x ∷ [])) ≡ some x
first-append_last p [] x n h = ground (arith, h)
first-append_last p (y ∷ ys) x n h = ground (arith, n, first-append_last p ys x)

any-last :
    (p : Resource → Bool) (rows : List Resource) (x : Resource)
    → any p (rows ++ (x ∷ [])) ≡ (any p rows || p x)
any-last p [] x = ground arith
any-last p (y ∷ ys) x = ground (arith, any-last p ys x)

pub are_apart-append :
    (rows : List Resource) (x : Resource)
    → any (has_uid x.uid) rows ≡ false
    → any (is_named x.kind x.name) rows ≡ false
    → are_apart rows ≡ true
    → are_apart (rows ++ (x ∷ [])) ≡ true
are_apart-append [] x u n a = refl
are_apart-append (y ∷ ys) x u n a = ground (
  arith,
  u,
  n,
  a,
  are_apart-append ys x,
  any-last (shares_key y) ys x,
  eq_iff x.uid y.uid,
  eq_iff y.uid x.uid,
  eq_iff x.kind y.kind,
  eq_iff y.kind x.kind,
  eq_iff x.name y.name,
  eq_iff y.name x.name,
)
