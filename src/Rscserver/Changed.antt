-- ===== src/Rscserver/Changed.antt =====
-- Tables after the update or the deletion of a row.
use octelium.Base.{
  String, ◌≡◌, refl, ap, ◌∙◌, Bool, true, false, ◌&&◌, some, List, [], ◌∷◌, any, all, ◌==◌, eq_iff,
  if◌then◌else◌, arith, inl, inr, Bool-cases,
}
use octelium.Rscserver.Resources.{Resource, first, is_named, has_uid, update_rows, delete_rows}
use octelium.Rscserver.Rows.{shares_key, are_apart}

any-delete_rows :
    (q : Resource → Bool) (uid : String) (rows : List Resource)
    → any q rows ≡ false
    → any q (delete_rows uid rows) ≡ false
any-delete_rows q uid [] n = refl
any-delete_rows q uid (r ∷ rs) n = ground (arith, n, any-delete_rows q uid rs)

pub are_apart-delete_rows :
    (uid : String) (rows : List Resource)
    → are_apart rows ≡ true
    → are_apart (delete_rows uid rows) ≡ true
are_apart-delete_rows uid [] a = refl
are_apart-delete_rows uid (r ∷ rs) a =
    ground (arith, a, are_apart-delete_rows uid rs, any-delete_rows (shares_key r) uid rs)

pub first-delete_rows :
    (p : Resource → Bool) (uid : String) (rows : List Resource) (r : Resource)
    → first p rows ≡ some r
    → has_uid uid r ≡ false
    → first p (delete_rows uid rows) ≡ some r
first-delete_rows p uid [] r e n = cc
first-delete_rows p uid (x ∷ xs) r e n = elim (Bool-cases (p x)) [
  | inl hit ↦
      let same : x ≡ r = ground (arith, e, hit) in
      let stays : has_uid uid x ≡ false = ap (has_uid uid) same ∙ n in
      ground (arith, stays, hit, same)
  | inr miss ↦
      let ih = first-delete_rows p uid xs r (ground (arith, e, miss)) n in ground (arith, miss, ih)
]

-- The rows of the UID have the name and the kind of the new resource.
abbrev pub keeps_keys : Resource → Resource → Bool
keeps_keys new r = if has_uid new.uid r then r.name == new.name && r.kind == new.kind else true

absent-keeps_keys :
    (new : Resource) (rows : List Resource)
    → any (has_uid new.uid) rows ≡ false
    → all (keeps_keys new) rows ≡ true
absent-keeps_keys new [] n = refl
absent-keeps_keys new (r ∷ rs) n = ground (arith, n, absent-keeps_keys new rs)

shares_uid :
    (x : Resource) (uid : String) (rows : List Resource)
    → x.uid ≡ uid
    → any (shares_key x) rows ≡ false
    → any (has_uid uid) rows ≡ false
shares_uid x uid [] e n = refl
shares_uid x uid (r ∷ rs) e n = ground (arith, e, n, shares_uid x uid rs e)

pub all-keeps_keys :
    (new old : Resource) (rows : List Resource)
    → are_apart rows ≡ true
    → first (has_uid new.uid) rows ≡ some old
    → old.name ≡ new.name
    → old.kind ≡ new.kind
    → all (keeps_keys new) rows ≡ true
all-keeps_keys new old [] a e n k = cc
all-keeps_keys new old (x ∷ xs) a e n k = elim (Bool-cases (has_uid new.uid x)) [
  | inl hit ↦
      let same : x ≡ old = ground (arith, e, hit) in
      let name : (x.name == new.name) ≡ true =
        (eq_iff x.name new.name).1 (ap (λ (r : Resource). r.name) same ∙ n) in
      let kind : (x.kind == new.kind) ≡ true =
        (eq_iff x.kind new.kind).1 (ap (λ (r : Resource). r.kind) same ∙ k) in
      let rest =
        absent-keeps_keys new xs
          (shares_uid x new.uid xs ((eq_iff x.uid new.uid).0 hit) (ground (arith, a))) in
      ground (arith, hit, name, kind, rest)
  | inr miss ↦
      let ih = all-keeps_keys new old xs (ground (arith, a)) (ground (arith, e, miss)) n k in
      ground (arith, miss, ih)
]

any-update_rows :
    (x new : Resource) (rows : List Resource)
    → all (keeps_keys new) rows ≡ true
    → any (shares_key x) (update_rows new rows) ≡ any (shares_key x) rows
any-update_rows x new [] k = refl
any-update_rows x new (r ∷ rs) k = ground (
  arith,
  k,
  any-update_rows x new rs,
  eq_iff r.uid new.uid,
  eq_iff r.name new.name,
  eq_iff r.kind new.kind,
)

any-shares_key :
    (x y : Resource) (rows : List Resource)
    → x.uid ≡ y.uid
    → x.kind ≡ y.kind
    → x.name ≡ y.name
    → any (shares_key x) rows ≡ any (shares_key y) rows
any-shares_key x y [] u k n = refl
any-shares_key x y (r ∷ rs) u k n = rw u (rw k (rw n (ground (arith, any-shares_key x y rs u k n))))

pub are_apart-update_rows :
    (new : Resource) (rows : List Resource)
    → all (keeps_keys new) rows ≡ true
    → are_apart rows ≡ true
    → are_apart (update_rows new rows) ≡ true
are_apart-update_rows new [] k a = refl
are_apart-update_rows new (r ∷ rs) k a = elim (Bool-cases (has_uid new.uid r)) [
  | inl hit ↦
      let new' : Resource = record new { kind = r.kind } in
      let n : r.name ≡ new.name = (eq_iff r.name new.name).0 (ground (arith, hit, k)) in
      let s = any-shares_key r new' rs ((eq_iff r.uid new.uid).0 hit) refl n in
      ground (arith, hit, k, a, s, any-update_rows new' new rs, are_apart-update_rows new rs)
  | inr miss ↦ ground (arith, miss, k, a, any-update_rows r new rs, are_apart-update_rows new rs)
]

-- A query that reads the keys only finds the row it found, changed if it has the UID.
abbrev pub changed : Resource → Resource → Resource
changed new r = if has_uid new.uid r then record new { kind = r.kind } else r

pub first-update_rows :
    (p : Resource → Bool) (new : Resource) (rows : List Resource) (r : Resource)
    → ((x : Resource) → keeps_keys new x ≡ true → p (changed new x) ≡ p x)
    → all (keeps_keys new) rows ≡ true
    → first p rows ≡ some r
    → first p (update_rows new rows) ≡ some (changed new r)
first-update_rows p new [] r same k e = cc
first-update_rows p new (x ∷ xs) r same k e = elim (Bool-cases (p x)) [
  | inl hit ↦
      let at : x ≡ r = ground (arith, e, hit) in
      ground (arith, same x (ground (arith, k)), hit, ap (changed new) at)
  | inr miss ↦
      let ih = first-update_rows p new xs r same (ground (arith, k)) (ground (arith, e, miss)) in
      ground (arith, same x (ground (arith, k)), miss, ih)
]

pub is_named-changed :
    (kind name : String) (new x : Resource)
    → keeps_keys new x ≡ true
    → is_named kind name (changed new x) ≡ is_named kind name x
is_named-changed kind name new x k = ground (arith, k, eq_iff x.name new.name)

pub has_uid-changed :
    (uid : String) (new x : Resource)
    → keeps_keys new x ≡ true
    → has_uid uid (changed new x) ≡ has_uid uid x
has_uid-changed uid new x k = ground (arith, eq_iff x.uid new.uid)
