-- ===== src/Rscserver/Renewed.antt =====
-- cluster/rscserver/rscserver/common.go: the cache after the update of a row.
use octelium.Base.{
  ◌≡◌, sym, ap, ◌∙◌, Bool, true, false, some, List, all, eq_iff, arith, inl, inr, Bool-cases,
}
use octelium.Rscserver.Resources.{
  Resource, Server, is_type_secret, first, is_named, has_uid, update_rows,
}
use octelium.Rscserver.Rows.{first-holds}
use octelium.Rscserver.Changed.{
  keeps_keys, are_apart-update_rows, changed, first-update_rows, is_named-changed, has_uid-changed,
}
use octelium.Rscserver.Coherent.{IsCoherent, IsCoherentBeside}
use octelium.Rscserver.Implements.{one_uid}

-- The rows with the one that is updated, and the cache from before.
abbrev pub renewed : Resource → Server → Server
renewed new s = record s { rows = update_rows new s.rows }

-- The row of the UID of `new`, which keeps its name and kind.
pub record IsUpdate (new old : Resource) (s : Server) : Type 0 where
  pub coherent : IsCoherent s
  pub there : first (has_uid new.uid) s.rows ≡ some old
  pub uid : old.uid ≡ new.uid
  pub name : old.name ≡ new.name
  pub kind : old.kind ≡ new.kind
  pub keep : all (keeps_keys new) s.rows ≡ true

-- A row that is not the updated one stays what a query of keys finds.
stays :
    (p : Resource → Bool) (new x : Resource) (rows : List Resource)
    → ((y : Resource) → keeps_keys new y ≡ true → p (changed new y) ≡ p y)
    → all (keeps_keys new) rows ≡ true
    → first p rows ≡ some x
    → has_uid new.uid x ≡ false
    → first p (update_rows new rows) ≡ some x
stays p new x rows keys keep e other =
    ground (arith, first-update_rows p new rows x keys keep e, other)

-- The updated row is what its keys find.
pub comes :
    (p : Resource → Bool) (new old : Resource) (s : Server)
    → ((y : Resource) → keeps_keys new y ≡ true → p (changed new y) ≡ p y)
    → IsUpdate new old s
    → p old ≡ true
    → first p s.rows ≡ some old
    → first p (update_rows new s.rows) ≡ some new
comes p new old s keys i hit e = ground (
  arith,
  first-update_rows p new s.rows old keys i.keep e,
  (eq_iff old.uid new.uid).1 i.uid,
  i.kind,
)

-- A query that finds a row of the UID of `new` finds the row that is updated.
is_old :
    (p : Resource → Bool) (new old x : Resource) (s : Server)
    → IsUpdate new old s
    → first p s.rows ≡ some x
    → has_uid new.uid x ≡ true
    → x ≡ old
is_old p new old x s i e hit =
    one_uid p (has_uid new.uid) s.rows x old i.coherent.apart e i.there
      ((eq_iff x.uid new.uid).0 hit ∙ sym i.uid)

-- A secret is not in the cache.
pub renewed_secret :
    (new old : Resource) (s : Server)
    → IsUpdate new old s
    → is_type_secret new.kind ≡ true
    → IsCoherent (renewed new s)
renewed_secret new old s i secret =
    let h = i.coherent in
    let apart : (p : Resource → Bool) (x : Resource)
        → first p s.rows ≡ some x
        → is_type_secret x.kind ≡ false
        → has_uid new.uid x ≡ false =
      λ p x e plain. elim (Bool-cases (has_uid new.uid x)) [
        | inr other ↦ other
        | inl hit ↦
            let same = is_old p new old x s i e hit in
            ground (arith, plain, secret, i.kind, ap (λ (r : Resource). is_type_secret r.kind) same)
      ] in
    record {
      apart = are_apart-update_rows new s.rows i.keep h.apart;
      names = λ kind name x e.
          let found = h.names kind name x e in
          stays (is_named kind name) new x s.rows (is_named-changed kind name new) i.keep found
            (apart (is_named kind name) x found (h.plain_names kind name x e));
      uids = λ uid x e.
          let found = h.uids uid x e in
          stays (has_uid uid) new x s.rows (has_uid-changed uid new) i.keep found
            (apart (has_uid uid) x found (h.plain_uids uid x e));
      plain_names = h.plain_names;
      plain_uids = h.plain_uids;
    }

pub renewed_beside :
    (new old : Resource) (s : Server) → IsUpdate new old s → IsCoherentBeside new (renewed new s)
renewed_beside new old s i =
    let h = i.coherent in
    let apart : (p : Resource → Bool) (x : Resource)
        → first p s.rows ≡ some x
        → p old ≡ false
        → has_uid new.uid x ≡ false =
      λ p x e miss. elim (Bool-cases (has_uid new.uid x)) [
        | inr other ↦ other
        | inl hit ↦
            let same = is_old p new old x s i e hit in
            ground (arith, miss, first-holds p s.rows x e, ap p same)
      ] in
    record {
      apart = are_apart-update_rows new s.rows i.keep h.apart;
      names = λ kind name x miss e.
          let found = h.names kind name x e in
          stays (is_named kind name) new x s.rows (is_named-changed kind name new) i.keep found
            (apart (is_named kind name) x found (ground (arith, miss, i.kind, i.name)));
      uids = λ uid x miss e.
          let found = h.uids uid x e in
          stays (has_uid uid) new x s.rows (has_uid-changed uid new) i.keep found
            (apart (has_uid uid) x found (ground (arith, miss, i.uid)));
      plain_names = h.plain_names;
      plain_uids = h.plain_uids;
    }
