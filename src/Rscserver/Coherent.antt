-- ===== src/Rscserver/Coherent.antt =====
-- The cache of cluster/rscserver/rscserver/common.go: it holds nothing that the table has not.
use mathlib.Core.Path.{subst, subst⁻¹}
use octelium.Base.{
  String, ◌≡◌, sym, ap, ◌∙◌, Bool, true, false, Option, some, eq_iff, if◌then◌else◌, arith, inl,
  inr, Bool-cases,
}
use octelium.Rscserver.Resources.{
  Resource, Server, is_type_secret, first, is_named, has_uid, set_cache, delete_cache,
}
use octelium.Rscserver.Rows.{are_apart}

-- Keys stand once in the table, and the cache holds under a key nothing but the row of that key, which
-- is no secret.
pub record IsCoherent (s : Server) : Type 0 where
  pub apart : are_apart s.rows ≡ true
  pub names :
      (kind name : String) (r : Resource)
      → s.by_name kind name ≡ some r
      → first (is_named kind name) s.rows ≡ some r
  pub uids :
      (uid : String) (r : Resource) → s.by_uid uid ≡ some r → first (has_uid uid) s.rows ≡ some r
  pub plain_names :
      (kind name : String) (r : Resource)
      → s.by_name kind name ≡ some r
      → is_type_secret r.kind ≡ false
  pub plain_uids :
      (uid : String) (r : Resource) → s.by_uid uid ≡ some r → is_type_secret r.kind ≡ false

-- The same of all keys but those of `r`.
pub record IsCoherentBeside (r : Resource) (s : Server) : Type 0 where
  pub apart : are_apart s.rows ≡ true
  pub names :
      (kind name : String) (x : Resource)
      → is_named kind name r ≡ false
      → s.by_name kind name ≡ some x
      → first (is_named kind name) s.rows ≡ some x
  pub uids :
      (uid : String) (x : Resource)
      → has_uid uid r ≡ false
      → s.by_uid uid ≡ some x
      → first (has_uid uid) s.rows ≡ some x
  pub plain_names :
      (kind name : String) (x : Resource)
      → s.by_name kind name ≡ some x
      → is_type_secret x.kind ≡ false
  pub plain_uids :
      (uid : String) (x : Resource) → s.by_uid uid ≡ some x → is_type_secret x.kind ≡ false

pub IsCoherent-beside : (r : Resource) (s : Server) → IsCoherent s → IsCoherentBeside r s
IsCoherent-beside r s h = record {
  apart = h.apart;
  names = λ kind name x miss e. h.names kind name x e;
  uids = λ uid x miss e. h.uids uid x e;
  plain_names = h.plain_names;
  plain_uids = h.plain_uids;
}

pub set_cache-same :
    (r : Resource) (s : Server)
    → ((set_cache r s).rows ≡ s.rows) × ((set_cache r s).events ≡ s.events)
unfolding set_cache
set_cache-same r s = ground arith

abbrev new_names : Resource → Server → String → String → Option Resource
new_names r s kind name = if is_named kind name r then some r else s.by_name kind name

new_names_lem :
    (r x : Resource) (s : Server) (kind name : String)
    → first (is_named r.kind r.name) s.rows ≡ some r
    → (is_named kind name r ≡ false
        → s.by_name kind name ≡ some x
        → first (is_named kind name) s.rows ≡ some x)
    → new_names r s kind name ≡ some x
    → first (is_named kind name) s.rows ≡ some x
new_names_lem r x s kind name n h e = elim (Bool-cases (is_named kind name r)) [
  | inr miss ↦ h miss (ground (arith, e, miss))
  | inl hit ↦
      let same : r ≡ x = ground (arith, e, hit) in
      let k : r.kind ≡ kind = (eq_iff r.kind kind).0 (ground (arith, hit)) in
      let m : r.name ≡ name = (eq_iff r.name name).0 (ground (arith, hit)) in
      subst (λ (t : String). first (is_named t name) s.rows ≡ some x) k
        (subst (λ (t : String). first (is_named r.kind t) s.rows ≡ some x) m (n ∙ ap some same))
]

abbrev new_uids : Resource → Server → String → Option Resource
new_uids r s uid = if has_uid uid r then some r else s.by_uid uid

new_uids_lem :
    (r x : Resource) (s : Server) (uid : String)
    → first (has_uid r.uid) s.rows ≡ some r
    → (has_uid uid r ≡ false → s.by_uid uid ≡ some x → first (has_uid uid) s.rows ≡ some x)
    → new_uids r s uid ≡ some x
    → first (has_uid uid) s.rows ≡ some x
new_uids_lem r x s uid n h e = elim (Bool-cases (has_uid uid r)) [
  | inr miss ↦ h miss (ground (arith, e, miss))
  | inl hit ↦
      let same : r ≡ x = ground (arith, e, hit) in
      subst (λ (t : String). first (has_uid t) s.rows ≡ some x) ((eq_iff r.uid uid).0 hit)
        (n ∙ ap some same)
]

abbrev cached : Resource → Server → Server
cached r s = record s { by_name = new_names r s; by_uid = new_uids r s }

-- A value that a test chooses to be `r` or what was there has a property that both have.
chosen :
    (b : Bool) (r x : Resource) (o : Option Resource)
    → is_type_secret r.kind ≡ false
    → (o ≡ some x → is_type_secret x.kind ≡ false)
    → (if b then some r else o) ≡ some x
    → is_type_secret x.kind ≡ false
chosen true r x o p h e =
    let same : r ≡ x = ground (arith, e) in
    ap (λ (y : Resource). is_type_secret y.kind) (sym same) ∙ p
chosen false r x o p h e = h e

cached-IsCoherent :
    (r : Resource) (s : Server)
    → is_type_secret r.kind ≡ false
    → first (is_named r.kind r.name) s.rows ≡ some r
    → first (has_uid r.uid) s.rows ≡ some r
    → IsCoherentBeside r s
    → IsCoherent (cached r s)
cached-IsCoherent r s p n u h = record {
  apart = h.apart;
  names = λ kind name x e. new_names_lem r x s kind name n (h.names kind name x) e;
  uids = λ uid x e. new_uids_lem r x s uid u (h.uids uid x) e;
  plain_names = λ kind name x e.
      chosen (is_named kind name r) r x (s.by_name kind name) p (h.plain_names kind name x) e;
  plain_uids = λ uid x e. chosen (has_uid uid r) r x (s.by_uid uid) p (h.plain_uids uid x) e;
}

pub set_cache_plain :
    (r : Resource) (s : Server)
    → is_type_secret r.kind ≡ false
    → first (is_named r.kind r.name) s.rows ≡ some r
    → first (has_uid r.uid) s.rows ≡ some r
    → IsCoherentBeside r s
    → IsCoherent (set_cache r s)
unfolding set_cache
set_cache_plain r s plain n u h =
    subst⁻¹ IsCoherent (ground (arith, plain)) (cached-IsCoherent r s plain n u h)

pub set_cache-IsCoherent :
    (r : Resource) (s : Server)
    → first (is_named r.kind r.name) s.rows ≡ some r
    → first (has_uid r.uid) s.rows ≡ some r
    → IsCoherent s
    → IsCoherent (set_cache r s)
unfolding set_cache
set_cache-IsCoherent r s n u h = elim (Bool-cases (is_type_secret r.kind)) [
  | inl secret ↦ subst⁻¹ IsCoherent (ground (arith, secret)) h
  | inr plain ↦ set_cache_plain r s plain n u (IsCoherent-beside r s h)
]

pub delete_cache-IsCoherent :
    (r : Resource) (s : Server) → IsCoherentBeside r s → IsCoherent (delete_cache r s)
unfolding delete_cache
delete_cache-IsCoherent r s h = record {
  apart = h.apart;
  names = λ kind name x e. h.names kind name x (ground (arith, e)) (ground (arith, e));
  uids = λ uid x e. h.uids uid x (ground (arith, e)) (ground (arith, e));
  plain_names = λ kind name x e. h.plain_names kind name x (ground (arith, e));
  plain_uids = λ uid x e. h.plain_uids uid x (ground (arith, e));
}
