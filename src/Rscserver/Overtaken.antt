-- ===== src/Rscserver/Overtaken.antt =====
-- cluster/rscserver/rscserver/common.go: a read of the database that other calls overtake before it
-- fills the cache.
use octelium.Base.{
  String, ◌≡◌, refl, sym, ap, ◌∙◌, true, false, not, none, some, arith, eq_iff, str_eq_refl, Result,
  ok, err, if◌then◌else◌, invalid_arg, not_found,
}
use octelium.Rscserver.Resources.{
  Resource, GetOptions, Call, Server, check_get_options, is_type_secret, first, is_asked, get_cache,
  set_cache,
}
use octelium.Rscserver.Operations.{do_get}
use octelium.Rscserver.Rows.{first-holds}

-- `doGet` where the server goes on with other calls, `between`, after the query and before
-- `doSetCache`.
unfoldable pub do_get_late :
    Call → String → GetOptions → (Server → Server) → Server → Result Resource × Server
do_get_late call kind o between s =
    if not (check_get_options call o)
    then (err invalid_arg, s)
    else elim (get_cache call kind o s) [
      | some r ↦ (ok r, s)
      | none ↦ elim call.db_get [
        | err e ↦ (err e, s)
        | ok u ↦ elim (first (is_asked kind o) s.rows) [
          | none ↦ (err not_found, s)
          | some r ↦ (ok r, set_cache r (between s))
        ]
      ]
    ]

-- With nothing between it is `doGet`.
pub do_get_late-alone :
    (call : Call) (kind : String) (o : GetOptions) (s : Server)
    → do_get_late call kind o (λ t. t) s ≡ do_get call kind o s
unfolding do_get do_get_late
do_get_late-alone call kind o s = refl

set_cache-name :
    (r : Resource) (s : Server)
    → is_type_secret r.kind ≡ false
    → (set_cache r s).by_name r.kind r.name ≡ some r
unfolding set_cache
set_cache-name r s plain = ground (arith, plain, str_eq_refl r.kind, str_eq_refl r.name)

cached_name :
    (call : Call) (r : Resource) (s : Server)
    → is_type_secret r.kind ≡ false
    → call.cache_up ≡ true
    → check_get_options call (record { name = r.name; uid = "" }) ≡ true
    → s.by_name r.kind r.name ≡ some r
    → (do_get call r.kind (record { name = r.name; uid = "" }) s).0 ≡ ok r
unfolding do_get check_get_options
cached_name call r s plain up valid e = ground (arith, plain, up, valid, e, str_eq_refl r.kind)

-- Where a valid read that is not of a kind of secrets and that the cache could not answer fetched a
-- row from the database before other calls ran, and caches it after them, later valid reads by the
-- name are answered that row, whatever the other calls did to the resource.
pub do_get_late-stale :
    (call later : Call) (kind : String) (o : GetOptions) (between : Server → Server) (s : Server)
    (r : Resource)
    → call.db_get ≡ ok tt
    → check_get_options call o ≡ true
    → get_cache call kind o s ≡ none
    → first (is_asked kind o) s.rows ≡ some r
    → is_type_secret kind ≡ false
    → later.cache_up ≡ true
    → check_get_options later (record { name = r.name; uid = "" }) ≡ true
    → (do_get later kind
        (record { name = r.name; uid = "" })
        (do_get_late call kind o between s).1).0
      ≡ ok r
unfolding do_get_late
do_get_late-stale call later kind o between s r up valid miss found plain up' valid' =
    let k : r.kind ≡ kind =
      (eq_iff r.kind kind).0 (ground (arith, first-holds (is_asked kind o) s.rows r found)) in
    let plain' : is_type_secret r.kind ≡ false = ap is_type_secret k ∙ plain in
    let o' : GetOptions = record { name = r.name; uid = "" } in
    let at : (do_get_late call kind o between s).1 ≡ set_cache r (between s) =
      ground (arith, up, valid, miss, found) in
    ap (λ (t : Server). (do_get later kind o' t).0) at
    ∙ ap (λ (t : String). (do_get later t o' (set_cache r (between s))).0) (sym k)
    ∙ cached_name later r (set_cache r (between s)) plain' up' valid'
        (set_cache-name r (between s) plain')
