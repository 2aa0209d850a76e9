-- ===== src/Rscserver/Deleted.antt =====
-- cluster/rscserver/rscserver/common.go: deletion does what the table of resources promises.
use mathlib.Core.Path.{subst⁻¹}
use octelium.Base.{
  String, ◌≡◌, refl, ap, Bool, true, false, some, List, eq_iff, arith, inl, inr, Bool-cases, Result,
  Result-cases, ok, err,
}
use octelium.Rscserver.Resources.{
  Resource, GetOptions, Call, deleted, Server, first, is_named, has_uid, is_asked, delete_rows,
  delete_cache, publish,
}
use octelium.Rscserver.Operations.{do_get, last_stamped, do_delete}
use octelium.Rscserver.Table.{refuse, get_row, delete_row}
use octelium.Rscserver.Rows.{are_apart, first-holds}
use octelium.Rscserver.Changed.{are_apart-delete_rows, first-delete_rows}
use octelium.Rscserver.Coherent.{IsCoherent, IsCoherentBeside, delete_cache-IsCoherent}
use octelium.Rscserver.Reads.{is_own, do_get-Reads}
use octelium.Rscserver.Implements.{
  Implements, same-Implements, refuse-Implements, one_uid, get_row-first, publish-IsCoherent,
}

-- The rows without the one that is deleted, and the cache from before.
abbrev shrunk : Resource → Server → Server
shrunk r s = record s { rows = delete_rows r.uid s.rows }

-- A cached row under another key than those of `r` is another row.
other_uid :
    (p q : Resource → Bool) (rows : List Resource) (r x : Resource)
    → are_apart rows ≡ true
    → first q rows ≡ some r
    → first p rows ≡ some x
    → p r ≡ false
    → has_uid r.uid x ≡ false
other_uid p q rows r x a there e miss = elim (Bool-cases (has_uid r.uid x)) [
  | inr other ↦ other
  | inl hit ↦
      let same : x ≡ r = one_uid p q rows x r a e there ((eq_iff x.uid r.uid).0 hit) in
      ground (arith, first-holds p rows x e, miss, ap p same)
]

shrunk-IsCoherent :
    (q : Resource → Bool) (r item : Resource) (s : Server)
    → item.uid ≡ r.uid
    → item.kind ≡ r.kind
    → item.name ≡ r.name
    → first q s.rows ≡ some r
    → IsCoherent s
    → IsCoherentBeside item (shrunk r s)
shrunk-IsCoherent q r item s u k n there h = record {
  apart = are_apart-delete_rows r.uid s.rows h.apart;
  names = λ kind name x miss e.
      let found = h.names kind name x e in
      first-delete_rows (is_named kind name) r.uid s.rows x found (
        other_uid (is_named kind name) q s.rows r x h.apart there found
          (ground (arith, miss, k, n)));
  uids = λ uid x miss e.
      let found = h.uids uid x e in
      first-delete_rows (has_uid uid) r.uid s.rows x found
        (other_uid (has_uid uid) q s.rows r x h.apart there found (ground (arith, miss, u)));
  plain_names = h.plain_names;
  plain_uids = h.plain_uids;
}

pub delete_cache-same :
    (r : Resource) (s : Server)
    → ((delete_cache r s).rows ≡ s.rows) × ((delete_cache r s).events ≡ s.events)
unfolding delete_cache
delete_cache-same r s = (refl, refl)

-- Deletion does what the table promises.
pub do_delete-Implements :
    (call : Call) (kind : String) (o : GetOptions) (s : Server)
    → call.db_get ≡ ok tt
    → call.db_exec ≡ ok tt
    → is_own kind o s.rows ≡ true
    → IsCoherent s
    → Implements (do_delete call kind o s) s (delete_row call kind o s.rows)
unfolding do_delete delete_row
do_delete-Implements call kind o s up writes own h =
    let g = do_get-Reads call kind o s up h own in
    let kept : Server = (do_get call kind o s).1 in
    elim (Result-cases (get_row call kind o s.rows)) [
      | inr (e, no_row) ↦
          same-Implements (do_delete call kind o s) (err e, kept) s (delete_row call kind o s.rows)
            (refuse s.rows (err e)) (ground (arith, g.reply, no_row)) (ground (arith, no_row))
            (refuse-Implements (err e) s kept g.rows g.events g.coherent)
      | inl (r, row) ↦
          let found = get_row-first call kind o s.rows r row in
          let item = last_stamped call r in
          let left = shrunk r kept in
          let beside =
            shrunk-IsCoherent (is_asked kind o) r item kept refl refl refl
              (ground (arith, g.rows, found)) g.coherent in
          let same = delete_cache-same item left in
          let at : do_delete call kind o s
              ≡ (ok item, publish (deleted item) (delete_cache item left)) =
            ground (arith, g.reply, row, writes) in
          record {
            reply = ground (arith, at, row);
            rows = ground (arith, at, row, same.0, g.rows);
            events = ground (arith, at, row, same.1, g.events);
            coherent =
                subst⁻¹ (λ (w : Result Resource × Server). IsCoherent w.1) at
                  (publish-IsCoherent (deleted item) (delete_cache item left)
                    (delete_cache-IsCoherent item left beside));
          }
    ]
