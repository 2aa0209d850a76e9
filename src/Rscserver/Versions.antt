-- ===== src/Rscserver/Versions.antt =====
-- cluster/rscserver/rscserver/common.go: resource versions let one of two updates of the same version
-- through.
use octelium.Base.{
  String, ◌≡◌, sym, ap, ◌∙◌, Bool, true, false, some, List, arith, inl, inr, ◌==◌, eq_iff,
  str_eq_refl, Result, Result-cases, ok, err, Bool-cases, resource_changed,
}
use octelium.Rscserver.Resources.{
  Resource, Call, Server, check_get_options, first, has_uid, is_asked, update_rows,
  is_equal_message,
}
use octelium.Rscserver.Operations.{do_get, by_uid_only, restamped, do_update}
use octelium.Rscserver.Table.{get_row, update_row}
use octelium.Rscserver.Changed.{has_uid-changed, first-update_rows}
use octelium.Rscserver.Coherent.{IsCoherent}
use octelium.Rscserver.Reads.{is_own, first_narrow, do_get-Reads}
use octelium.Rscserver.Renewed.{IsUpdate, comes}
use octelium.Rscserver.Updated.{keeps_name, do_update-Implements, get_row-IsUpdate}

-- An update that wrote: the row it was made of, and that it differed.
update_row-wrote :
    (call : Call) (kind : String) (req : Resource) (rows : List Resource)
    → (call.new_version == req.resource_version) ≡ false
    → (update_row call kind req rows).reply ≡ ok (restamped call kind req)
    → (old : Resource) × (get_row call kind (by_uid_only req.uid) rows ≡ ok old)
      × ((update_row call kind req rows).rows ≡ update_rows (restamped call kind req) rows)
unfolding update_row
update_row-wrote call kind req rows new wrote =
    elim (Result-cases (get_row call kind (by_uid_only req.uid) rows)) [
      | inr (w, no_row) ↦ ground (arith, no_row, wrote)
      | inl (old, row) ↦ elim (Bool-cases (old.resource_version == req.resource_version)) [
        | inr stale ↦ ground (arith, row, stale, wrote)
        | inl fresh ↦ elim (Bool-cases (is_equal_message req old)) [
          | inr differs ↦ (old, row, ground (arith, row, fresh, differs))
          | inl equal ↦
              let same : req ≡ restamped call kind req = ground (arith, row, fresh, equal, wrote) in
              ground (
                arith,
                new,
                (eq_iff call.new_version req.resource_version).1
                    (sym (ap (λ (r : Resource). r.resource_version) same)),
              )
        ]
      ]
    ]

-- The request by UID finds the row after the update.
updated_row :
    (call later : Call) (kind : String) (req old : Resource) (s : Server)
    → IsUpdate (restamped call kind req) old s
    → check_get_options later (by_uid_only req.uid) ≡ true
    → get_row later kind (by_uid_only req.uid) (update_rows (restamped call kind req) s.rows)
      ≡ ok (restamped call kind req)
unfolding get_row
updated_row call later kind req old s i valid =
    let new = restamped call kind req in
    let p : Resource → Bool = is_asked kind (by_uid_only req.uid) in
    let asked : first p s.rows ≡ some old =
      first_narrow (has_uid req.uid) p s.rows old (λ x q. ground (arith, q)) i.there
        (ground (arith, (eq_iff old.kind kind).1 i.kind, (eq_iff old.uid req.uid).1 i.uid)) in
    let found =
      first-update_rows p new s.rows old (λ x k. ground (arith, eq_iff x.uid req.uid)) i.keep
        asked in
    ground (arith, valid, found, (eq_iff old.uid req.uid).1 i.uid, i.kind)

do_update-stale :
    (call : Call) (kind : String) (req old : Resource) (s : Server)
    → (do_get call kind (by_uid_only req.uid) s).0 ≡ ok old
    → (old.resource_version == req.resource_version) ≡ false
    → do_update call kind req s
      ≡ (err resource_changed, (do_get call kind (by_uid_only req.uid) s).1)
unfolding do_update
do_update-stale call kind req old s has stale = ground (arith, has, stale)

-- On a server with a coherent cache, whose database answers, of two updates that are made of the
-- same version of a resource the second is refused and changes no row, if the first wrote, kept the
-- name and the kind, and gave the resource a version that is a new one.
pub do_update_twice :
    (call later : Call) (kind : String) (req other : Resource) (s : Server)
    → call.db_get ≡ ok tt
    → call.db_exec ≡ ok tt
    → later.db_get ≡ ok tt
    → check_get_options later (by_uid_only req.uid) ≡ true
    → is_own kind (by_uid_only req.uid) s.rows ≡ true
    → keeps_name req s.rows ≡ true
    → IsCoherent s
    → (call.new_version == req.resource_version) ≡ false
    → (do_update call kind req s).0 ≡ ok (restamped call kind req)
    → other.uid ≡ req.uid
    → other.resource_version ≡ req.resource_version
    → ((do_update later kind other (do_update call kind req s).1).0 ≡ err resource_changed)
      × ((do_update later kind other (do_update call kind req s).1).1.rows
          ≡ update_rows (restamped call kind req) s.rows)
do_update_twice call later kind req other s up w up' valid own keeps h new wrote u v =
    let next = restamped call kind req in
    let o = by_uid_only req.uid in
    let after : Server = (do_update call kind req s).1 in
    let i = do_update-Implements call kind req s up w own keeps h in
    let (old, row, rows) = update_row-wrote call kind req s.rows new (sym i.reply ∙ wrote) in
    let made = get_row-IsUpdate call kind req old s h keeps row in
    let rows' : after.rows ≡ update_rows next s.rows = i.rows ∙ rows in
    let there =
      comes (has_uid req.uid) next old s (has_uid-changed req.uid next) made
        ((eq_iff old.uid req.uid).1 made.uid) made.there in
    let g =
      do_get-Reads later kind o after up' i.coherent
        (ground (arith, rows', there, str_eq_refl kind)) in
    let reply : (do_get later kind o after).0 ≡ ok next =
      g.reply
      ∙ ap (get_row later kind o) rows'
      ∙ updated_row call later kind req old s made valid in
    let refused =
      do_update-stale later kind other next after
        (ap (λ (t : String). (do_get later kind (by_uid_only t) after).0) u ∙ reply)
        (ap (λ (t : String). call.new_version == t) v ∙ new) in
    (
      ap (λ (g : Result Resource × Server). g.0) refused,
      ap (λ (g : Result Resource × Server). g.1.rows) refused
          ∙ ap (λ (t : String). (do_get later kind (by_uid_only t) after).1.rows) u
          ∙ g.rows
          ∙ rows',
    )
