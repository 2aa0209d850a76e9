-- ===== src/Rscserver/Written.antt =====
-- cluster/rscserver/rscserver/common.go: reads after a creation and after a deletion.
use octelium.Base.{
  String, ◌≡◌, refl, sym, ap, ◌∙◌, true, false, none, some, List, [], ◌∷◌, ◌++◌, arith, inl, inr,
  eq_iff, str_eq_refl, any, Result-cases, ok, err, Bool-cases, not_found,
}
use octelium.Rscserver.Resources.{
  Resource, GetOptions, Call, Server, check_get_options, first, is_named, has_uid, is_asked,
  delete_rows,
}
use octelium.Rscserver.Operations.{do_get, by_uid_only, stamped, last_stamped, do_create, do_delete}
use octelium.Rscserver.Table.{get_row, create_row, delete_row}
use octelium.Rscserver.Rows.{first-append_last}
use octelium.Rscserver.Coherent.{IsCoherent}
use octelium.Rscserver.Reads.{is_own, do_get-Reads}
use octelium.Rscserver.Implements.{asked_name}
use octelium.Rscserver.Created.{good_has_name, do_create-Implements}
use octelium.Rscserver.Deleted.{do_delete-Implements}

create_row-made :
    (call : Call) (kind : String) (req r : Resource) (rows : List Resource)
    → (create_row call kind req rows).reply ≡ ok r
    → (r ≡ stamped call kind req)
      × (any (is_named kind req.name) rows ≡ false)
      × ((create_row call kind req rows).rows ≡ rows ++ (stamped call kind req ∷ []))
unfolding create_row
create_row-made call kind req r rows made =
    elim (Bool-cases (check_get_options call (record { name = req.name; uid = "" }))) [
      | inr bad ↦ ground (arith, bad, made)
      | inl good ↦ elim (Bool-cases (any (is_named kind req.name) rows)) [
        | inl taken ↦ ground (arith, good, taken, made)
        | inr free ↦ (ground (arith, good, free, made), free, ground (arith, good, free))
      ]
    ]

-- On a server with a coherent cache, whose database answers, a resource that was created under a new
-- and valid UID is what a valid read of its name is answered next.
pub do_create-get :
    (call later : Call) (kind : String) (req r : Resource) (s : Server)
    → call.db_get ≡ ok tt
    → call.db_exec ≡ ok tt
    → check_get_options call (by_uid_only call.new_uid) ≡ true
    → any (has_uid call.new_uid) s.rows ≡ false
    → IsCoherent s
    → later.db_get ≡ ok tt
    → check_get_options later (record { name = r.name; uid = "" }) ≡ true
    → (do_create call kind req s).0 ≡ ok r
    → (do_get later kind (record { name = r.name; uid = "" }) (do_create call kind req s).1).0
      ≡ ok r
unfolding get_row
do_create-get call later kind req r s up w valid new h up' valid' made =
    let i = do_create-Implements call kind req s up w valid new h in
    let (same, free, rows) = create_row-made call kind req r s.rows (sym i.reply ∙ made) in
    let n : r.name ≡ req.name = ap (λ (x : Resource). x.name) same in
    let after : Server = (do_create call kind req s).1 in
    let o : GetOptions = record { name = r.name; uid = "" } in
    let named = good_has_name later o refl valid' in
    let there : first (is_named kind r.name) after.rows ≡ some r =
      ap (first (is_named kind r.name)) (i.rows ∙ rows)
      ∙ first-append_last (is_named kind r.name) s.rows (stamped call kind req)
          (ap (λ (t : String). any (is_named kind t) s.rows) n ∙ free)
          (ground (arith, str_eq_refl kind, (eq_iff req.name r.name).1 (sym n)))
      ∙ ap some (sym same) in
    (do_get-Reads later kind o after up' i.coherent (ground (arith, named))).reply
    ∙ ground (arith, valid', asked_name kind o after.rows named, there)

first-delete_rows-none :
    (kind uid : String) (rows : List Resource)
    → first (is_asked kind (by_uid_only uid)) (delete_rows uid rows) ≡ none
first-delete_rows-none kind uid [] = refl
first-delete_rows-none kind uid (r ∷ rs) = ground (arith, first-delete_rows-none kind uid rs)

no_uid : (uid : String) (rows : List Resource) → first (has_uid uid) (delete_rows uid rows) ≡ none
no_uid uid [] = refl
no_uid uid (r ∷ rs) = ground (arith, no_uid uid rs)

delete_row-gone :
    (call : Call) (kind : String) (o : GetOptions) (r : Resource) (rows : List Resource)
    → (delete_row call kind o rows).reply ≡ ok r
    → (delete_row call kind o rows).rows ≡ delete_rows r.uid rows
unfolding delete_row
delete_row-gone call kind o r rows gone = elim (Result-cases (get_row call kind o rows)) [
  | inr (w, no_row) ↦ ground (arith, no_row, gone)
  | inl (x, row) ↦
      let same : last_stamped call x ≡ r = ground (arith, row, gone) in
      ground (arith, row, ap (λ (y : Resource). delete_rows y.uid rows) same)
]

-- A resource that was deleted is found no more by its UID, under whichever kind.
pub do_delete-get :
    (call later : Call) (kind kind' : String) (o : GetOptions) (r : Resource) (s : Server)
    → call.db_get ≡ ok tt
    → call.db_exec ≡ ok tt
    → is_own kind o s.rows ≡ true
    → IsCoherent s
    → later.db_get ≡ ok tt
    → check_get_options later (by_uid_only r.uid) ≡ true
    → (do_delete call kind o s).0 ≡ ok r
    → (do_get later kind' (by_uid_only r.uid) (do_delete call kind o s).1).0 ≡ err not_found
unfolding get_row
do_delete-get call later kind kind' o r s up w own h up' valid gone =
    let i = do_delete-Implements call kind o s up w own h in
    let after : Server = (do_delete call kind o s).1 in
    let rows : after.rows ≡ delete_rows r.uid s.rows =
      i.rows ∙ delete_row-gone call kind o r s.rows (sym i.reply ∙ gone) in
    (do_get-Reads later kind' (by_uid_only r.uid) after up' i.coherent
      (ground (arith, rows, no_uid r.uid s.rows))).reply
    ∙ ground (arith, valid, rows, first-delete_rows-none kind' r.uid s.rows)
