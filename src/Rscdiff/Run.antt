-- ===== src/Rscdiff/Run.antt =====
-- client/common/rscdiff/diff.go: `Run`, which makes the changes.
use octelium.Base.{
  ℕ, String, ◌+◌, Bool, true, false, Option, none, some, List, [], ◌∷◌, Result, ok, err, Error,
  not_found, already_exists, resource_changed, invalid_arg, session_not_found, unauthenticated,
  failed,
}
use octelium.Rscdiff.Items.{Item, DiffCtl, get_diff_create, get_diff_update, get_diff_delete}
use octelium.Rscdiff.Current.{Listed, set_current_items}

-- The methods of the gRPC client for the kind, on the state `S` of the Cluster.
pub record Client (S : Type 0) : Type 0 where
  pub list : S → ℕ → Result Listed
  pub create : Item → S → Result (Unit {0}) × S
  pub update : Item → S → Result (Unit {0}) × S
  pub delete : String → S → Result (Unit {0}) × S

pub record DiffCtlResponse : Type 0 where
  pub count_created : ℕ
  pub count_updated : ℕ
  pub count_deleted : ℕ

abbrev pub is_user_error : Error → Bool
is_user_error invalid_arg = true
is_user_error not_found = true
is_user_error already_exists = true
is_user_error resource_changed = true
is_user_error session_not_found = false
is_user_error unauthenticated = false
is_user_error (failed why) = false

abbrev pub is_not_found : Error → Bool
is_not_found not_found = true
is_not_found invalid_arg = false
is_not_found already_exists = false
is_not_found resource_changed = false
is_not_found session_not_found = false
is_not_found unauthenticated = false
is_not_found (failed why) = false

module _ {S : Type 0} where
  -- One call for each item: errors that `skips` picks are skipped, others end the run. The number
  -- is that of the calls that went through.
  unfoldable pub each :
      (Error → Bool) → (Item → S → Result (Unit {0}) × S) → List Item → ℕ → S → Result ℕ × S
  each skips call [] n s = (ok n, s)
  each skips call (x ∷ xs) n s = elim (call x s).0 [
    | ok u ↦ each skips call xs (n + 1) (call x s).1
    | err e ↦ elim (skips e) [
      | true ↦ each skips call xs n (call x s).1
      | false ↦ (err e, (call x s).1)
    ]
  ]

  abbrev pub delete_loop : Bool → Client S → List Item → S → Result ℕ × S
  delete_loop false client xs s = (ok 0, s)
  delete_loop true client xs s = each is_not_found (λ x. client.delete x.uid) xs 0 s

  -- The three loops, on the items that are to be created, updated and deleted.
  unfoldable pub make_changes :
      Bool → Client S → List Item → List Item → List Item → S → Result DiffCtlResponse × S
  make_changes deletes client creates updates removes s =
      let a = each is_user_error client.create creates 0 s in
      elim a.0 [
        | err e ↦ (err e, a.1)
        | ok created ↦
            let b = each is_user_error client.update updates 0 a.1 in
            elim b.0 [
              | err e ↦ (err e, b.1)
              | ok updated ↦
                  let d = delete_loop deletes client removes b.1 in
                  elim d.0 [
                    | err e ↦ (err e, d.1)
                    | ok deleted ↦ (
                      ok (record {
                        count_created = created;
                        count_updated = updated;
                        count_deleted = deleted;
                      }),
                      d.1,
                    )
                  ]
            ]
      ]

  -- Nothing where `setCurrentItems` runs out of fuel.
  unfoldable pub run : DiffCtl → Client S → List Item → ℕ → S → Option (Result DiffCtlResponse × S)
  run c client desired fuel s = elim (set_current_items (client.list s) fuel) [
    | none ↦ none
    | some (err e) ↦ some (err e, s)
    | some (ok current) ↦ some (
        make_changes c.deletes client (get_diff_create c desired current)
          (get_diff_update c desired current) (get_diff_delete c desired current) s)
  ]
