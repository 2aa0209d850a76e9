-- ===== src/Rscdiff/Tests.antt =====
-- client/common/rscdiff/diff.go at concrete items.
use octelium.Base.{
  any, ◌≡◌, refl, Bool, true, false, ◌&&◌, ◌==◌, some, List, [], ◌∷◌, ◌++◌, all, is_empty, Result,
  ok, String, arith,
}
use octelium.Base.Text.{split}
use octelium.Rscserver.Resources.{Resource}
use octelium.Rscserver.Pages.{Database}
use octelium.Rscdiff.Items.{
  Item, DiffCtl, get_full_name, get_diff_create, get_diff_update, get_diff_delete,
}
use octelium.Rscdiff.Current.{list_rows, pages_loop, set_current_items}
use octelium.Rscdiff.Collected.{set_current_items_lem}
use octelium.Rscdiff.Run.{Client, DiffCtlResponse, each, make_changes, run}
use octelium.Rscdiff.Applied.{run-keeps}
use octelium.Rscdiff.Settled.{has_name, is_settled, nothing_to_do}

abbrev item : String → String → Bool → Item
item name uid system = record {
  kind = "Service";
  name = name;
  uid = uid;
  is_system = system;
  details = "";
  spec = "{}";
  has_data = false;
}

abbrev ctl : DiffCtl
ctl = record { api = "core"; kind = "Service"; deletes = true }

-- A Cluster with two Services of its user's and one of its own.
abbrev cluster : List Item
cluster =
    item "web.default" "u-1" false
    ∷ item "dns.octelium" "u-2" true
    ∷ item "db.default" "u-3" false
    ∷ []

abbrev desired : List Item
desired = item "web" "" false ∷ item "api" "" false ∷ []

-- One page, and a record of the UIDs that are deleted.
abbrev client : Client (List String)
client = record {
  list = λ s page. ok (record { items = cluster; has_more = some false });
  create = λ x s. (ok tt, s);
  update = λ x s. (ok tt, s);
  delete = λ uid s. (ok tt, s ++ (uid ∷ []));
}

run-on_cluster :
    run ctl client desired 10002 []
    ≡ some (ok (record { count_created = 1; count_updated = 0; count_deleted = 1 }), "u-3" ∷ [])
unfolding run set_current_items pages_loop make_changes each get_full_name split
run-on_cluster = refl

-- A database that picks every row of the kind, in the order of the rows.
abbrev db : Database
db = record { picks = λ es r. true; sorts = λ cs rs. rs; query = ok tt }

abbrev row : String → String → Resource
row name uid = record {
  kind = "Service";
  name = name;
  uid = uid;
  resource_version = "v-1";
  last_resource_version = "";
  created_at = 3;
  updated_at = 0;
  actor_ref = "";
  actor_operation = "";
  body = "{}";
}

abbrev rows : List Resource
rows = row "web.default" "u-1" ∷ row "dns.octelium" "u-2" ∷ []

abbrev item_of : Resource → Item
item_of r = item r.name r.uid (r.name == "dns.octelium")

set_current_items_lem_example :
    set_current_items (list_rows db item_of "Service" [] rows) 10002
    ≡ some (ok (item "web.default" "u-1" false ∷ []))
set_current_items_lem_example =
    set_current_items_lem db item_of "Service" [] rows refl (omega arith)

-- A run that is not to delete.
abbrev careful : DiffCtl
careful = record ctl { deletes = false }

abbrev careful_got : Result DiffCtlResponse × List String
careful_got = (ok (record { count_created = 1; count_updated = 0; count_deleted = 0 }), [])

run-careful : run careful client desired 10002 [] ≡ some careful_got
unfolding run set_current_items pages_loop make_changes each get_full_name split
run-careful = refl

run-keeps_example : careful_got.1 ≡ []
run-keeps_example =
    run-keeps (λ (s : List String). s ≡ []) careful client desired 10002 [] careful_got
      (λ current e. record {
        create = λ x t n k. k;
        update = λ x t n k. k;
        delete = λ x t d u n k. cc;
      })
      run-careful refl

nothing_to_do_example :
    (is_empty (get_diff_create ctl desired cluster)
      && is_empty (get_diff_update ctl desired cluster)
      && is_empty (get_diff_delete ctl desired cluster))
    ≡ (all (λ x. any (is_settled ctl x) cluster) desired
        && all (λ y. any (has_name ctl (get_full_name ctl y)) desired) cluster)
unfolding get_full_name split
nothing_to_do_example = nothing_to_do ctl desired cluster refl
