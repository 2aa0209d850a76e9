-- ===== src/Rscdiff/Current.antt =====
-- client/common/rscdiff/diff.go: `setCurrentItems`, which asks a Cluster for all pages of a list.
use octelium.Base.{
  ℕ, zero, suc, String, ◌+◌, Bool, true, false, not, Option, none, some, List, [], ◌∷◌, ◌++◌,
  Result, ok, err, keep, map,
}
use octelium.Rscserver.Resources.{Resource}
use octelium.Rscserver.Filters.{CommonListOptions, get_public_list_options, Filter}
use octelium.Rscserver.Pages.{Database, ListMeta, do_list}
use octelium.Rscdiff.Items.{Item}

-- The answer of a `List` method: its items, and `hasMore` where it has a `listResponseMeta`.
pub record Listed : Type 0 where
  pub items : List Item
  pub has_more : Option Bool

abbrev more_of : Option Bool → Bool
more_of none = false
more_of (some b) = b

abbrev pub is_users : Item → Bool
is_users itm = not itm.is_system

-- The loop, with the items so far; nothing where it runs out of fuel.
unfoldable pub pages_loop : (ℕ → Result Listed) → ℕ → ℕ → List Item → Option (Result (List Item))
pages_loop list zero page current = none
pages_loop list (suc fuel) page current = elim (list page) [
  | err e ↦ some (err e)
  | ok res ↦ elim res.items [
    | [] ↦ some (ok current)
    | x ∷ xs ↦ elim (more_of res.has_more) [
      | true ↦ pages_loop list fuel (page + 1) (current ++ keep is_users (x ∷ xs))
      | false ↦ some (ok (current ++ keep is_users (x ∷ xs)))
    ]
  ]
]

unfoldable pub set_current_items : (ℕ → Result Listed) → ℕ → Option (Result (List Item))
set_current_items list fuel = pages_loop list fuel 0 []

-- What the loop sends: the number of the page only.
abbrev pub page_request : ℕ → CommonListOptions
page_request page = record { page = page; items_per_page = 0; order_by = none }

abbrev pub listed : (Resource → Item) → Result (List Resource × ListMeta) → Result Listed
listed item_of (err e) = err e
listed item_of (ok r) = ok (record { items = map item_of r.0; has_more = some r.1.has_more })

-- A `List` method of the API server, which passes the public options on to the resource server, where
-- the rows are those of one state of the database.
abbrev pub list_rows :
    Database → (Resource → Item) → String → List Filter → List Resource → ℕ → Result Listed
list_rows db item_of kind filters rows page =
    listed item_of
      (do_list db (get_public_list_options (some (page_request page)) filters) kind rows)
