-- ===== src/Rscserver/Pages.antt =====
-- `doList` of cluster/rscserver/rscserver/common.go.
use Prim.Native.String.{◌++◌ as append}
use octelium.Base.{
  ℕ, String, ◌+◌, ◌*◌, ◌%◌, ◌^◌, Bool, false, ◌&&◌, Option, none, some, List, [], ◌∷◌, ◌++◌, Result,
  ok, err, not_found, invalid_arg, length, take, drop, keep, is_empty, ltb, nat_beq, ◌==◌,
  if◌then◌else◌, map,
}
use octelium.Rscserver.Resources.{Resource}
use octelium.Rscserver.Filters.{
  Expression, any_text, eq_text, OrderBy, type_unset, type_name, type_created_at, ListOptions,
  get_list_filters,
}

-- A column of the ORDER BY clause, descending or not.
pub data Column : Type 0 where
  by_created_at by_name : Bool → Column
  by_id : Column

-- What PostgreSQL makes of the conditions and of the order, on the rows by their id, and whether it
-- answers.
pub record Database : Type 0 where
  pub picks : List Expression → Resource → Bool
  pub sorts : List Column → List Resource → List Resource
  pub query : Result (Unit {0})

-- `metav1.ListResponseMeta`
pub record ListMeta : Type 0 where
  pub page : ℕ
  pub items_per_page : ℕ
  pub total_count : ℕ
  pub has_more : Bool

abbrev pub default_items_per_page : ℕ
default_items_per_page = 200

abbrev pub max_items_per_page : ℕ
max_items_per_page = 1000

abbrev label : String → String × String → String × String
label of l = (append "resource->'metadata'->'" (append of (append "'->>'" (append l.0 "'"))), l.1)

abbrev labelled : String → List (String × String) → List Expression
labelled of [] = []
labelled of (l ∷ ls) = eq_text (label of l).0 l.1 ∷ labelled of ls

abbrev labelled_ored : String → Option (List (String × String)) → List Expression
labelled_ored of none = []
labelled_ored of (some ls) = any_text (map (label of) ls) ∷ []

-- The conditions, besides the kind.
unfoldable pub conditions : ListOptions → List Expression
conditions req =
    labelled "specLabels" req.spec_labels
    ++ labelled_ored "specLabels" req.spec_labels_ored
    ++ labelled "systemLabels" req.system_labels
    ++ labelled_ored "systemLabels" req.system_labels_ored
    ++ get_list_filters req.filters

-- An order that names no type replaces those before it.
abbrev pub order_loop : List Column → List OrderBy → List Column
order_loop done [] = done
order_loop done (o ∷ os) = elim o.type [
  | type_created_at ↦ order_loop (done ++ (by_created_at o.desc ∷ [])) os
  | type_name ↦ order_loop (done ++ (by_name o.desc ∷ [])) os
  | type_unset ↦ order_loop (by_id ∷ []) os
]

abbrev pub columns : List OrderBy → List Column
columns [] = by_id ∷ []
columns (o ∷ os) = order_loop [] (o ∷ os)

abbrev pub limit_of : ℕ → ℕ
limit_of n =
    if nat_beq n 0
    then default_items_per_page
    else if ltb max_items_per_page n
    then max_items_per_page
    else n

-- All that the query is about, before the offset and the limit.
abbrev pub picked : Database → ListOptions → String → List Resource → List Resource
picked db req kind rows =
    db.sorts (columns req.order_by) (keep (λ r. r.kind == kind && db.picks (conditions req) r) rows)

-- The window of the query, and the counts of its answer.
abbrev pub window : ListOptions → List Resource → List Resource
window req found =
    if req.paginate
    then take (limit_of req.items_per_page)
        (drop ((req.page * limit_of req.items_per_page) % 2 ^ 32) found)
    else found

abbrev pub start_meta : ListOptions → ListMeta
start_meta req =
    if req.paginate
    then record {
      page = req.page;
      items_per_page = limit_of req.items_per_page;
      total_count = 0;
      has_more = false;
    }
    else record { page = 0; items_per_page = 0; total_count = 0; has_more = false }

-- The count stands on every row that is answered, so that there is none without a row.
abbrev pub counted : ListMeta → List Resource → List Resource → ListMeta
counted meta found items = record meta {
  total_count = if is_empty items then 0 else length found % 2 ^ 32;
}

abbrev pub with_more : ListMeta → ListMeta
with_more meta = record meta {
  has_more = ltb (((meta.page + 1) * meta.items_per_page) % 2 ^ 32) meta.total_count;
}

unfoldable pub do_list :
    Database → ListOptions → String → List Resource → Result (List Resource × ListMeta)
do_list db req kind rows =
    if req.paginate && ltb 10000 req.page then err invalid_arg else elim db.query [
      | err e ↦ err e
      | ok u ↦
          let found = picked db req kind rows in
          let items = window req found in
          if is_empty items && ltb 0 req.page
          then err not_found
          else ok (items, with_more (counted (start_meta req) found items))
    ]
