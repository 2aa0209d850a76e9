-- ===== src/Rscserver/PageTests.antt =====
-- Pages and filters of lists, on concrete resources.
use octelium.Base.{◌≡◌, refl, true, false, [], ◌∷◌, ok, arith}
use octelium.Base.Text.{split}
use octelium.Rscserver.Filters.{
  ListOptions, no_options, get_list_filters, get_filter, filter_field_boolean_false,
  filter_status_user_uid, is_not_true, eq_text,
}
use octelium.Rscserver.Pages.{Database, conditions, do_list}
use octelium.Rscserver.Listed.{do_list-page}
use octelium.Rscserver.Tests.{services, web, api}

-- A database that picks every row of the kind, in the order of the rows.
abbrev db : Database
db = record { picks = λ es r. true; sorts = λ cs rs. rs; query = ok tt }

abbrev second_page : ListOptions
second_page = record no_options { paginate = true; page = 1; items_per_page = 1 }

do_list-page_example :
    do_list db second_page services (web ∷ api ∷ [])
    ≡ ok (api ∷ [], record { page = 1; items_per_page = 1; total_count = 2; has_more = false })
unfolding conditions
do_list-page_example =
    do_list-page db second_page services (web ∷ api ∷ []) refl (omega arith) refl (omega arith)

-- The filter of lists that are public.
hidden_filter :
    get_list_filters (filter_field_boolean_false "metadata.isSystemHidden" ∷ [])
    ≡ is_not_true "resource->'metadata' ? 'isSystemHidden'" ∷ []
unfolding get_list_filters get_filter split
hidden_filter = refl

user_filter :
    get_list_filters (filter_status_user_uid "u-1" ∷ [])
    ≡ eq_text "resource->'status'->'userRef'->>'uid'" "u-1" ∷ []
unfolding get_list_filters get_filter split
user_filter = refl
