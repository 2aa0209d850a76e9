-- ===== src/Rscserver/Table.antt =====
-- What the resource server promises: a table of resources, with no cache.
use octelium.Base.{
  String, not, Option, none, some, List, [], ◌∷◌, ◌++◌, not_found, already_exists, resource_changed,
  invalid_arg, Result, ok, err, any, ◌==◌, if◌then◌else◌,
}
use octelium.Rscserver.Resources.{
  Resource, GetOptions, Call, Event, created, updated, deleted, check_get_options, first, is_named,
  is_asked, update_rows, delete_rows, is_equal_message,
}
use octelium.Rscserver.Operations.{by_uid_only, stamped, restamped, last_stamped}

-- The reply of an operation, the table that it leaves, and the event that it publishes.
pub record Outcome : Type 0 where
  pub reply : Result Resource
  pub rows : List Resource
  pub news : List Event

abbrev pub refuse : List Resource → Result Resource → Outcome
refuse rows r = record { reply = r; rows = rows; news = [] }

abbrev pub found_or : Option Resource → Result Resource
found_or none = err not_found
found_or (some r) = ok r

unfoldable pub get_row : Call → String → GetOptions → List Resource → Result Resource
get_row call kind o rows =
    if check_get_options call o then found_or (first (is_asked kind o) rows) else err invalid_arg

-- A name is taken once in a kind.
unfoldable pub create_row : Call → String → Resource → List Resource → Outcome
create_row call kind req rows =
    if not (check_get_options call (record { name = req.name; uid = "" }))
    then refuse rows (err invalid_arg)
    else if any (is_named kind req.name) rows
    then refuse rows (err already_exists)
    else record {
      reply = ok (stamped call kind req);
      rows = rows ++ (stamped call kind req ∷ []);
      news = created (stamped call kind req) ∷ [];
    }

-- A change must name the version that it is made of.
unfoldable pub update_row : Call → String → Resource → List Resource → Outcome
update_row call kind req rows = elim (get_row call kind (by_uid_only req.uid) rows) [
  | err e ↦ refuse rows (err e)
  | ok old ↦
      if not (old.resource_version == req.resource_version)
      then refuse rows (err resource_changed)
      else if is_equal_message req old
      then refuse rows (ok req)
      else record {
        reply = ok (restamped call kind req);
        rows = update_rows (restamped call kind req) rows;
        news = updated (restamped call kind req) old ∷ [];
      }
]

unfoldable pub delete_row : Call → String → GetOptions → List Resource → Outcome
delete_row call kind o rows = elim (get_row call kind o rows) [
  | err e ↦ refuse rows (err e)
  | ok r ↦ record {
    reply = ok (last_stamped call r);
    rows = delete_rows r.uid rows;
    news = deleted (last_stamped call r) ∷ [];
  }
]
