-- ===== src/Rscserver/Operations.antt =====
-- cluster/rscserver/rscserver/common.go: the operations of the resource server, for a server that has
-- no secret manager and no hooks.
use octelium.Base.{
  String, not, none, some, [], ◌∷◌, ◌++◌, not_found, already_exists, resource_changed, invalid_arg,
  Result, ok, err, ◌==◌, if◌then◌else◌,
}
use octelium.Rscserver.Resources.{
  Resource, GetOptions, Call, created, updated, deleted, Server, check_get_options, is_type_secret,
  first, is_asked, update_rows, delete_rows, get_cache, set_cache, delete_cache, publish,
  is_equal_message,
}

abbrev pub by_uid_only : String → GetOptions
by_uid_only uid = record { name = ""; uid = uid }

-- The query of `doGet`, once the cache had nothing.
abbrev pub get_from_db : Call → String → GetOptions → Server → Result Resource × Server
get_from_db call kind o s = elim call.db_get [
  | err e ↦ (err e, s)
  | ok u ↦ elim (first (is_asked kind o) s.rows) [
    | none ↦ (err not_found, s)
    | some r ↦ (ok r, set_cache r s)
  ]
]

unfoldable pub do_get : Call → String → GetOptions → Server → Result Resource × Server
do_get call kind o s =
    if not (check_get_options call o)
    then (err invalid_arg, s)
    else elim (get_cache call kind o s) [ some r ↦ (ok r, s) | none ↦ get_from_db call kind o s ]

-- What the server stamps on a new resource.
abbrev pub stamped : Call → String → Resource → Resource
stamped call kind req = record req {
  kind = kind;
  uid = call.new_uid;
  resource_version = call.new_version;
  created_at = call.now;
  actor_ref = call.actor_ref;
  actor_operation = call.actor_operation;
}

-- Secrets are read again once they are written, as a secret manager may change them.
abbrev pub written : Call → Resource → Server → Result Resource × Server
written call r s =
    if is_type_secret r.kind then do_get call r.kind (by_uid_only r.uid) s else (ok r, s)

-- The end of `doCreate`, once no resource has the name.
unfoldable pub insert_row : Call → Resource → Server → Result Resource × Server
insert_row call r s = elim call.db_exec [
  | err e ↦ (err e, s)
  | ok u ↦
      let (w, s') = written call r (record s { rows = s.rows ++ (r ∷ []) }) in
      elim w [ err e ↦ (err e, s') | ok r' ↦ (ok r', publish (created r') (set_cache r' s')) ]
]

unfoldable pub do_create : Call → String → Resource → Server → Result Resource × Server
do_create call kind req s =
    let (found, s') = do_get call kind (record { name = req.name; uid = "" }) s in
    elim found [
      | ok r ↦ (err already_exists, s')
      | err not_found ↦ insert_row call (stamped call kind req) s'
      | err e ↦ (err e, s')
    ]

-- What the server stamps on a change.
abbrev pub restamped : Call → String → Resource → Resource
restamped call kind req = record req {
  kind = kind;
  last_resource_version = req.resource_version;
  resource_version = call.new_version;
  updated_at = call.now;
  actor_ref = call.actor_ref;
  actor_operation = call.actor_operation;
}

-- The end of `doUpdate`, once the resource is found and has changed.
unfoldable pub change : Call → Resource → Resource → Server → Result Resource × Server
change call r old s = elim call.db_exec [
  | err e ↦ (err e, s)
  | ok u ↦
      let (w, s') = written call r (record s { rows = update_rows r s.rows }) in
      elim w [ err e ↦ (err e, s') | ok r' ↦ (ok r', publish (updated r' old) (set_cache r' s')) ]
]

unfoldable pub do_update : Call → String → Resource → Server → Result Resource × Server
do_update call kind req s =
    let (found, s') = do_get call kind (by_uid_only req.uid) s in
    elim found [
      | err e ↦ (err e, s')
      | ok old ↦
          if not (old.resource_version == req.resource_version)
          then (err resource_changed, s')
          else if is_equal_message req old
          then (ok req, s')
          else change call (restamped call kind req) old s'
    ]

-- The item that `doDelete` returns and publishes.
abbrev pub last_stamped : Call → Resource → Resource
last_stamped call r = restamped call r.kind r

unfoldable pub do_delete : Call → String → GetOptions → Server → Result Resource × Server
do_delete call kind o s =
    let (found, s') = do_get call kind o s in
    elim found [
      | err e ↦ (err e, s')
      | ok r ↦ elim call.db_exec [
        | err e ↦ (err e, s')
        | ok u ↦
            let item = last_stamped call r in
            (
              ok item,
              publish (deleted item)
                  (delete_cache item (record s' { rows = delete_rows r.uid s'.rows })),
            )
      ]
    ]
