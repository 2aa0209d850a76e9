-- ===== src/Rscserver/Refused.antt =====
-- cluster/rscserver/rscserver/common.go: what a call that fails leaves behind.
use octelium.Base.{
  String, ◌≡◌, ap, ◌∙◌, false, arith, inl, inr, Error, Result-cases, err, Bool-cases, Option-cases,
  not_found, already_exists, resource_changed, invalid_arg, session_not_found, unauthenticated,
  failed, ◌==◌,
}
use octelium.Rscserver.Resources.{
  Resource, GetOptions, Call, Server, is_type_secret, first, is_asked, check_get_options, get_cache,
  is_equal_message,
}
use octelium.Rscserver.Operations.{
  do_get, by_uid_only, stamped, restamped, insert_row, change, do_create, do_update, do_delete,
}
use octelium.Rscserver.Coherent.{set_cache-same}
use octelium.Rscserver.Refined.{Op, get, create, update, delete, serve}

-- The two servers have the same rows and have published the same events.
abbrev pub AreAlike : Server → Server → Type 0
AreAlike s t = (s.rows ≡ t.rows) × (s.events ≡ t.events)

pub do_get-same :
    (call : Call) (kind : String) (o : GetOptions) (s : Server)
    → AreAlike (do_get call kind o s).1 s
unfolding do_get
do_get-same call kind o s = elim (Bool-cases (check_get_options call o)) [
  | inr bad ↦ (ground (arith, bad), ground (arith, bad))
  | inl good ↦ elim (Option-cases (get_cache call kind o s)) [
    | inr (r, e) ↦ (ground (arith, good, e), ground (arith, good, e))
    | inl e ↦ elim (Result-cases call.db_get) [
      | inr (w, down) ↦ (ground (arith, good, e, down), ground (arith, good, e, down))
      | inl (u, up) ↦ elim (Option-cases (first (is_asked kind o) s.rows)) [
        | inl none_there ↦
            (ground (arith, good, e, up, none_there), ground (arith, good, e, up, none_there))
        | inr (r, found) ↦
            let same = set_cache-same r s in
            (ground (arith, good, e, up, found, same.0), ground (arith, good, e, up, found, same.1))
      ]
    ]
  ]
]

insert_row-fails :
    (call : Call) (r : Resource) (s : Server) (e : Error)
    → is_type_secret r.kind ≡ false
    → (insert_row call r s).0 ≡ err e
    → (insert_row call r s).1 ≡ s
unfolding insert_row
insert_row-fails call r s e plain fails = elim (Result-cases call.db_exec) [
  | inr (w, down) ↦ ground (arith, down)
  | inl (u, up) ↦ ground (arith, up, plain, fails)
]

change-fails :
    (call : Call) (r old : Resource) (s : Server) (e : Error)
    → is_type_secret r.kind ≡ false
    → (change call r old s).0 ≡ err e
    → (change call r old s).1 ≡ s
unfolding change
change-fails call r old s e plain fails = elim (Result-cases call.db_exec) [
  | inr (w, down) ↦ ground (arith, down)
  | inl (u, up) ↦ ground (arith, up, plain, fails)
]

abbrev pub kind_of : Op → String
kind_of (get kind o) = kind
kind_of (create kind r) = kind
kind_of (update kind r) = kind
kind_of (delete kind o) = kind

do_create-fails :
    (call : Call) (kind : String) (req : Resource) (s : Server) (e : Error)
    → is_type_secret kind ≡ false
    → (do_create call kind req s).0 ≡ err e
    → (do_create call kind req s).1 ≡ (do_get call kind (record { name = req.name; uid = "" }) s).1
unfolding do_create
do_create-fails call kind req s e plain fails =
    let o : GetOptions = record { name = req.name; uid = "" } in
    let kept : Server = (do_get call kind o s).1 in
    elim (Result-cases (do_get call kind o s).0) [
      | inl (r, has) ↦ ground (arith, has)
      | inr (not_found, no_row) ↦ ground (
        arith,
        no_row,
        fails,
        insert_row-fails call (stamped call kind req) kept e plain (ground (arith, no_row, fails)),
      )
      | inr (session_not_found, no_row) ↦ ground (arith, no_row)
      | inr (unauthenticated, no_row) ↦ ground (arith, no_row)
      | inr (already_exists, no_row) ↦ ground (arith, no_row)
      | inr (resource_changed, no_row) ↦ ground (arith, no_row)
      | inr (invalid_arg, no_row) ↦ ground (arith, no_row)
      | inr (failed why, no_row) ↦ ground (arith, no_row)
    ]

do_update-fails :
    (call : Call) (kind : String) (req : Resource) (s : Server) (e : Error)
    → is_type_secret kind ≡ false
    → (do_update call kind req s).0 ≡ err e
    → (do_update call kind req s).1 ≡ (do_get call kind (by_uid_only req.uid) s).1
unfolding do_update
do_update-fails call kind req s e plain fails =
    let kept : Server = (do_get call kind (by_uid_only req.uid) s).1 in
    elim (Result-cases (do_get call kind (by_uid_only req.uid) s).0) [
      | inr (w, no_row) ↦ ground (arith, no_row)
      | inl (old, has) ↦ elim (Bool-cases (old.resource_version == req.resource_version)) [
        | inr stale ↦ ground (arith, has, stale)
        | inl fresh ↦ elim (Bool-cases (is_equal_message req old)) [
          | inl equal ↦ ground (arith, has, fresh, equal)
          | inr differs ↦ ground (
            arith,
            has,
            fresh,
            differs,
            change-fails call (restamped call kind req) old kept e plain
                (ground (arith, has, fresh, differs, fails)),
          )
        ]
      ]
    ]

do_delete-fails :
    (call : Call) (kind : String) (o : GetOptions) (s : Server) (e : Error)
    → (do_delete call kind o s).0 ≡ err e
    → (do_delete call kind o s).1 ≡ (do_get call kind o s).1
unfolding do_delete
do_delete-fails call kind o s e fails = elim (Result-cases (do_get call kind o s).0) [
  | inr (w, no_row) ↦ ground (arith, no_row)
  | inl (r, has) ↦ elim (Result-cases call.db_exec) [
    | inr (w, down) ↦ ground (arith, has, down)
    | inl (u, up) ↦ ground (arith, has, up, fails)
  ]
]

via : (s t u : Server) → s ≡ t → AreAlike t u → AreAlike s u
via s t u e a = (ap (λ (x : Server). x.rows) e ∙ a.0, ap (λ (x : Server). x.events) e ∙ a.1)

-- A call that fails has changed no row and published nothing, whatever fails, the cache and the
-- database included, unless the call is for a kind of secrets.
pub serve-fails :
    (call : Call) (op : Op) (s : Server) (e : Error)
    → is_type_secret (kind_of op) ≡ false
    → (serve call op s).0 ≡ err e
    → ((serve call op s).1.rows ≡ s.rows) × ((serve call op s).1.events ≡ s.events)
serve-fails call (get kind o) s e plain fails = do_get-same call kind o s
serve-fails call (create kind req) s e plain fails =
    via (do_create call kind req s).1 (do_get call kind (record { name = req.name; uid = "" }) s).1
      s (do_create-fails call kind req s e plain fails)
      (do_get-same call kind (record { name = req.name; uid = "" }) s)
serve-fails call (update kind req) s e plain fails =
    via (do_update call kind req s).1 (do_get call kind (by_uid_only req.uid) s).1 s
      (do_update-fails call kind req s e plain fails)
      (do_get-same call kind (by_uid_only req.uid) s)
serve-fails call (delete kind o) s e plain fails =
    via (do_delete call kind o s).1 (do_get call kind o s).1 s
      (do_delete-fails call kind o s e fails) (do_get-same call kind o s)
