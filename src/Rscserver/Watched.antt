-- ===== src/Rscserver/Watched.antt =====
-- cluster/rscserver/rscserver/common.go: watchers of the events can follow the table.
use octelium.Base.{
  ◌≡◌, sym, ap, ◌∙◌, true, List, [], ◌∷◌, ◌++◌, arith, inl, inr, any, ◌==◌, Result-cases,
  Bool-cases,
}
use octelium.Rscserver.Resources.{
  Resource, Call, Event, created, updated, deleted, Server, update_rows, delete_rows,
  check_get_options, is_named, is_equal_message,
}
use octelium.Rscserver.Operations.{by_uid_only}
use octelium.Rscserver.Table.{get_row, create_row, update_row, delete_row}
use octelium.Rscserver.Coherent.{IsCoherent}
use octelium.Rscserver.Refined.{
  Op, get, create, update, delete, Step, run, serve_row, run_rows, are_fair, run-Refines,
}

-- What a watcher that starts from `rows` makes of the events, the last first.
abbrev pub rebuild : List Event → List Resource → List Resource
rebuild [] rows = rows
rebuild (created r ∷ es) rows = rebuild es rows ++ (r ∷ [])
rebuild (updated r old ∷ es) rows = update_rows r (rebuild es rows)
rebuild (deleted r ∷ es) rows = delete_rows r.uid (rebuild es rows)

-- One call, on a table that the events before it rebuild.
serve_row-rebuild :
    (call : Call) (op : Op) (start rows : List Resource) (news : List Event)
    → rows ≡ rebuild news start
    → (serve_row call op rows).rows ≡ rebuild ((serve_row call op rows).news ++ news) start
unfolding create_row update_row delete_row
serve_row-rebuild call (get kind o) start rows news e = e
serve_row-rebuild call (create kind req) start rows news e =
    elim (Bool-cases (check_get_options call (record { name = req.name; uid = "" }))) [
      | inr bad ↦ ground (arith, bad, e)
      | inl good ↦ elim (Bool-cases (any (is_named kind req.name) rows)) [
        | inl taken ↦ ground (arith, good, taken, e)
        | inr free ↦ ground (arith, good, free, e)
      ]
    ]
serve_row-rebuild call (update kind req) start rows news e =
    elim (Result-cases (get_row call kind (by_uid_only req.uid) rows)) [
      | inr (w, no_row) ↦ ground (arith, no_row, e)
      | inl (old, row) ↦ elim (Bool-cases (old.resource_version == req.resource_version)) [
        | inr stale ↦ ground (arith, row, stale, e)
        | inl fresh ↦ elim (Bool-cases (is_equal_message req old)) [
          | inl equal ↦ ground (arith, row, fresh, equal, e)
          | inr differs ↦ ground (arith, row, fresh, differs, e)
        ]
      ]
    ]
serve_row-rebuild call (delete kind o) start rows news e =
    elim (Result-cases (get_row call kind o rows)) [
      | inr (w, no_row) ↦ ground (arith, no_row, e)
      | inl (r, row) ↦ ground (arith, row, e)
    ]

run_rows-rebuild :
    (xs : List Step) (start rows : List Resource) (news : List Event)
    → rows ≡ rebuild news start
    → (run_rows xs rows news).1 ≡ rebuild (run_rows xs rows news).2 start
unfolding run_rows
run_rows-rebuild [] start rows news e = e
run_rows-rebuild (x ∷ xs) start rows news e =
    run_rows-rebuild xs start (serve_row x.call x.op rows).rows
      ((serve_row x.call x.op rows).news ++ news) (serve_row-rebuild x.call x.op start rows news e)

-- On a server with a coherent cache that has published nothing yet, a watcher that knows the rows
-- before a run of fair calls, which the database answers, and gets the events that the run publishes
-- knows the rows after it.
pub run-rebuild :
    (xs : List Step) (s : Server)
    → are_fair xs s.rows ≡ true
    → IsCoherent s
    → s.events ≡ []
    → rebuild (run xs s).1.events s.rows ≡ (run xs s).1.rows
run-rebuild xs s fair h quiet =
    let i = run-Refines xs s fair h in
    let e = run_rows-rebuild xs s.rows s.rows s.events (ground (arith, quiet)) in
    ap (λ (es : List Event). rebuild es s.rows) i.events ∙ sym e ∙ sym i.rows
