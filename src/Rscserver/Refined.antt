-- ===== src/Rscserver/Refined.antt =====
-- cluster/rscserver/rscserver/common.go: runs of calls on the server, and on the table of resources.
use octelium.Base.{
  String, ◌≡◌, refl, ◌∙◌, Bool, true, false, not, ◌&&◌, Option, none, some, List, [], ◌∷◌, ◌++◌,
  any, arith, Result, ok, err,
}
use octelium.Rscserver.Resources.{
  Resource, GetOptions, Call, Event, Server, check_get_options, has_uid, delete_cache,
}
use octelium.Rscserver.Operations.{do_get, by_uid_only, do_create, do_update, do_delete}
use octelium.Rscserver.Table.{Outcome, refuse, get_row, create_row, update_row, delete_row}
use octelium.Rscserver.Coherent.{IsCoherent, IsCoherent-beside, delete_cache-IsCoherent}
use octelium.Rscserver.Reads.{is_own, do_get-Reads}
use octelium.Rscserver.Implements.{Implements}
use octelium.Rscserver.Created.{do_create-Implements}
use octelium.Rscserver.Deleted.{do_delete-Implements, delete_cache-same}
use octelium.Rscserver.Updated.{keeps_name, do_update-Implements}

-- What a client calls, and the loss of a resource's keys in Redis, which answers nothing.
pub data Op : Type 0 where
  get : String → GetOptions → Op
  create : String → Resource → Op
  update : String → Resource → Op
  delete : String → GetOptions → Op

-- A call, and the resource whose keys Redis loses after it, if any.
pub record Step : Type 0 where
  pub call : Call
  pub op : Op
  pub lost : Option Resource

abbrev pub serve : Call → Op → Server → Result Resource × Server
serve call (get kind o) s = do_get call kind o s
serve call (create kind req) s = do_create call kind req s
serve call (update kind req) s = do_update call kind req s
serve call (delete kind o) s = do_delete call kind o s

abbrev pub lose : Option Resource → Server → Server
lose none s = s
lose (some r) s = delete_cache r s

-- The answers of a run, and the server after it.
unfoldable pub run : List Step → Server → List (Result Resource) × Server
run [] s = ([], s)
run (x ∷ xs) s =
    let got = serve x.call x.op s in
    let rest = run xs (lose x.lost got.1) in (got.0 ∷ rest.0, rest.1)

abbrev pub serve_row : Call → Op → List Resource → Outcome
serve_row call (get kind o) rows = refuse rows (get_row call kind o rows)
serve_row call (create kind req) rows = create_row call kind req rows
serve_row call (update kind req) rows = update_row call kind req rows
serve_row call (delete kind o) rows = delete_row call kind o rows

-- The answers that the table of resources gives, the table after it, and all that was published, the
-- last first.
unfoldable pub run_rows :
    List Step → List Resource → List Event → List (Result Resource) × List Resource × List Event
run_rows [] rows news = ([], rows, news)
run_rows (x ∷ xs) rows news =
    let out = serve_row x.call x.op rows in
    let rest = run_rows xs out.rows (out.news ++ news) in (out.reply ∷ rest.0, rest.1, rest.2)

abbrev is_up : Result (Unit {0}) → Bool
is_up (ok u) = true
is_up (err e) = false

-- Requests by UID ask for the resource's own kind, an update keeps the name, and a new UID is new.
abbrev pub is_fair : Call → Op → List Resource → Bool
is_fair call (get kind o) rows = is_own kind o rows
is_fair call (create kind req) rows =
    check_get_options call (by_uid_only call.new_uid) && not (any (has_uid call.new_uid) rows)
is_fair call (update kind req) rows = is_own kind (by_uid_only req.uid) rows && keeps_name req rows
is_fair call (delete kind o) rows = is_own kind o rows

-- Each step of the run is fair where it is taken, and the database answers it.
unfoldable pub are_fair : List Step → List Resource → Bool
are_fair [] rows = true
are_fair (x ∷ xs) rows =
    is_up x.call.db_get
    && is_up x.call.db_exec
    && is_fair x.call x.op rows
    && are_fair xs (serve_row x.call x.op rows).rows

is_up-ok : (r : Result (Unit {0})) → is_up r ≡ true → r ≡ ok tt
is_up-ok (ok tt) e = refl
is_up-ok (err x) e = cc

serve-Implements :
    (call : Call) (op : Op) (s : Server)
    → call.db_get ≡ ok tt
    → call.db_exec ≡ ok tt
    → is_fair call op s.rows ≡ true
    → IsCoherent s
    → Implements (serve call op s) s (serve_row call op s.rows)
serve-Implements call (get kind o) s up w fair h =
    let g = do_get-Reads call kind o s up h fair in
    record { reply = g.reply; rows = g.rows; events = g.events; coherent = g.coherent }
serve-Implements call (create kind req) s up w fair h =
    do_create-Implements call kind req s up w (ground (arith, fair)) (ground (arith, fair)) h
serve-Implements call (update kind req) s up w fair h =
    do_update-Implements call kind req s up w (ground (arith, fair)) (ground (arith, fair)) h
serve-Implements call (delete kind o) s up w fair h = do_delete-Implements call kind o s up w fair h

lose-same :
    (lost : Option Resource) (s : Server)
    → ((lose lost s).rows ≡ s.rows) × ((lose lost s).events ≡ s.events)
lose-same none s = (refl, refl)
lose-same (some r) s = delete_cache-same r s

lose-IsCoherent : (lost : Option Resource) (s : Server) → IsCoherent s → IsCoherent (lose lost s)
lose-IsCoherent none s h = h
lose-IsCoherent (some r) s h = delete_cache-IsCoherent r s (IsCoherent-beside r s h)

pub record Refines (got : List (Result Resource) × Server)
    (want : List (Result Resource) × List Resource × List Event) : Type 0 where
  pub answers : got.0 ≡ want.0
  pub rows : got.1.rows ≡ want.1
  pub events : got.1.events ≡ want.2
  pub coherent : IsCoherent got.1

-- A resource server that begins with a coherent cache, and whose database answers, gives any run of
-- fair calls the answers that the table of resources gives with no cache, whatever Redis loses
-- between the calls; it ends with the same rows, has published the same events, and its cache is
-- coherent again. A run is fair where a request by UID asks for the kind that the resource has, an
-- update keeps the name, and a new UID is a valid one that no row has.
pub run-Refines :
    (xs : List Step) (s : Server)
    → are_fair xs s.rows ≡ true
    → IsCoherent s
    → Refines (run xs s) (run_rows xs s.rows s.events)
unfolding run run_rows are_fair
run-Refines [] s fair h = record { answers = refl; rows = refl; events = refl; coherent = h }
run-Refines (x ∷ xs) s fair h =
    let up = is_up-ok x.call.db_get (ground (arith, fair)) in
    let w = is_up-ok x.call.db_exec (ground (arith, fair)) in
    let i = serve-Implements x.call x.op s up w (ground (arith, fair)) h in
    let after : Server = (serve x.call x.op s).1 in
    let next = lose x.lost after in
    let same = lose-same x.lost after in
    let rows : next.rows ≡ (serve_row x.call x.op s.rows).rows = same.0 ∙ i.rows in
    let events : next.events ≡ (serve_row x.call x.op s.rows).news ++ s.events =
      same.1 ∙ i.events in
    let ih =
      run-Refines xs next (ground (arith, fair, rows)) (lose-IsCoherent x.lost after i.coherent) in
    record {
      answers = ground (arith, i.reply, ih.answers, rows, events);
      rows = ground (arith, ih.rows, rows, events);
      events = ground (arith, ih.events, rows, events);
      coherent = ih.coherent;
    }
