-- ===== src/Rscserver/Updated.antt =====
-- cluster/rscserver/rscserver/common.go: updates do what the table of resources promises.
use mathlib.Core.Path.{subst⁻¹}
use octelium.Base.{
  String, ◌≡◌, sym, ap, ◌∙◌, Bool, true, none, some, List, [], ◌∷◌, ◌==◌, eq_iff, arith, inl, inr,
  Bool-cases, Result, Result-cases, ok, err, resource_changed,
}
use octelium.Rscserver.Resources.{
  Resource, Call, updated, Server, check_get_options, first, is_named, has_uid, is_asked,
  update_rows, set_cache, publish, is_equal_message,
}
use octelium.Rscserver.Operations.{do_get, by_uid_only, written, restamped, change, do_update}
use octelium.Rscserver.Table.{refuse, get_row, update_row}
use octelium.Rscserver.Rows.{first-keys, first-holds}
use octelium.Rscserver.Changed.{all-keeps_keys, is_named-changed, has_uid-changed}
use octelium.Rscserver.Coherent.{IsCoherent, set_cache_plain, set_cache-same}
use octelium.Rscserver.Reads.{is_own, do_get-Reads}
use octelium.Rscserver.Implements.{
  Implements, same-Implements, later-Implements, refuse-Implements, get_row-first, get_row-valid,
  publish-IsCoherent, written-Writes,
}
use octelium.Rscserver.Renewed.{renewed, IsUpdate, comes, renewed_secret, renewed_beside}

change-Implements :
    (call : Call) (new old : Resource) (s : Server)
    → call.db_get ≡ ok tt
    → call.db_exec ≡ ok tt
    → check_get_options call (by_uid_only new.uid) ≡ true
    → IsUpdate new old s
    → Implements
        (change call new old s)
        s
        (record { reply = ok new; rows = update_rows new s.rows; news = updated new old ∷ [] })
unfolding change
change-Implements call new old s up writes valid i =
    let next = renewed new s in
    let keys = (first-keys (has_uid new.uid) s.rows old i.coherent.apart i.there).0 in
    let hit : is_named new.kind new.name old ≡ true =
      ground (arith, (eq_iff old.kind new.kind).1 i.kind, (eq_iff old.name new.name).1 i.name) in
    let by_name : first (is_named new.kind new.name) s.rows ≡ some old =
      ap (λ (k : String). first (is_named k new.name) s.rows) (sym i.kind)
      ∙ ap (λ (n : String). first (is_named old.kind n) s.rows) (sym i.name)
      ∙ keys in
    let named =
      comes (is_named new.kind new.name) new old s (is_named-changed new.kind new.name new) i hit
        by_name in
    let there =
      comes (has_uid new.uid) new old s (has_uid-changed new.uid new) i
        ((eq_iff old.uid new.uid).1 i.uid) i.there in
    let w =
      written-Writes call new next up valid there (renewed_secret new old s i)
        (λ plain. set_cache_plain new next plain named there (renewed_beside new old s i)) in
    let last : Server = (written call new next).1 in
    let same = set_cache-same new last in
    let at : change call new old s ≡ (ok new, publish (updated new old) (set_cache new last)) =
      ground (arith, writes, w.reply) in
    record {
      reply = ground (arith, at);
      rows = ground (arith, at, same.0, w.rows);
      events = ground (arith, at, same.1, w.events);
      coherent =
          subst⁻¹ (λ (g : Result Resource × Server). IsCoherent g.1) at
            (publish-IsCoherent (updated new old) (set_cache new last) w.coherent);
    }

-- The stored resource of the UID has the name of the request.
abbrev pub keeps_name : Resource → List Resource → Bool
keeps_name req rows = elim (first (has_uid req.uid) rows) [
  | none ↦ true
  | some r ↦ r.name == req.name
]

pub get_row-IsUpdate :
    (call : Call) (kind : String) (req old : Resource) (s : Server)
    → IsCoherent s
    → keeps_name req s.rows ≡ true
    → get_row call kind (by_uid_only req.uid) s.rows ≡ ok old
    → IsUpdate (restamped call kind req) old s
get_row-IsUpdate call kind req old s h keeps row =
    let found = get_row-first call kind (by_uid_only req.uid) s.rows old row in
    let asked = first-holds (is_asked kind (by_uid_only req.uid)) s.rows old found in
    let u : old.uid ≡ req.uid = (eq_iff old.uid req.uid).0 (ground (arith, asked)) in
    let there : first (has_uid req.uid) s.rows ≡ some old =
      ap (λ (t : String). first (has_uid t) s.rows) (sym u)
      ∙ (first-keys (is_asked kind (by_uid_only req.uid)) s.rows old h.apart found).1 in
    let n : old.name ≡ req.name = (eq_iff old.name req.name).0 (ground (arith, keeps, there)) in
    let k : old.kind ≡ kind = (eq_iff old.kind kind).0 (ground (arith, asked)) in
    record {
      coherent = h;
      there = there;
      uid = u;
      name = n;
      kind = k;
      keep = all-keeps_keys (restamped call kind req) old s.rows h.apart there n k;
    }

-- An update does what the table promises.
pub do_update-Implements :
    (call : Call) (kind : String) (req : Resource) (s : Server)
    → call.db_get ≡ ok tt
    → call.db_exec ≡ ok tt
    → is_own kind (by_uid_only req.uid) s.rows ≡ true
    → keeps_name req s.rows ≡ true
    → IsCoherent s
    → Implements (do_update call kind req s) s (update_row call kind req s.rows)
unfolding do_update update_row
do_update-Implements call kind req s up writes own keeps h =
    let o = by_uid_only req.uid in
    let g = do_get-Reads call kind o s up h own in
    let kept : Server = (do_get call kind o s).1 in
    let refused = λ (r : Result Resource). refuse-Implements r s kept g.rows g.events g.coherent in
    let got = do_update call kind req s in
    let out = update_row call kind req s.rows in
    elim (Result-cases (get_row call kind o s.rows)) [
      | inr (e, no_row) ↦
          same-Implements got (err e, kept) s out (refuse s.rows (err e))
            (ground (arith, g.reply, no_row)) (ground (arith, no_row)) (refused (err e))
      | inl (old, row) ↦ elim (Bool-cases (old.resource_version == req.resource_version)) [
        | inr stale ↦
            same-Implements got (err resource_changed, kept) s out
              (refuse s.rows (err resource_changed)) (ground (arith, g.reply, row, stale))
              (ground (arith, row, stale)) (refused (err resource_changed))
        | inl fresh ↦ elim (Bool-cases (is_equal_message req old)) [
          | inl equal ↦
              same-Implements got (ok req, kept) s out (refuse s.rows (ok req))
                (ground (arith, g.reply, row, fresh, equal)) (ground (arith, row, fresh, equal))
                (refused (ok req))
          | inr differs ↦
              let new = restamped call kind req in
              let i =
                get_row-IsUpdate call kind req old kept g.coherent (ground (arith, g.rows, keeps))
                  (ground (arith, g.rows, row)) in
              later-Implements got s kept out g.events (
                same-Implements got (change call new old kept) kept out
                  (record {
                    reply = ok new;
                    rows = update_rows new kept.rows;
                    news = updated new old ∷ [];
                  })
                  (ground (arith, g.reply, row, fresh, differs))
                  (ground (arith, row, fresh, differs, g.rows))
                  (change-Implements call new old kept up writes
                    (get_row-valid call kind o s.rows old row) i))
        ]
      ]
    ]
