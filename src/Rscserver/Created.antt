-- ===== src/Rscserver/Created.antt =====
-- cluster/rscserver/rscserver/common.go: creation does what the table of resources promises.
use mathlib.Core.Path.{subst⁻¹}
use octelium.Base.{
  String, ◌≡◌, refl, true, false, [], ◌∷◌, ◌++◌, any, ◌==◌, eq_iff, str_eq_refl, arith, inl, inr,
  Bool-cases, Result, ok, err, already_exists, not_found, invalid_arg,
}
use octelium.Rscserver.Resources.{
  Resource, GetOptions, Call, created, Server, check_get_options, is_named, has_uid, set_cache,
  publish,
}
use octelium.Rscserver.Operations.{do_get, by_uid_only, written, stamped, insert_row, do_create}
use octelium.Rscserver.Table.{refuse, get_row, create_row}
use octelium.Rscserver.Rows.{first-any, first-append, first-append_last, are_apart-append}
use octelium.Rscserver.Coherent.{IsCoherent, set_cache-same, set_cache-IsCoherent}
use octelium.Rscserver.Reads.{do_get-Reads}
use octelium.Rscserver.Implements.{
  Implements, asked_name, same-Implements, later-Implements, refuse-Implements, publish-IsCoherent,
  written-Writes,
}

abbrev grown : Resource → Server → Server
grown r s = record s { rows = s.rows ++ (r ∷ []) }

grown-IsCoherent :
    (r : Resource) (s : Server)
    → any (has_uid r.uid) s.rows ≡ false
    → any (is_named r.kind r.name) s.rows ≡ false
    → IsCoherent s
    → IsCoherent (grown r s)
grown-IsCoherent r s u n h = record {
  apart = are_apart-append s.rows r u n h.apart;
  names = λ kind name x e. first-append (is_named kind name) s.rows r x (h.names kind name x e);
  uids = λ uid x e. first-append (has_uid uid) s.rows r x (h.uids uid x e);
  plain_names = h.plain_names;
  plain_uids = h.plain_uids;
}

insert_row-Implements :
    (call : Call) (r : Resource) (s : Server)
    → call.db_get ≡ ok tt
    → call.db_exec ≡ ok tt
    → check_get_options call (by_uid_only r.uid) ≡ true
    → any (has_uid r.uid) s.rows ≡ false
    → any (is_named r.kind r.name) s.rows ≡ false
    → IsCoherent s
    → Implements
        (insert_row call r s)
        s
        (record { reply = ok r; rows = s.rows ++ (r ∷ []); news = created r ∷ [] })
unfolding insert_row
insert_row-Implements call r s up writes valid u n h =
    let h' = grown-IsCoherent r s u n h in
    let named =
      first-append_last (is_named r.kind r.name) s.rows r n
        (ground (arith, str_eq_refl r.kind, str_eq_refl r.name)) in
    let there = first-append_last (has_uid r.uid) s.rows r u (str_eq_refl r.uid) in
    let w =
      written-Writes call r (grown r s) up valid there (λ e. h')
        (λ e. set_cache-IsCoherent r (grown r s) named there h') in
    let same = set_cache-same r (written call r (grown r s)).1 in
    let at : insert_row call r s
        ≡ (ok r, publish (created r) (set_cache r (written call r (grown r s)).1)) =
      ground (arith, writes, w.reply) in
    record {
      reply = ground (arith, at);
      rows = ground (arith, at, same.0, w.rows);
      events = ground (arith, at, same.1, w.events);
      coherent =
          subst⁻¹ (λ (g : Result Resource × Server). IsCoherent g.1) at
            (publish-IsCoherent (created r) (set_cache r (written call r (grown r s)).1)
              w.coherent);
    }

get_bad :
    (call : Call) (kind : String) (o : GetOptions) (s : Server)
    → check_get_options call o ≡ false
    → do_get call kind o s ≡ (err invalid_arg, s)
unfolding do_get
get_bad call kind o s bad = ground (arith, bad)

pub good_has_name :
    (call : Call) (o : GetOptions)
    → o.uid ≡ ""
    → check_get_options call o ≡ true
    → (o.name == "") ≡ false
unfolding check_get_options
good_has_name call o u good = ground (arith, good, (eq_iff o.uid "").1 u)

-- Creation does what the table promises.
pub do_create-Implements :
    (call : Call) (kind : String) (req : Resource) (s : Server)
    → call.db_get ≡ ok tt
    → call.db_exec ≡ ok tt
    → check_get_options call (by_uid_only call.new_uid) ≡ true
    → any (has_uid call.new_uid) s.rows ≡ false
    → IsCoherent s
    → Implements (do_create call kind req s) s (create_row call kind req s.rows)
unfolding do_create create_row get_row
do_create-Implements call kind req s up writes valid new h =
    let o : GetOptions = record { name = req.name; uid = "" } in
    let kept : Server = (do_get call kind o s).1 in
    elim (Bool-cases (check_get_options call o)) [
      | inr bad ↦
          same-Implements (do_create call kind req s) (err invalid_arg, s) s
            (create_row call kind req s.rows) (refuse s.rows (err invalid_arg))
            (ground (arith, get_bad call kind o s bad)) (ground (arith, bad))
            (refuse-Implements (err invalid_arg) s s refl refl h)
      | inl good ↦
          let named = good_has_name call o refl good in
          let g = do_get-Reads call kind o s up h (ground (arith, named)) in
          elim (first-any (is_named kind req.name) s.rows) [
            | inr (x, e, i, y) ↦
                let has : (do_get call kind o s).0 ≡ ok x =
                  ground (arith, g.reply, good, asked_name kind o s.rows named, e) in
                same-Implements (do_create call kind req s) (err already_exists, kept) s
                  (create_row call kind req s.rows) (refuse s.rows (err already_exists))
                  (ground (arith, has)) (ground (arith, good, y))
                  (refuse-Implements (err already_exists) s kept g.rows g.events g.coherent)
            | inl (e, n) ↦
                let has : (do_get call kind o s).0 ≡ err not_found =
                  ground (arith, g.reply, good, asked_name kind o s.rows named, e) in
                let i =
                  insert_row-Implements call (stamped call kind req) kept up writes valid
                    (ground (arith, g.rows, new)) (ground (arith, g.rows, n)) g.coherent in
                later-Implements (do_create call kind req s) s kept
                  (create_row call kind req s.rows) g.events
                  (same-Implements (do_create call kind req s)
                    (insert_row call (stamped call kind req) kept) kept
                    (create_row call kind req s.rows)
                    (record {
                      reply = ok (stamped call kind req);
                      rows = kept.rows ++ (stamped call kind req ∷ []);
                      news = created (stamped call kind req) ∷ [];
                    })
                    (ground (arith, has)) (ground (arith, good, n, g.rows)) i)
          ]
    ]
