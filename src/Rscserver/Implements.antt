-- ===== src/Rscserver/Implements.antt =====
-- Calls that do what the table of resources promises, and the cache after a change of a row.
use mathlib.Core.Path.{subst⁻¹}
use octelium.Base.{
  String, ◌≡◌, refl, sym, ap, ◌∙◌, Bool, true, false, not, ◌&&◌, some, List, ◌++◌, ◌==◌,
  str_eq_refl, if◌then◌else◌, arith, inl, inr, Bool-cases, Option-cases, Result, ok,
}
use octelium.Rscserver.Resources.{
  Resource, GetOptions, is_asked, Call, Event, Server, check_get_options, is_type_secret, first,
  is_named, has_uid, set_cache, publish,
}
use octelium.Rscserver.Operations.{do_get, by_uid_only, written}
use octelium.Rscserver.Table.{Outcome, refuse, get_row}
use octelium.Rscserver.Rows.{are_apart, first-keys}
use octelium.Rscserver.Coherent.{IsCoherent}
use octelium.Rscserver.Reads.{first_narrow, do_get-Reads}

-- A call on the server `s` came to the outcome `o`, and the cache is coherent after it.
pub record Implements (got : Result Resource × Server) (s : Server) (o : Outcome) : Type 0 where
  pub reply : got.0 ≡ o.reply
  pub rows : got.1.rows ≡ o.rows
  pub events : got.1.events ≡ o.news ++ s.events
  pub coherent : IsCoherent got.1

pub same-Implements :
    (got got' : Result Resource × Server) (s : Server) (o o' : Outcome)
    → got ≡ got'
    → o ≡ o'
    → Implements got' s o'
    → Implements got s o
same-Implements got got' s o o' g e i =
    subst⁻¹ (λ (x : Result Resource × Server). Implements x s o) g (subst⁻¹ (Implements got' s) e i)

-- After a read, which may have filled the cache.
pub later-Implements :
    (got : Result Resource × Server) (s s' : Server) (o : Outcome)
    → s'.events ≡ s.events
    → Implements got s' o
    → Implements got s o
later-Implements got s s' o e i = record {
  reply = i.reply;
  rows = i.rows;
  events = i.events ∙ ap (λ (es : List Event). o.news ++ es) e;
  coherent = i.coherent;
}

pub refuse-Implements :
    (r : Result Resource) (s s' : Server)
    → s'.rows ≡ s.rows
    → s'.events ≡ s.events
    → IsCoherent s'
    → Implements (r, s') s (refuse s.rows r)
refuse-Implements r s s' rows events h = record {
  reply = refl;
  rows = rows;
  events = events;
  coherent = h;
}

-- What a request by name, and one by UID, asks for.
pub asked_name :
    (kind : String) (o : GetOptions) (rows : List Resource)
    → (o.name == "") ≡ false
    → first (is_asked kind o) rows ≡ first (is_named kind o.name) rows
asked_name kind o rows e =
    ap
      (λ (b : Bool).
        first (λ r. if not b then is_named kind o.name r else r.kind == kind && has_uid o.uid r)
          rows)
      e

pub asked_uid :
    (kind uid : String) (rows : List Resource)
    → first (is_asked kind (by_uid_only uid)) rows
      ≡ first (λ r. r.kind == kind && has_uid uid r) rows
asked_uid kind uid rows = refl

pub get_row-first :
    (call : Call) (kind : String) (o : GetOptions) (rows : List Resource) (r : Resource)
    → get_row call kind o rows ≡ ok r
    → first (is_asked kind o) rows ≡ some r
unfolding get_row
get_row-first call kind o rows r e = elim (Option-cases (first (is_asked kind o) rows)) [
  | inl nothing ↦ ground (arith, e, nothing)
  | inr (x, found) ↦ ground (arith, e, found)
]

pub get_row-valid :
    (call : Call) (kind : String) (o : GetOptions) (rows : List Resource) (r : Resource)
    → get_row call kind o rows ≡ ok r
    → check_get_options call o ≡ true
unfolding get_row
get_row-valid call kind o rows r e = ground (arith, e)

-- Rows that queries find and that share a UID are the same.
pub one_uid :
    (p q : Resource → Bool) (rows : List Resource) (x y : Resource)
    → are_apart rows ≡ true
    → first p rows ≡ some x
    → first q rows ≡ some y
    → x.uid ≡ y.uid
    → x ≡ y
one_uid p q rows x y a e f u =
    let ex = (first-keys p rows x a e).1 in
    let ey = (first-keys q rows y a f).1 in
    ground (arith, sym ex ∙ ap (λ (t : String). first (has_uid t) rows) u ∙ ey)

pub publish-IsCoherent : (e : Event) (s : Server) → IsCoherent s → IsCoherent (publish e s)
publish-IsCoherent e s h = record {
  apart = h.apart;
  names = h.names;
  uids = h.uids;
  plain_names = h.plain_names;
  plain_uids = h.plain_uids;
}

-- What is written is read back, and the cache is coherent once it holds it.
pub record Writes (call : Call) (r : Resource) (s : Server) : Type 0 where
  pub reply : (written call r s).0 ≡ ok r
  pub rows : (written call r s).1.rows ≡ s.rows
  pub events : (written call r s).1.events ≡ s.events
  pub coherent : IsCoherent (set_cache r (written call r s).1)

pub set_cache-secret :
    (r : Resource) (s : Server) → is_type_secret r.kind ≡ true → set_cache r s ≡ s
unfolding set_cache
set_cache-secret r s e = ground (arith, e)

pub written-Writes :
    (call : Call) (r : Resource) (s : Server)
    → call.db_get ≡ ok tt
    → check_get_options call (by_uid_only r.uid) ≡ true
    → first (has_uid r.uid) s.rows ≡ some r
    → (is_type_secret r.kind ≡ true → IsCoherent s)
    → (is_type_secret r.kind ≡ false → IsCoherent (set_cache r s))
    → Writes call r s
unfolding get_row
written-Writes call r s up valid there secret plain = elim (Bool-cases (is_type_secret r.kind)) [
  | inr pla ↦
      let same : (written call r s).1 ≡ s = ground (arith, pla) in
      record {
        reply = ground (arith, pla);
        rows = ground (arith, pla);
        events = ground (arith, pla);
        coherent = subst⁻¹ (λ (x : Server). IsCoherent (set_cache r x)) same (plain pla);
      }
  | inl sec ↦
      let reads =
        do_get-Reads call r.kind (by_uid_only r.uid) s up (secret sec)
          (ground (arith, there, str_eq_refl r.kind)) in
      let keys : first (λ x. x.kind == r.kind && has_uid r.uid x) s.rows ≡ some r =
        first_narrow (has_uid r.uid) (λ x. x.kind == r.kind && has_uid r.uid x) s.rows r
          (λ x q. ground (arith, q)) there
          (ground (arith, str_eq_refl r.kind, str_eq_refl r.uid)) in
      let back : get_row call r.kind (by_uid_only r.uid) s.rows ≡ ok r =
        ground (arith, valid, keys) in
      let back_at : (written call r s).1 ≡ (do_get call r.kind (by_uid_only r.uid) s).1 =
        ground (arith, sec) in
      record {
        reply = ground (arith, sec, reads.reply, back);
        rows = ground (arith, sec, reads.rows);
        events = ground (arith, sec, reads.events);
        coherent =
            subst⁻¹ IsCoherent (set_cache-secret r (written call r s).1 sec)
              (subst⁻¹ IsCoherent back_at reads.coherent);
      }
]
