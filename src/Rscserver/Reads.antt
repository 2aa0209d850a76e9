-- ===== src/Rscserver/Reads.antt =====
-- cluster/rscserver/rscserver/common.go: reads that go through the cache.
use mathlib.Core.Path.{subst⁻¹}
use octelium.Base.{
  String, ◌≡◌, ap, ◌∙◌, Bool, true, not, ◌||◌, none, some, List, [], ◌∷◌, ◌==◌, arith, inl, inr,
  Bool-cases, Option-cases, ok,
}
use octelium.Rscserver.Resources.{
  Resource, GetOptions, Call, Server, check_get_options, first, is_named, has_uid, is_asked,
  get_cache,
}
use octelium.Rscserver.Operations.{do_get}
use octelium.Rscserver.Table.{get_row}
use octelium.Rscserver.Rows.{first-keys, first-holds}
use octelium.Rscserver.Coherent.{IsCoherent, set_cache-same, set_cache-IsCoherent}

-- A request by UID asks for the kind that the resource of the UID has.
abbrev pub is_own : String → GetOptions → List Resource → Bool
is_own kind o rows =
    not (o.name == "")
    || (elim (first (has_uid o.uid) rows) [ none ↦ true | some r ↦ r.kind == kind ])

-- A narrower query finds what a wider one does, if that fits it.
pub first_narrow :
    (p q : Resource → Bool) (rows : List Resource) (r : Resource)
    → ((x : Resource) → q x ≡ true → p x ≡ true)
    → first p rows ≡ some r
    → q r ≡ true
    → first q rows ≡ some r
first_narrow p q [] r w e h = cc
first_narrow p q (x ∷ xs) r w e h = elim (Bool-cases (p x)) [
  | inl hit ↦
      let same : x ≡ r = ground (arith, e, hit) in
      let fits : q x ≡ true = ap q same ∙ h in ground (arith, fits, same)
  | inr miss ↦ ground (arith, miss, w x, first_narrow p q xs r w (ground (arith, e, miss)) h)
]

-- A read of the server: the reply is the table's, and all that changes is the cache.
pub record Reads (call : Call) (kind : String) (o : GetOptions) (s : Server) : Type 0 where
  pub reply : (do_get call kind o s).0 ≡ get_row call kind o s.rows
  pub rows : (do_get call kind o s).1.rows ≡ s.rows
  pub events : (do_get call kind o s).1.events ≡ s.events
  pub coherent : IsCoherent (do_get call kind o s).1

-- What the cache holds is the row that is asked for.
get_cache-first :
    (call : Call) (kind : String) (o : GetOptions) (s : Server) (r : Resource)
    → IsCoherent s
    → is_own kind o s.rows ≡ true
    → get_cache call kind o s ≡ some r
    → first (is_asked kind o) s.rows ≡ some r
get_cache-first call kind o s r h own e = elim (Bool-cases (o.name == "")) [
  | inr named ↦ elim (Option-cases (s.by_name kind o.name)) [
    | inl nothing ↦ ground (arith, e, named, nothing)
    | inr (x, cached) ↦
        let found = h.names kind o.name x cached in
        let holds = first-holds (is_named kind o.name) s.rows x found in
        let same : x ≡ r = ground (arith, e, named, cached, holds) in
        first_narrow (is_named kind o.name) (is_asked kind o) s.rows x
          (λ y q. ground (arith, q, named)) found (ground (arith, holds, named))
        ∙ ap some same
  ]
  | inl unnamed ↦ elim (Option-cases (s.by_uid o.uid)) [
    | inl nothing ↦ ground (arith, e, unnamed, nothing)
    | inr (x, cached) ↦
        let found = h.uids o.uid x cached in
        let holds = first-holds (has_uid o.uid) s.rows x found in
        let is_kind : (x.kind == kind) ≡ true = ground (arith, unnamed, own, found) in
        let same : x ≡ r = ground (arith, e, unnamed, cached, is_kind) in
        first_narrow (has_uid o.uid) (is_asked kind o) s.rows x (λ y q. ground (arith, q, unnamed))
          found (ground (arith, holds, unnamed, is_kind))
        ∙ ap some same
  ]
]

pub do_get-Reads :
    (call : Call) (kind : String) (o : GetOptions) (s : Server)
    → call.db_get ≡ ok tt
    → IsCoherent s
    → is_own kind o s.rows ≡ true
    → Reads call kind o s
unfolding do_get get_row
do_get-Reads call kind o s up h own = elim (Bool-cases (check_get_options call o)) [
  | inr bad ↦ record {
    reply = ground (arith, bad);
    rows = ground (arith, bad);
    events = ground (arith, bad);
    coherent = subst⁻¹ IsCoherent (ground (arith, bad)) h;
  }
  | inl good ↦ elim (Option-cases (get_cache call kind o s)) [
    | inr (r, e) ↦
        let found = get_cache-first call kind o s r h own e in
        record {
          reply = ground (arith, good, e, found);
          rows = ground (arith, good, e);
          events = ground (arith, good, e);
          coherent = subst⁻¹ IsCoherent (ground (arith, good, e)) h;
        }
    | inl e ↦ elim (Option-cases (first (is_asked kind o) s.rows)) [
      | inl none_there ↦ record {
        reply = ground (arith, good, e, up, none_there);
        rows = ground (arith, good, e, up, none_there);
        events = ground (arith, good, e, up, none_there);
        coherent = subst⁻¹ IsCoherent (ground (arith, good, e, up, none_there)) h;
      }
      | inr (r, found) ↦
          let keys = first-keys (is_asked kind o) s.rows r h.apart found in
          let same = set_cache-same r s in
          record {
            reply = ground (arith, good, e, up, found);
            rows = ground (arith, good, e, up, found, same.0);
            events = ground (arith, good, e, up, found, same.1);
            coherent =
                subst⁻¹ IsCoherent (ground (arith, good, e, up, found))
                  (set_cache-IsCoherent r s keys.0 keys.1 h);
          }
    ]
  ]
]
