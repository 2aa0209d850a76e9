-- ===== src/Celengine/Programs.antt =====
-- The compiled programs that `getOrSetProg` of cluster/common/celengine/celengine.go keeps in
-- go-cache under a key of their source.
use octelium.Base.{
  ℕ, zero, suc, String, len, ◌≡◌, refl, sym, ap, ◌∙◌, Bool, true, not, ◌||◌, all, all-weaken,
  is_in_list, map, str_eq_refl, Option, none, some, List, [], ◌∷◌, Result, ok, err, failed, ltb,
  arith, ◌==◌, eq_iff, if◌then◌else◌, inl, inr, Bool-cases, Result-cases, Option-cases,
}

abbrev first_chars : ℕ → String → String
first_chars zero s = String.[]
first_chars (suc n) String.[] = String.[]
first_chars (suc n) (String.◌∷◌ c s) = String.◌∷◌ c (first_chars n s)

-- A call for a source, or the expiry of a key.
pub data Use : Type 0 where
  asked expired : String → Use

abbrev pub sources : List Use → List String
sources [] = []
sources (asked exp ∷ es) = let rest = sources es in exp ∷ rest
sources (expired k ∷ es) = sources es

-- `sum` is the SHA-256 sum in hexadecimal, of which `getKey` takes 24 bytes, and `compile` stands for
-- cel-go's `Compile` and `Program`.
module _ {P : Type 0} (sum : String → String) (compile : String → Result P) where
  abbrev pub ProgCache : Type 0
  ProgCache = List (String × P)

  unfoldable pub get_key : String → String
  get_key script = first_chars 48 (sum script)

  unfoldable pub get : ProgCache → String → Option P
  get [] k = none
  get ((j, v) ∷ m) k = let rest = get m k in if j == k then some v else rest

  unfoldable pub set : ProgCache → String → P → ProgCache
  set m k v = (k, v) ∷ m

  unfoldable pub get_or_set_prog : ProgCache → String → Result P × ProgCache
  unfolding get_key get set
  get_or_set_prog m exp =
      if ltb 10000 (len exp)
      then (err (failed "Expression is too long"), m)
      else elim (get m (get_key exp)) [
        | some prg ↦ (ok prg, m)
        | none ↦ elim (compile exp) [
          | ok prg ↦ (ok prg, set m (get_key exp) prg)
          | err e ↦ (err e, m)
        ]
      ]

  -- What the call would answer with no cache.
  abbrev pub fresh_prog : String → Result P
  fresh_prog exp =
      if ltb 10000 (len exp) then err (failed "Expression is too long") else compile exp

  -- go-cache drops a key when it expires.
  abbrev pub expire : ProgCache → String → ProgCache
  expire [] k = []
  expire ((j, v) ∷ m) k = let rest = expire m k in if j == k then rest else (j, v) ∷ rest

  -- What the calls answer, in their order.
  unfoldable pub answers : ProgCache → List Use → List (Result P)
  answers m [] = []
  answers m (asked exp ∷ es) = (get_or_set_prog m exp).0 ∷ answers (get_or_set_prog m exp).1 es
  answers m (expired k ∷ es) = answers (expire m k) es

  -- No two different sources of the list have one key.
  abbrev pub no_collision : List String → Bool
  no_collision exps = all (λ s. all (λ t. not (get_key s == get_key t) || s == t) exps) exps

  -- Each program under the key of a source of the list is what that source compiles to.
  abbrev IsCoherent : List String → ProgCache → Type 0
  IsCoherent exps m =
      (exp : String) (prg : P)
      → is_in_list exps exp ≡ true
      → get m (get_key exp) ≡ some prg
      → compile exp ≡ ok prg

  all_at :
      (f : String → Bool) (xs : List String) (x : String)
      → all f xs ≡ true
      → is_in_list xs x ≡ true
      → f x ≡ true
  all_at f [] x h i = cc
  all_at f (y ∷ ys) x h i = elim (Bool-cases (y == x)) [
    | inl hit ↦ ap f (sym ((eq_iff y x).0 hit)) ∙ ground (arith, h)
    | inr miss ↦ all_at f ys x (ground (arith, h)) (ground (arith, i, miss, eq_iff x y, eq_iff y x))
  ]

  all_in_itself : (xs : List String) → all (is_in_list xs) xs ≡ true
  all_in_itself [] = refl
  all_in_itself (x ∷ xs) = ground (
    arith,
    str_eq_refl x,
    all-weaken (is_in_list xs) (is_in_list (x ∷ xs)) xs (λ y h. ground (arith, h))
        (all_in_itself xs),
  )

  one_source :
      (exps : List String) (s t : String)
      → no_collision exps ≡ true
      → is_in_list exps s ≡ true
      → is_in_list exps t ≡ true
      → get_key s ≡ get_key t
      → s ≡ t
  one_source exps s t n i j h =
      let at = all_at (λ x. all (λ y. not (get_key x == get_key y) || x == y) exps) exps s n i in
      let both = all_at (λ y. not (get_key s == get_key y) || s == y) exps t at j in
      (eq_iff s t).0 (ground (arith, both, (eq_iff (get_key s) (get_key t)).1 h))

  set-IsCoherent :
      (exps : List String) (m : ProgCache) (exp : String) (prg : P)
      → no_collision exps ≡ true
      → is_in_list exps exp ≡ true
      → IsCoherent exps m
      → compile exp ≡ ok prg
      → IsCoherent exps (set m (get_key exp) prg)
  unfolding get set
  set-IsCoherent exps m exp prg n i c e s prg' j h = elim (Bool-cases (get_key exp == get_key s)) [
    | inl hit ↦
        let same : exp ≡ s = one_source exps exp s n i j ((eq_iff _ _).0 hit) in
        ground (arith, same, hit, h, e)
    | inr miss ↦ c s prg' j (ground (arith, miss, h))
  ]

  get-expire :
      (m : ProgCache) (k j : String) → get (expire m k) j ≡ (if k == j then none else get m j)
  unfolding get
  get-expire [] k j = ground arith
  get-expire ((i, v) ∷ m) k j = ground (arith, get-expire m k j, eq_iff i k, eq_iff i j, eq_iff k j)

  get_or_set_prog-IsCoherent :
      (exps : List String) (m : ProgCache) (exp : String)
      → no_collision exps ≡ true
      → is_in_list exps exp ≡ true
      → IsCoherent exps m
      → ((get_or_set_prog m exp).0 ≡ fresh_prog exp) × IsCoherent exps (get_or_set_prog m exp).1
  unfolding get_or_set_prog
  get_or_set_prog-IsCoherent exps m exp n i c = elim (Option-cases (get m (get_key exp))) [
    | inl missing ↦ elim (Result-cases (compile exp)) [
      | inl (prg, e) ↦ (
        ground (arith, missing, e),
        elim (Bool-cases (ltb 10000 (len exp))) [
          | inl long ↦ rw (long, get_or_set_prog) c
          | inr fits ↦
              rw (fits, missing, e, get_or_set_prog) (set-IsCoherent exps m exp prg n i c e)
        ],
      )
      | inr (x, e) ↦
          (ground (arith, missing, e), λ s prg j h. c s prg j (ground (arith, missing, e)))
    ]
    | inr (prg, found) ↦
        (ground (arith, found, c exp prg i found), λ s prg' j h. c s prg' j (ground (arith, found)))
  ]

  answers-fresh :
      (exps : List String) (m : ProgCache) (es : List Use)
      → no_collision exps ≡ true
      → all (is_in_list exps) (sources es) ≡ true
      → IsCoherent exps m
      → answers m es ≡ map fresh_prog (sources es)
  unfolding answers
  answers-fresh exps m [] n i c = refl
  answers-fresh exps m (asked exp ∷ es) n i c =
      let at = get_or_set_prog-IsCoherent exps m exp n (ground (arith, i)) c in
      rw (at.0, answers-fresh exps (get_or_set_prog m exp).1 es n (ground (arith, i)) at.1) refl
  answers-fresh exps m (expired k ∷ es) n i c =
      answers-fresh exps (expire m k) es n i
        (λ s prg j h. c s prg j (ground (arith, h, get-expire m k (get_key s))))

  -- From an empty cache, whatever keys expire between the calls, each call answers what a compilation
  -- of its source would, if no two different sources of the calls have one key.
  pub get_or_set_prog_lem :
      (es : List Use)
      → no_collision (sources es) ≡ true
      → answers [] es ≡ map fresh_prog (sources es)
  get_or_set_prog_lem es n =
      answers-fresh (sources es) [] es n (all_in_itself (sources es))
        (unfold get in λ s prg j h. cc)
