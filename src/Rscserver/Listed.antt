-- ===== src/Rscserver/Listed.antt =====
-- `doList` of cluster/rscserver/rscserver/common.go: the pages that it answers.
use octelium.Base.{
  ℕ, zero, suc, String, ◌+◌, ◌*◌, ◌%◌, ◌^◌, ◌≤◌, ◌<◌, ◌≡◌, refl, ap, ◌∙◌, true, false, not, ◌&&◌,
  List, [], ◌∷◌, ok, err, not_found, invalid_arg, length, take, drop, is_empty, ltb, nat_beq,
  if◌then◌else◌, arith, inl, inr, Bool-cases, length-drop,
}
use octelium.Rscserver.Resources.{Resource}
use octelium.Rscserver.Filters.{ListOptions}
use octelium.Rscserver.Pages.{Database, ListMeta, limit_of, picked, window, do_list}

mul_mono : (a b c : ℕ) → a ≤ b → a * c ≤ b * c
mul_mono zero b c h = omega arith
mul_mono (suc a) zero c h = omega (arith, h)
mul_mono (suc a) (suc b) c h = omega (arith, mul_mono a b c (omega (arith, h)))

pub limit_bounds : (n : ℕ) → (1 ≤ limit_of n) × (limit_of n ≤ 1000)
limit_bounds n = (ground arith, ground arith)

-- The page `k` of what the query is about.
abbrev pub page_of : ℕ → ℕ → List Resource → List Resource
page_of k l found = take l (drop (k * l) found)

is_empty-take : (l : ℕ) (xs : List Resource) → 1 ≤ l → is_empty (take l xs) ≡ is_empty xs
is_empty-take zero xs h = let bad : ⊥ = omega (arith, h) in elim bad [ ]
is_empty-take (suc l) [] h = refl
is_empty-take (suc l) (x ∷ xs) h = refl

is_empty-length : (xs : List Resource) → is_empty xs ≡ nat_beq (length xs) 0
is_empty-length [] = refl
is_empty-length (x ∷ xs) = ground arith

-- A page is empty where the pages before it have all.
pub is_empty-page_of :
    (k l : ℕ) (found : List Resource)
    → 1 ≤ l
    → is_empty (page_of k l found) ≡ not (ltb (k * l) (length found))
is_empty-page_of k l found h =
    is_empty-take l (drop (k * l) found) h
    ∙ is_empty-length (drop (k * l) found)
    ∙ ground (arith, length-drop (k * l) found)

abbrev pub page_meta : ℕ → ℕ → List Resource → ListMeta
page_meta k l found = record {
  page = k;
  items_per_page = l;
  total_count = length found;
  has_more = ltb ((k + 1) * l) (length found);
}

-- Where the database answers, a list of fewer than 2^32 items that is asked for by pages, up to the
-- number 10000, answers the page of that number, says that there is more exactly when the next page
-- has items, and finds nothing beyond the last page, but for the first page, which may be empty. A
-- page has at most 1000 items, and 200 where the request names no number.
pub do_list-page :
    (db : Database) (req : ListOptions) (kind : String) (rows : List Resource)
    → req.paginate ≡ true
    → req.page ≤ 10000
    → db.query ≡ ok tt
    → length (picked db req kind rows) < 2 ^ 32
    → do_list db req kind rows ≡ (
        if ltb 0 req.page
          && not (ltb (req.page * limit_of req.items_per_page) (length (picked db req kind rows)))
        then err not_found
        else ok (
          page_of req.page (limit_of req.items_per_page) (picked db req kind rows),
          page_meta req.page (limit_of req.items_per_page) (picked db req kind rows),
        ))
unfolding do_list
do_list-page db req kind rows p k up small =
    let l = limit_of req.items_per_page in
    let found = picked db req kind rows in
    let m = mul_mono req.page 10000 l k in
    let b = limit_bounds req.items_per_page in
    let offset : (req.page * l) % 2 ^ 32 ≡ req.page * l = omega (arith, m, b.1) in
    let next : ((req.page + 1) * l) % 2 ^ 32 ≡ (req.page + 1) * l = omega (arith, m, b.1) in
    let count : length found % 2 ^ 32 ≡ length found = omega (arith, small) in
    let few : ltb 10000 req.page ≡ false = ground (arith, k) in
    let w : window req found ≡ page_of req.page l found =
      ground (arith, p) ∙ ap (λ o. take l (drop o found)) offset in
    let e : is_empty (window req found) ≡ not (ltb (req.page * l) (length found)) =
      ap is_empty w ∙ is_empty-page_of req.page l found b.0 in
    let none_first : ltb 0 req.page ≡ false
        → ltb (req.page * l) (length found) ≡ false
        → length found ≡ 0 =
      λ z n.
        let first_page : req.page ≡ 0 = ground (arith, z) in
        let start : req.page * l ≡ 0 = ap (λ j. j * l) first_page ∙ omega arith in
        ground (arith, n, start) in
    elim (Bool-cases (ltb 0 req.page)) [
      | inl later ↦ elim (Bool-cases (ltb (req.page * l) (length found))) [
        | inl some_left ↦ ground (arith, p, up, few, later, some_left, e, w, count, next)
        | inr none_left ↦ ground (arith, p, up, few, later, none_left, e)
      ]
      | inr at_first ↦ elim (Bool-cases (ltb (req.page * l) (length found))) [
        | inl some_left ↦ ground (arith, p, up, few, at_first, some_left, e, w, count, next)
        | inr none_left ↦ ground (
          arith,
          p,
          up,
          few,
          at_first,
          none_left,
          e,
          w,
          count,
          next,
          none_first at_first none_left,
        )
      ]
    ]

-- Pages beyond the number 10000 are refused.
pub do_list-far :
    (db : Database) (req : ListOptions) (kind : String) (rows : List Resource)
    → req.paginate ≡ true
    → 10000 < req.page
    → do_list db req kind rows ≡ err invalid_arg
unfolding do_list
do_list-far db req kind rows p k = ground (arith, p, k)
