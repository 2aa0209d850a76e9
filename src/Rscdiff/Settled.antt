-- ===== src/Rscdiff/Settled.antt =====
-- client/common/rscdiff/diff.go: when a run has nothing to do.
use octelium.Base.{
  String, ◌≡◌, refl, Bool, true, false, not, ◌&&◌, none, some, List, [], ◌∷◌, all, any, is_empty,
  arith, ◌==◌, eq_iff, Option-cases, Bool-cases, inl, inr,
}
use octelium.Rscdiff.Items.{
  Item, DiffCtl, get_full_name, same_name, is_equal, is_item_in_list, get_in_list, get_diff_create,
  get_diff_update, get_diff_delete,
}
use octelium.Rscdiff.Applied.{is_item_in_list-get}

abbrev pub has_name : DiffCtl → String → Item → Bool
has_name c n y = get_full_name c y == n

-- No two items have one full name.
abbrev pub names_once : DiffCtl → List Item → Bool
names_once c [] = true
names_once c (y ∷ ys) = not (any (has_name c (get_full_name c y)) ys) && names_once c ys

-- The item of the Cluster has the desired one's full name, the same details of its metadata and the
-- same spec, and the desired one has no data. Secret data cannot be compared.
abbrev pub is_settled : DiffCtl → Item → Item → Bool
is_settled c x y =
    get_full_name c y == get_full_name c x
    && not x.has_data
    && x.details == y.details
    && x.spec == y.spec

others_differ :
    (c : DiffCtl) (x : Item) (n : String) (ys : List Item)
    → n ≡ get_full_name c x
    → any (has_name c n) ys ≡ false
    → any (is_settled c x) ys ≡ false
others_differ c x n [] e h = refl
others_differ c x n (y ∷ ys) e h = ground (arith, e, h, others_differ c x n ys e)

-- What is compared is the first item of the name, and there is no other.
compared-settled :
    (c : DiffCtl) (x : Item) (ys : List Item)
    → names_once c ys ≡ true
    → (elim (get_in_list c ys x) [ none ↦ false | some y ↦ not x.has_data && is_equal c x y ])
      ≡ any (is_settled c x) ys
compared-settled c x [] h = refl
compared-settled c x (y ∷ ys) h = elim (Bool-cases (same_name c y x)) [
  | inl hit ↦
      let same : get_full_name c y ≡ get_full_name c x = (eq_iff _ _).0 hit in
      ground (
        arith,
        hit,
        others_differ c x (get_full_name c y) ys same (ground (arith, h)),
        eq_iff (get_full_name c x) (get_full_name c y),
        same,
      )
  | inr miss ↦ ground (arith, miss, compared-settled c x ys (ground (arith, h)))
]

not_in_list :
    (c : DiffCtl) (xs : List Item) (cur : Item)
    → get_in_list c xs cur ≡ none
    → is_item_in_list c xs cur ≡ false
not_in_list c [] cur e = refl
not_in_list c (x ∷ xs) cur e = ground (arith, e, not_in_list c xs cur)

written_down :
    (c : DiffCtl) (desired current : List Item)
    → names_once c current ≡ true
    → (is_empty (get_diff_create c desired current) && is_empty (get_diff_update c desired current))
      ≡ all (λ x. any (is_settled c x) current) desired
written_down c [] current h = refl
written_down c (x ∷ xs) current h = elim (Option-cases (get_in_list c current x)) [
  | inl nothing ↦
      ground (arith, nothing, not_in_list c current x nothing, compared-settled c x current h)
  | inr (y, found) ↦ ground (
    arith,
    found,
    is_item_in_list-get c current x y found,
    compared-settled c x current h,
    written_down c xs current h,
  )
]

is_item_in_list-any :
    (c : DiffCtl) (xs : List Item) (cur : Item)
    → is_item_in_list c xs cur ≡ any (has_name c (get_full_name c cur)) xs
is_item_in_list-any c [] cur = refl
is_item_in_list-any c (x ∷ xs) cur = ground (arith, is_item_in_list-any c xs cur)

nothing_else :
    (c : DiffCtl) (desired current : List Item)
    → is_empty (get_diff_delete c desired current)
      ≡ all (λ y. any (has_name c (get_full_name c y)) desired) current
nothing_else c desired [] = refl
nothing_else c desired (x ∷ xs) =
    ground (arith, is_item_in_list-any c desired x, nothing_else c desired xs)

-- Where no two items of the Cluster have one full name, a run has nothing to create, update or delete
-- exactly when every desired item has no data of its own and some item of the Cluster has its full
-- name, its details and its spec, and every item of the Cluster has the full name of a desired one.
pub nothing_to_do :
    (c : DiffCtl) (desired current : List Item)
    → names_once c current ≡ true
    → (is_empty (get_diff_create c desired current)
        && is_empty (get_diff_update c desired current)
        && is_empty (get_diff_delete c desired current))
      ≡ (all (λ x. any (is_settled c x) current) desired
          && all (λ y. any (has_name c (get_full_name c y)) desired) current)
nothing_to_do c desired current h =
    ground (arith, written_down c desired current h, nothing_else c desired current)
