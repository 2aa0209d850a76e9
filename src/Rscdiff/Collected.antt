-- ===== src/Rscdiff/Collected.antt =====
-- client/common/rscdiff/diff.go, cluster/rscserver/rscserver/common.go: the items that are
-- collected from a Cluster.
use mathlib.Core.Path.{Path}
use octelium.Base.{
  ℕ, zero, suc, String, ◌+◌, ◌*◌, ◌^◌, ◌<◌, ◌≡◌, refl, ap, ◌∙◌, Bool, false, not, ◌&&◌, none, some,
  List, [], ◌∷◌, Result, ok, err, not_found, invalid_arg, length, take, drop, keep, ltb, map,
  if◌then◌else◌, arith, inl, inr,
}
use octelium.Rscserver.Resources.{Resource}
use octelium.Rscserver.Filters.{get_public_list_options, Filter}
use octelium.Rscserver.Pages.{Database, picked, conditions, do_list}
use octelium.Rscserver.Listed.{page_of, page_meta, do_list-page, do_list-far}
use octelium.Rscdiff.Items.{Item}
use octelium.Rscdiff.Current.{Listed, listed, is_users, set_current_items, page_request, list_rows}
use octelium.Rscdiff.Walked.{page_at, IsPaged, set_current_items-paged}

map-take :
    (f : Resource → Item) (n : ℕ) (rs : List Resource) → map f (take n rs) ≡ take n (map f rs)
map-take f zero rs = refl
map-take f (suc n) [] = refl
map-take f (suc n) (r ∷ rs) = ap (λ ys. f r ∷ ys) (map-take f n rs)

map-drop :
    (f : Resource → Item) (n : ℕ) (rs : List Resource) → map f (drop n rs) ≡ drop n (map f rs)
map-drop f zero rs = refl
map-drop f (suc n) [] = refl
map-drop f (suc n) (r ∷ rs) = map-drop f n rs

length-map : (f : Resource → Item) (rs : List Resource) → length (map f rs) ≡ length rs
length-map f [] = refl
length-map f (r ∷ rs) = ap suc (length-map f rs)

-- What the lists of the loop are about, whatever page they ask for.
abbrev pub public_rows : Database → String → List Filter → List Resource → List Resource
public_rows db kind filters rows = picked db (get_public_list_options none filters) kind rows

same_page :
    (k : ℕ) (items : List Item) (found : List Resource) (xs : List Item)
    → items ≡ take 200 (drop (k * 200) xs)
    → length xs ≡ length found
    → Path
        (Result Listed)
        (ok (record { items = items; has_more = some (ltb ((k + 1) * 200) (length found)) }))
        (ok (page_at k xs))
same_page k items found xs e n = ground (arith, e, n)

list_rows-IsPaged :
    (db : Database) (item_of : Resource → Item) (kind : String) (filters : List Filter)
    (rows : List Resource)
    → db.query ≡ ok tt
    → length (public_rows db kind filters rows) < 2 ^ 32
    → IsPaged
        (list_rows db item_of kind filters rows)
        (map item_of (public_rows db kind filters rows))
unfolding conditions
list_rows-IsPaged db item_of kind filters rows up small =
    let found = public_rows db kind filters rows in
    record {
      page = λ k near left.
          let p =
            do_list-page db (get_public_list_options (some (page_request k)) filters) kind rows refl
              near up small in
          let there : (ltb 0 k && not (ltb (k * 200) (length found))) ≡ false = elim left [
            | inl l ↦ ground (arith, l, length-map item_of found)
            | inr z ↦ ground (arith, z)
          ] in
          let got : do_list db (get_public_list_options (some (page_request k)) filters) kind rows
              ≡ ok (page_of k 200 found, page_meta k 200 found) =
            p
            ∙ ap
                (λ (b : Bool).
                  if b then err not_found else ok (page_of k 200 found, page_meta k 200 found))
                there in
          let items : map item_of (page_of k 200 found)
              ≡ take 200 (drop (k * 200) (map item_of found)) =
            map-take item_of 200 (drop (k * 200) found)
            ∙ ap (take 200) (map-drop item_of (k * 200) found) in
          ap (listed item_of) got
          ∙ same_page k (map item_of (page_of k 200 found)) found (map item_of found) items
              (length-map item_of found);
      last = ap (listed item_of) (
          do_list-far db (get_public_list_options (some (page_request 10001)) filters) kind rows
            refl (omega arith));
    }

-- Where the database answers and the list has fewer than 2^32 items, the loop that collects the
-- items of a Cluster ends on at most 10002 pages: it has exactly the items of the list that are not
-- the system's, in the order of the list, or it fails where the list has more than 2000200 items.
pub set_current_items_lem :
    (db : Database) (item_of : Resource → Item) (kind : String) (filters : List Filter)
    (rows : List Resource)
    → db.query ≡ ok tt
    → length (public_rows db kind filters rows) < 2 ^ 32
    → set_current_items (list_rows db item_of kind filters rows) 10002
      ≡ some (
          if ltb 2000200 (length (public_rows db kind filters rows))
          then err invalid_arg
          else ok (keep is_users (map item_of (public_rows db kind filters rows))))
set_current_items_lem db item_of kind filters rows up small =
    set_current_items-paged (list_rows db item_of kind filters rows)
      (map item_of (public_rows db kind filters rows))
      (list_rows-IsPaged db item_of kind filters rows up small)
    ∙ ap
        (λ n. some (
          if ltb 2000200 n
          then err invalid_arg
          else ok (keep is_users (map item_of (public_rows db kind filters rows)))))
        (length-map item_of (public_rows db kind filters rows))
