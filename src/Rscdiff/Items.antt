-- ===== src/Rscdiff/Items.antt =====
-- client/common/rscdiff/diff.go: the items, and the difference of two lists of them.
use Prim.Native.String.{◌++◌ as append}
use octelium.Base.{
  String, Bool, true, false, not, ◌&&◌, Option, none, some, List, [], ◌∷◌, length, nat_beq, ◌==◌,
  if◌then◌else◌,
}
use octelium.Base.Text.{split}

-- A resource of the API. `details` are the display name, the labels, the description, the annotations
-- and the picture of its metadata, as one text, and `has_data` is `hasFieldData`.
pub record Item : Type 0 where
  pub kind : String
  pub name : String
  pub uid : String
  pub is_system : Bool
  pub details : String
  pub spec : String
  pub has_data : Bool

-- The API and the kind of a `diffCtl`.
pub record DiffCtl : Type 0 where
  pub api : String
  pub kind : String
  pub deletes : Bool

unfoldable pub get_full_name : DiffCtl → Item → String
get_full_name c itm =
    if c.api == "core" && itm.kind == "Service" && nat_beq (length (split b'.' itm.name)) 1
    then append itm.name ".default"
    else itm.name

-- `isEqual` and `getCmpMetadata`
abbrev pub is_equal : DiffCtl → Item → Item → Bool
is_equal c a b =
    get_full_name c a == get_full_name c b && a.details == b.details && a.spec == b.spec

-- The items of the kind, `NewDiffCtl`.
abbrev pub desired_of : String → List Item → List Item
desired_of kind [] = []
desired_of kind (x ∷ xs) =
    let rest = desired_of kind xs in if x.kind == kind then x ∷ rest else rest

abbrev pub same_name : DiffCtl → Item → Item → Bool
same_name c a b = get_full_name c a == get_full_name c b

abbrev pub is_item_in_list : DiffCtl → List Item → Item → Bool
is_item_in_list c [] cur = false
is_item_in_list c (x ∷ xs) cur =
    let rest = is_item_in_list c xs cur in if same_name c x cur then true else rest

abbrev pub get_in_list : DiffCtl → List Item → Item → Option Item
get_in_list c [] cur = none
get_in_list c (x ∷ xs) cur =
    let rest = get_in_list c xs cur in if same_name c x cur then some x else rest

abbrev pub get_diff_create : DiffCtl → List Item → List Item → List Item
get_diff_create c [] current = []
get_diff_create c (x ∷ xs) current =
    let rest = get_diff_create c xs current in
    if not (is_item_in_list c current x) then x ∷ rest else rest

abbrev pub get_diff_update : DiffCtl → List Item → List Item → List Item
get_diff_update c [] current = []
get_diff_update c (x ∷ xs) current =
    let rest = get_diff_update c xs current in
    elim (get_in_list c current x) [
      | none ↦ rest
      | some cur ↦
          if x.has_data then x ∷ rest else if not (is_equal c x cur) then x ∷ rest else rest
    ]

abbrev pub get_diff_delete : DiffCtl → List Item → List Item → List Item
get_diff_delete c desired [] = []
get_diff_delete c desired (x ∷ xs) =
    let rest = get_diff_delete c desired xs in
    if not (is_item_in_list c desired x) then x ∷ rest else rest
