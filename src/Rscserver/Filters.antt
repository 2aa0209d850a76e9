-- ===== src/Rscserver/Filters.antt =====
-- The filters of lists: `getListFilters` of cluster/rscserver/rscserver/types.go and the options of
-- cluster/common/urscsrv/urscsrv.go.
use Prim.Native.String.{◌++◌ as append}
use octelium.Base.{
  ℕ, String, Bool, true, false, not, Option, none, some, List, [], ◌∷◌, ◌++◌, nat_beq, ◌==◌,
  if◌then◌else◌,
}
use octelium.Base.Text.{split}

-- `structpb.Value`. Numbers are whole and not negative.
pub data Value : Type 0 where
  bool : Bool → Value
  number : ℕ → Value
  text : String → Value
  other : Value

pub data FilterOp : Type 0 where
  op_unset op_eq op_includes : FilterOp

-- `rmetav1.ListOptions_Filter`
pub record Filter : Type 0 where
  pub field : String
  pub op : FilterOp
  pub value : Value

-- A literal of SQL, compared with a value; tested; or one of several comparisons.
pub data Expression : Type 0 where
  eq_text : String → String → Expression
  eq_number : String → ℕ → Expression
  is_true : String → Expression
  is_not_true : String → Expression
  any_text : List (String × String) → Expression

infixr 6 ◌^^◌
abbrev ◌^^◌ : String → String → String
a ^^ b = append a b

-- The path to the field that holds the last key, and that key.
abbrev pub path : String → List String → String × String
path base [] = (base, "")
path base (k ∷ []) = (base, k)
path base (k ∷ (l ∷ ks)) = path (base ^^ "->'" ^^ k ^^ "'") (l ∷ ks)

abbrev value_at : String × String → String
value_at p = p.0 ^^ "->>'" ^^ p.1 ^^ "'"

abbrev has_key : String × String → String
has_key p = p.0 ^^ " ? '" ^^ p.1 ^^ "'"

abbrev number_at : String × String → String
number_at p = "(" ^^ value_at p ^^ ")::int"

abbrev includes : String × String → String → String
includes p s = p.0 ^^ "->'" ^^ p.1 ^^ "' ? '" ^^ s ^^ "'"

-- What one filter adds to the query. The fields of a zero value are not stored.
unfoldable pub get_filter : Filter → List Expression
get_filter f =
    let p = path "resource" (split b'.' f.field) in
    elim f.op [
      | op_eq ↦ elim f.value [
        | bool b ↦ (if b then eq_text (value_at p) "true" else is_not_true (has_key p)) ∷ []
        | number n ↦
            (if not (nat_beq n 0) then eq_number (number_at p) n else is_not_true (has_key p)) ∷ []
        | text s ↦ (if not (s == "") then eq_text (value_at p) s else is_not_true (has_key p)) ∷ []
        | other ↦ []
      ]
      | op_includes ↦ elim f.value [
        | text s ↦ if not (s == "") then is_true (includes p s) ∷ [] else []
        | bool b ↦ []
        | number n ↦ []
        | other ↦ []
      ]
      | op_unset ↦ []
    ]

unfoldable pub get_list_filters : List Filter → List Expression
get_list_filters [] = []
get_list_filters (f ∷ fs) = get_filter f ++ get_list_filters fs

abbrev pub filter_field_eq_val_str : String → String → Filter
filter_field_eq_val_str field val = record { field = field; op = op_eq; value = text val }

abbrev pub filter_status_user_uid : String → Filter
filter_status_user_uid uid = filter_field_eq_val_str "status.userRef.uid" uid

abbrev pub filter_field_boolean_false : String → Filter
filter_field_boolean_false field = record { field = field; op = op_eq; value = bool false }

abbrev pub filter_field_includes_val_str : String → String → Filter
filter_field_includes_val_str field val = record {
  field = field;
  op = op_includes;
  value = text val;
}

pub data OrderType : Type 0 where
  type_unset type_name type_created_at : OrderType

-- `ListOptions_OrderBy`, of both packages: the mode is DESC or not.
pub record OrderBy : Type 0 where
  pub type : OrderType
  pub desc : Bool

-- `rmetav1.ListOptions`. The maps of labels are lists of their entries.
pub record ListOptions : Type 0 where
  pub filters : List Filter
  pub spec_labels : List (String × String)
  pub spec_labels_ored : Option (List (String × String))
  pub system_labels : List (String × String)
  pub system_labels_ored : Option (List (String × String))
  pub paginate : Bool
  pub page : ℕ
  pub items_per_page : ℕ
  pub order_by : List OrderBy

-- `metav1.CommonListOptions`
pub record CommonListOptions : Type 0 where
  pub page : ℕ
  pub items_per_page : ℕ
  pub order_by : Option OrderBy

-- The order that a client asked for, unless it names no type.
abbrev pub order_of : Option OrderBy → List OrderBy
order_of none = []
order_of (some o) = elim o.type [ type_unset ↦ [] | type_name ↦ o ∷ [] | type_created_at ↦ o ∷ [] ]

abbrev pub do_get_public_list_options :
    ListOptions → Option CommonListOptions → List Filter → ListOptions
do_get_public_list_options parent none filters = record parent {
  filters = parent.filters ++ filters;
}
do_get_public_list_options parent (some c) filters = record parent {
  filters = parent.filters ++ filters;
  page = c.page;
  items_per_page = c.items_per_page;
  order_by = order_of c.order_by;
}

abbrev pub no_options : ListOptions
no_options = record {
  filters = [];
  spec_labels = [];
  spec_labels_ored = none;
  system_labels = [];
  system_labels_ored = none;
  paginate = false;
  page = 0;
  items_per_page = 0;
  order_by = [];
}

abbrev pub get_public_list_options : Option CommonListOptions → List Filter → ListOptions
get_public_list_options common filters =
    do_get_public_list_options
      (record no_options {
        paginate = true;
        filters = filter_field_boolean_false "metadata.isSystemHidden" ∷ [];
      })
      common filters

abbrev pub get_user_public_list_options : Option CommonListOptions → List Filter → ListOptions
get_user_public_list_options common filters =
    do_get_public_list_options
      (record no_options {
        paginate = true;
        filters =
            filter_field_boolean_false "metadata.isSystemHidden"
            ∷ filter_field_boolean_false "metadata.isUserHidden"
            ∷ [];
      })
      common filters
