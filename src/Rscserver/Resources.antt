-- ===== src/Rscserver/Resources.antt =====
-- cluster/rscserver/rscserver/common.go: resources, requests and their checks, the database and the
-- cache.
use Prim.Native.String.{len}
use octelium.Base.{
  ℕ, String, Bool, true, false, not, ◌&&◌, ◌||◌, Option, none, some, List, [], ◌∷◌, all, Result,
  length, leb, nat_beq, ◌==◌, if◌then◌else◌,
}
use octelium.Base.Text.{is_alnum, split, all_in, first_in, last_in, length_of}

-- A resource: `kind` is its API, version and kind as one text, and `body` all that the server only
-- carries, as JSON.
pub record Resource : Type 0 where
  pub kind : String
  pub name : String
  pub uid : String
  pub resource_version : String
  pub last_resource_version : String
  pub created_at : ℕ
  pub updated_at : ℕ
  pub actor_ref : String
  pub actor_operation : String
  pub body : String

-- `rmetav1.GetOptions` and `DeleteOptions`
pub record GetOptions : Type 0 where
  pub name : String
  pub uid : String

-- What one call finds around it: the clock, the new UID and version, the actor, govalidator's test of
-- a UUID, whether the cache is asked (it is not in tests, nor where Redis fails), what the bytes of a
-- cached resource decode to as a resource of another kind, and whether the database answers reads and
-- writes.
pub record Call : Type 0 where
  pub now : ℕ
  pub new_uid : String
  pub new_version : String
  pub actor_ref : String
  pub actor_operation : String
  pub is_uuid : String → Bool
  pub cache_up : Bool
  pub decode : String → Resource → Option Resource
  pub db_get : Result (Unit {0})
  pub db_exec : Result (Unit {0})

pub data Event : Type 0 where
  created : Resource → Event
  updated : Resource → Resource → Event
  deleted : Resource → Event

-- The rows of the database, the oldest first; the cache, whose keys are a kind with a name, or a UID;
-- and the events that were published, the last first.
pub record Server : Type 0 where
  pub rows : List Resource
  pub by_name : String → String → Option Resource
  pub by_uid : String → Option Resource
  pub events : List Event

-- `[a-z0-9-:]`
abbrev is_key_char : ℕ → Bool
is_key_char c = is_alnum c || nat_beq c b'-' || nat_beq c b':'

-- `^[a-z0-9][a-z0-9-:]{0,52}[a-z0-9]$`
unfoldable pub is_key_name : String → Bool
is_key_name s =
    first_in is_alnum s
    && all_in is_key_char s
    && last_in is_alnum s
    && leb 2 (length_of s)
    && leb (length_of s) 54

-- `vutils.MaxNameSubArgs`
abbrev pub max_name_sub_args : ℕ
max_name_sub_args = 7

unfoldable pub check_name : String → Bool
check_name arg =
    leb 2 (len arg)
    && leb (len arg) 140
    && leb (length (split b'.' arg)) max_name_sub_args
    && all is_key_name (split b'.' arg)

unfoldable pub check_get_options : Call → GetOptions → Bool
check_get_options call o =
    not (o.name == "" && o.uid == "")
    && (o.name == "" || check_name o.name)
    && (o.uid == "" || call.is_uuid o.uid)

-- `strings.HasSuffix(kind, "Secret")`
unfoldable pub is_type_secret : String → Bool
is_type_secret String.[] = false
is_type_secret (String.◌∷◌ c s) =
    let rest = is_type_secret s in if String.◌∷◌ c s == "Secret" then true else rest

-- The first row that a query of the database picks.
abbrev pub first : (Resource → Bool) → List Resource → Option Resource
first p [] = none
first p (r ∷ rs) = let rest = first p rs in if p r then some r else rest

abbrev pub is_named : String → String → Resource → Bool
is_named kind name r = r.kind == kind && r.name == name

abbrev pub has_uid : String → Resource → Bool
has_uid uid r = r.uid == uid

-- The filters of `doGet`.
abbrev pub is_asked : String → GetOptions → Resource → Bool
is_asked kind o r =
    if not (o.name == "") then is_named kind o.name r else r.kind == kind && has_uid o.uid r

-- The update and the deletion of rows by UID. The column of the kind stays.
abbrev pub update_rows : Resource → List Resource → List Resource
update_rows new [] = []
update_rows new (r ∷ rs) =
    (if has_uid new.uid r then record new { kind = r.kind } else r) ∷ update_rows new rs

abbrev pub delete_rows : String → List Resource → List Resource
delete_rows uid [] = []
delete_rows uid (r ∷ rs) = let rest = delete_rows uid rs in if has_uid uid r then rest else r ∷ rest

-- The cached bytes, decoded as a resource of the kind.
abbrev pub decoded : Call → String → Option Resource → Option Resource
decoded call kind none = none
decoded call kind (some r) = if r.kind == kind then some r else call.decode kind r

-- `doGetCache`: by the name where there is one.
abbrev pub get_cache : Call → String → GetOptions → Server → Option Resource
get_cache call kind o s =
    if not call.cache_up || is_type_secret kind
    then none
    else if not (o.name == "")
    then decoded call kind (s.by_name kind o.name)
    else decoded call kind (s.by_uid o.uid)

-- `doSetCache` and `doDeleteCache`: under the name and under the UID. Redis does as it is told.
unfoldable pub set_cache : Resource → Server → Server
set_cache r s = if is_type_secret r.kind then s else record s {
  by_name = λ kind name. if is_named kind name r then some r else s.by_name kind name;
  by_uid = λ uid. if has_uid uid r then some r else s.by_uid uid;
}

unfoldable pub delete_cache : Resource → Server → Server
delete_cache r s = record s {
  by_name = λ kind name. if is_named kind name r then none else s.by_name kind name;
  by_uid = λ uid. if has_uid uid r then none else s.by_uid uid;
}

abbrev pub publish : Event → Server → Server
publish e s = record s { events = e ∷ s.events }

-- `pbutils.IsEqual` of two resources.
unfoldable pub is_equal_message : Resource → Resource → Bool
is_equal_message a b =
    a.kind == b.kind
    && a.name == b.name
    && a.uid == b.uid
    && a.resource_version == b.resource_version
    && a.last_resource_version == b.last_resource_version
    && nat_beq a.created_at b.created_at
    && nat_beq a.updated_at b.updated_at
    && a.actor_ref == b.actor_ref
    && a.actor_operation == b.actor_operation
    && a.body == b.body
