-- ===== src/Rscserver/Tests.antt =====
-- Runs of the resource server on concrete resources.
use octelium.Base.{
  ◌≡◌, refl, true, false, not, none, some, List, [], ◌∷◌, ◌==◌, String, ok, err, failed, not_found,
  already_exists, resource_changed, arith,
}
use octelium.Base.Text.{split, first_in, all_in, last_in, length_of}
use octelium.Rscserver.Resources.{
  Resource, GetOptions, Call, Server, update_rows, check_name, check_get_options, is_type_secret,
  is_key_name, set_cache, delete_cache, is_equal_message,
}
use octelium.Rscserver.Operations.{
  by_uid_only, do_get, do_create, do_update, do_delete, insert_row, change, restamped, stamped,
  last_stamped,
}
use octelium.Rscserver.Table.{create_row, update_row, delete_row, get_row}
use octelium.Rscserver.Coherent.{IsCoherent}
use octelium.Rscserver.Refined.{
  get, create, update, delete, Step, run, run_rows, are_fair, serve, Refines, run-Refines,
}
use octelium.Rscserver.Refused.{serve-fails}
use octelium.Rscserver.Watched.{rebuild, run-rebuild}
use octelium.Rscserver.Written.{do_create-get}
use octelium.Rscserver.Versions.{do_update_twice}
use octelium.Rscserver.Overtaken.{do_get_late, do_get_late-stale}

abbrev call : String → String → Call
call uid version = record {
  now = 7;
  new_uid = uid;
  new_version = version;
  actor_ref = "admin";
  actor_operation = "octelium.api.main.core.v1.MainService/CreateService";
  is_uuid = λ u. not (u == "");
  cache_up = true;
  decode = λ kind r. none;
  db_get = ok tt;
  db_exec = ok tt;
}

abbrev pub services : String
services = "core/v1/Service"

abbrev pub web : Resource
web = record {
  kind = services;
  name = "web.default";
  uid = "u-1";
  resource_version = "v-1";
  last_resource_version = "";
  created_at = 3;
  updated_at = 0;
  actor_ref = "";
  actor_operation = "";
  body = "{}";
}

abbrev pub api : Resource
api = record web { name = "api.default"; uid = "u-2" }

abbrev empty : Server
empty = record { rows = []; by_name = λ kind name. none; by_uid = λ uid. none; events = [] }

-- Cold: no key is in the cache yet.
abbrev cold : Server
cold = record empty { rows = web ∷ [] }

cold-IsCoherent : IsCoherent cold
cold-IsCoherent = record {
  apart = refl;
  names = λ kind name r e. ground (arith, e);
  uids = λ uid r e. ground (arith, e);
  plain_names = λ kind name r e. ground (arith, e);
  plain_uids = λ uid r e. ground (arith, e);
}

abbrev changed_web : Resource
changed_web = record web { body = "{\"port\": 8080}" }

abbrev steps : List Step
steps =
    record { call = call "u-2" "v-2"; op = create services api; lost = none }
    ∷ record { call = call "u-3" "v-3"; op = create services api; lost = none }
    ∷ record { call = call "u-4" "v-4"; op = update services changed_web; lost = some web }
    ∷ record { call = call "u-5" "v-5"; op = update services changed_web; lost = none }
    ∷ record {
      call = call "u-6" "v-6";
      op = get services (record { name = "web.default"; uid = "" });
      lost = none;
    }
    ∷ record {
      call = call "u-7" "v-7";
      op = delete services (record { name = ""; uid = "u-1" });
      lost = none;
    }
    ∷ record {
      call = call "u-8" "v-8";
      op = get services (record { name = "web.default"; uid = "" });
      lost = none;
    }
    ∷ []

abbrev restamped_web : Resource
restamped_web = restamped (call "u-4" "v-4") services changed_web

steps_answers :
    (run steps cold).0
    ≡ ok (stamped (call "u-2" "v-2") services api)
      ∷ err already_exists
      ∷ ok restamped_web
      ∷ err resource_changed
      ∷ ok restamped_web
      ∷ ok (last_stamped (call "u-7" "v-7") restamped_web)
      ∷ err not_found
      ∷ []
unfolding run do_get do_create do_update do_delete insert_row change check_get_options check_name
    is_type_secret split is_key_name first_in all_in last_in length_of set_cache is_equal_message
    delete_cache
steps_answers = refl

steps-are_fair : are_fair steps cold.rows ≡ true
unfolding are_fair create_row update_row delete_row get_row check_get_options check_name
    is_type_secret split is_key_name first_in all_in last_in length_of set_cache is_equal_message
steps-are_fair = refl

run-Refines_example : Refines (run steps cold) (run_rows steps cold.rows cold.events)
run-Refines_example = run-Refines steps cold steps-are_fair cold-IsCoherent

run-rebuild_example : rebuild (run steps cold).1.events cold.rows ≡ (run steps cold).1.rows
run-rebuild_example = run-rebuild steps cold steps-are_fair cold-IsCoherent refl

-- An update where the database fails after the read.
abbrev broken : Call
broken = record (call "u-4" "v-4") { db_exec = err (failed "read-only") }

broken_fails : (serve broken (update services changed_web) cold).0 ≡ err (failed "read-only")
unfolding do_get do_update change check_get_options check_name is_type_secret split is_key_name
    first_in all_in last_in length_of set_cache is_equal_message
broken_fails = refl

plain_services : is_type_secret services ≡ false
unfolding is_type_secret
plain_services = refl

serve-fails_example :
    ((serve broken (update services changed_web) cold).1.rows ≡ cold.rows)
    × ((serve broken (update services changed_web) cold).1.events ≡ cold.events)
serve-fails_example =
    serve-fails broken (update services changed_web) cold (failed "read-only") plain_services
      broken_fails

abbrev by_name : String → GetOptions
by_name name = record { name = name; uid = "" }

valid_uid : check_get_options (call "u-2" "v-2") (by_uid_only "u-2") ≡ true
unfolding check_get_options
valid_uid = refl

valid_name :
    (name : String)
    → (name == "") ≡ false
    → check_name name ≡ true
    → check_get_options (call "u-9" "v-9") (by_name name) ≡ true
unfolding check_get_options
valid_name name named good = ground (arith, named, good)

api_created :
    (do_create (call "u-2" "v-2") services api cold).0
    ≡ ok (stamped (call "u-2" "v-2") services api)
unfolding do_get do_create insert_row check_get_options check_name is_type_secret split is_key_name
    first_in all_in last_in length_of set_cache is_equal_message
api_created = refl

api_name : check_name "api.default" ≡ true
unfolding check_name split is_key_name first_in all_in last_in length_of
api_name = refl

web_name : check_name "web.default" ≡ true
unfolding check_name split is_key_name first_in all_in last_in length_of
web_name = refl

do_create-get_example :
    (do_get
      (call "u-9" "v-9")
      services
      (by_name "api.default")
      (do_create (call "u-2" "v-2") services api cold).1).0
    ≡ ok (stamped (call "u-2" "v-2") services api)
do_create-get_example =
    do_create-get (call "u-2" "v-2") (call "u-9" "v-9") services api
      (stamped (call "u-2" "v-2") services api) cold refl refl valid_uid refl cold-IsCoherent refl
      (valid_name "api.default" refl api_name) api_created

web_deleted :
    (do_delete (call "u-7" "v-7") services (by_name "web.default") cold).0
    ≡ ok (last_stamped (call "u-7" "v-7") web)
unfolding do_get do_delete check_get_options check_name is_type_secret split is_key_name first_in
    all_in last_in length_of set_cache is_equal_message
web_deleted = refl

valid_web : check_get_options (call "u-9" "v-9") (by_uid_only "u-1") ≡ true
unfolding check_get_options
valid_web = refl

web_updated : (do_update (call "u-4" "v-4") services changed_web cold).0 ≡ ok restamped_web
unfolding do_get do_update change check_get_options check_name is_type_secret split is_key_name
    first_in all_in last_in length_of set_cache is_equal_message
web_updated = refl

-- Another change of the version `v-1`.
abbrev other_web : Resource
other_web = record web { body = "{\"port\": 9090}" }

do_update_twice_example :
    ((do_update
        (call "u-9" "v-9")
        services
        other_web
        (do_update (call "u-4" "v-4") services changed_web cold).1).0
      ≡ err resource_changed)
    × ((do_update
          (call "u-9" "v-9")
          services
          other_web
          (do_update (call "u-4" "v-4") services changed_web cold).1).1.rows
        ≡ update_rows restamped_web cold.rows)
do_update_twice_example =
    do_update_twice (call "u-4" "v-4") (call "u-9" "v-9") services changed_web other_web cold refl
      refl refl valid_web refl refl cold-IsCoherent refl web_updated refl refl

cold_miss : check_get_options (call "u-9" "v-9") (by_name "web.default") ≡ true
cold_miss = valid_name "web.default" refl web_name

-- A read of `web` that its update overtakes.
do_get_late-stale_example :
    (do_get
      (call "u-9" "v-9")
      services
      (by_name "web.default")
      (do_get_late
        (call "u-9" "v-9")
        services
        (by_name "web.default")
        (λ s. (do_update (call "u-4" "v-4") services changed_web s).1)
        cold).1).0
    ≡ ok web
unfolding is_type_secret
do_get_late-stale_example =
    do_get_late-stale (call "u-9" "v-9") (call "u-9" "v-9") services (by_name "web.default")
      (λ s. (do_update (call "u-4" "v-4") services changed_web s).1) cold web refl cold_miss refl
      refl refl refl cold_miss
