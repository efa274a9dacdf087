-- ===== src/SecretManager/Examples.antt =====
-- internal/secretmanager: a store with a destroyed and an enabled version, for the theorems of the
-- store.
use blitzy_localgcp.Base.{
  ◌+◌, false, ◌≡◌, refl, List, [], ◌∷◌, none, some, ok, err, Str, bytes, str_eq, lookup, insert,
  Everywhere-insert, Everywhere-nil, IsMap, map_option, format_int32, arith,
}
use blitzy_localgcp.Base.{get_elem?}
use blitzy_localgcp.SecretManager.Data.{enabled, destroyed, VersionData, SecretData, Store}
use blitzy_localgcp.SecretManager.Versions.{version_name, new_version, is_destroyed}
use blitzy_localgcp.SecretManager.Persistence.{persist, new_store}
use blitzy_localgcp.SecretManager.Persistence.RoundTrip.{IsSaveable, settled, new_store-persist}
use blitzy_localgcp.SecretManager.Calls.{add_version, enable, destroy, delete, Call, run}
use blitzy_localgcp.SecretManager.Invariant.{IsWellFormed}
use blitzy_localgcp.SecretManager.Preservation.{run-IsWellFormed}
use blitzy_localgcp.SecretManager.Destroyed.{IsDestroyed}
use blitzy_localgcp.SecretManager.Finality.{AllSpare, run-IsDestroyed, destroyed_refused}
use blitzy_localgcp.SecretManager.Access.{access-add_latest}
use blitzy_localgcp.SecretManager.{add_secret_version, access_secret_version, enable_secret_version}

abbrev the_name : Str
the_name = bytes "projects/p/secrets/s"

abbrev gone_version : VersionData
gone_version = record {
  version = record {
    name = version_name the_name (format_int32 1);
    create_time = 10;
    state = destroyed;
    destroy_time = some 30;
  };
  payload = none;
}

abbrev live_version : VersionData
live_version = record {
  version = record {
    name = version_name the_name (format_int32 2);
    create_time = 20;
    state = enabled;
    destroy_time = none;
  };
  payload = some (7 ∷ 255 ∷ []);
}

abbrev the_data : SecretData
the_data = record {
  secret = record { name = the_name; create_time = 5; labels = [] };
  versions = gone_version ∷ live_version ∷ [];
  next_version = 3;
}

abbrev the_store : Store
the_store = record { secrets = insert the_name the_data []; data_dir = bytes "/data"; disk = none }

the_store-IsWellFormed : IsWellFormed the_store
the_store-IsWellFormed =
    Everywhere-insert the_name the_data []
      (record { named = refl; next = omega arith; numbered = (refl, tt, (refl, tt, tt)) })
      Everywhere-nil

the_found : lookup the_name the_store.secrets ≡ some the_data
unfolding lookup insert str_eq bytes
the_found = refl

the_IsDestroyed : IsDestroyed the_name 0 the_store
the_IsDestroyed = record { data_of = the_data; found = the_found; gone = (refl, refl) }

-- Calls that try to bring the destroyed version back, and change other things.
abbrev the_calls : List Call
the_calls =
    enable the_name (bytes "1")
    ∷ add_version 40 the_name (1 ∷ [])
    ∷ destroy 50 the_name (bytes "2")
    ∷ delete (bytes "x")
    ∷ []

the_calls-AllSpare : AllSpare the_name the_calls
unfolding bytes
the_calls-AllSpare = (tt, (tt, (tt, ((λ e. cc e), tt))))

run-IsDestroyed_example : IsDestroyed the_name 0 (run the_store the_calls)
run-IsDestroyed_example =
    run-IsDestroyed the_store the_name 0 the_calls the_calls-AllSpare the_IsDestroyed

run-IsWellFormed_example : IsWellFormed (run the_store the_calls)
run-IsWellFormed_example = run-IsWellFormed the_store the_calls the_store-IsWellFormed

destroyed_refused_example :
    (vd : VersionData) × (get_elem? the_data.versions 0 ≡ some vd)
    × (access_secret_version the_store the_name (format_int32 (0 + 1))
        ≡ err (is_destroyed vd.version.name))
    × (enable_secret_version the_store the_name (format_int32 (0 + 1))
        ≡ (err (is_destroyed vd.version.name), the_store))
destroyed_refused_example =
    destroyed_refused the_store the_name 0 the_data the_store-IsWellFormed the_found (refl, refl)
      (omega arith)

access-add_latest_example :
    access_secret_version
      (add_secret_version the_store 60 the_name (9 ∷ [])).1
      the_name
      (bytes "latest")
    ≡ ok (new_version the_name 3 60, some (9 ∷ []))
access-add_latest_example = access-add_latest the_store 60 the_name (9 ∷ []) the_data the_found

the_dir : str_eq the_store.data_dir [] ≡ false
unfolding str_eq bytes
the_dir = refl

the_IsSaveable : IsSaveable the_store.secrets
unfolding insert
the_IsSaveable = (refl, (tt, ((omega arith, (omega arith, tt)), tt)), tt)

the_IsMap : IsMap the_store.secrets
unfolding insert lookup
the_IsMap = (refl, tt)

new_store-persist_example :
    lookup the_name (new_store the_store.data_dir (persist the_store).disk).secrets
    ≡ map_option settled (lookup the_name the_store.secrets)
new_store-persist_example = new_store-persist the_store the_name the_dir the_IsSaveable the_IsMap
