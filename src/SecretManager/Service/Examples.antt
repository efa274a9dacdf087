-- ===== src/SecretManager/Service/Examples.antt =====
-- internal/secretmanager/service.go: names and a disabled version, for the theorems of the handlers.
use blitzy_localgcp.Base.{
  ◌≡◌, refl, [], ◌∷◌, none, some, Str, bytes, contains_byte, false, ok, err, str_eq, lookup,
}
use blitzy_localgcp.Base.Status.{failed_precondition}
use blitzy_localgcp.SecretManager.Data.{disabled, VersionData, Store}
use blitzy_localgcp.SecretManager.Versions.{version_name, secret_path, resolve_in, find_version}
use blitzy_localgcp.SecretManager.Service.{
  parse_version_name, access_secret_version, fail, bracketed,
}
use blitzy_localgcp.SecretManager.Service.Codes.{
  project_path, parse_version_name-version_name, access_disabled_code,
}
use blitzy_localgcp.SecretManager

no_slash_in : contains_byte b'/' (bytes "p1") ≡ false
unfolding contains_byte bytes
no_slash_in = refl

no_slash_number : contains_byte b'/' (bytes "2") ≡ false
unfolding contains_byte bytes
no_slash_number = refl

parse_version_name-version_name_example :
    parse_version_name
      (version_name (secret_path (project_path (bytes "p1")) (bytes "p1")) (bytes "2"))
    ≡ ok (secret_path (project_path (bytes "p1")) (bytes "p1"), bytes "2")
parse_version_name-version_name_example =
    parse_version_name-version_name (bytes "p1") (bytes "p1") (bytes "2") no_slash_in no_slash_in
      no_slash_number

abbrev the_secret : Str
the_secret = secret_path (project_path (bytes "p1")) (bytes "s1")

abbrev off_version : VersionData
off_version = record {
  version = record {
    name = version_name the_secret (bytes "1");
    create_time = 1;
    state = disabled;
    destroy_time = none;
  };
  payload = some (1 ∷ []);
}

abbrev off_store : Store
off_store = record {
  secrets =
      (
        the_secret,
        (record {
          secret = record { name = the_secret; create_time = 1; labels = [] };
          versions = off_version ∷ [];
          next_version = 2;
        }),
      )
      ∷ [];
  data_dir = [];
  disk = none;
}

off_resolved : SecretManager.resolve_version off_store the_secret (bytes "1") ≡ ok (0, off_version)
unfolding SecretManager.resolve_version resolve_in find_version lookup str_eq bytes version_name
    secret_path
off_resolved = refl

no_slash_secret : contains_byte b'/' (bytes "s1") ≡ false
unfolding contains_byte bytes
no_slash_secret = refl

no_slash_one : contains_byte b'/' (bytes "1") ≡ false
unfolding contains_byte bytes
no_slash_one = refl

no_space_in : contains_byte b' ' off_version.version.name ≡ false
unfolding contains_byte bytes version_name secret_path
no_space_in = refl

access_disabled_code_example :
    let name = version_name (secret_path (project_path (bytes "p1")) (bytes "s1")) (bytes "1") in
    access_secret_version off_store name
    ≡ err (
        fail failed_precondition (bracketed (bytes "SecretVersion") name (bytes " is not enabled")))
access_disabled_code_example =
    access_disabled_code off_store (bytes "p1") (bytes "s1") (bytes "1") 0 off_version no_slash_in
      no_slash_secret no_slash_one off_resolved refl no_space_in
