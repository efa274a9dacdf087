-- ===== src/SecretManager/Service.antt =====
-- internal/secretmanager/service.go: the gRPC handlers over the store. An empty text stands for a
-- field that the request leaves out.
pub mod Codes
pub mod Examples
use blitzy_localgcp.Base.{
  ℕ, List, [], ◌∷◌, ◌++◌, Option, none, some, Str, bytes, str_eq, contains, split, join, Dict, ◌&&◌,
  if◌then◌else◌, Result, ok, err, ◌>>=◌, length,
}
use blitzy_localgcp.Base.Status.{
  Code, Status, invalid_argument, not_found, already_exists, failed_precondition, internal,
  unimplemented,
}
use blitzy_localgcp.SecretManager.Data.{SecretVersion, Secret, Store}
use blitzy_localgcp.SecretManager

-- The answer to a request, with the store after it.
abbrev pub Reply : Type 0 → Type 0
Reply A = Result Status A × Store

pub fail : Code → Str → Status
fail code message = record { code = code; message = message }

pub required : Str → Status
unfolding fail
required field = fail invalid_argument (field ++ bytes " is required")

pub bracketed : Str → Str → Str → Str
bracketed kind name rest = kind ++ bytes " [" ++ name ++ bytes "]" ++ rest

pub parse_secret_name : Str → Result Str (Str × Str)
parse_secret_name name = parse_parts (split b'/' name)
  where
    invalid : Result Str (Str × Str)
    invalid = err (bytes "invalid secret name: " ++ name)

    parse_parts : List Str → Result Str (Str × Str)
    parse_parts (a ∷ project ∷ b ∷ secret_id ∷ []) =
        if str_eq a (bytes "projects") && str_eq b (bytes "secrets")
        then ok (project, secret_id)
        else invalid
    parse_parts _ = invalid

pub invalid_version_name : Str → Str
invalid_version_name name = bytes "invalid version name: " ++ name

pub version_parts : Str → List Str → Result Str (Str × Str)
version_parts name (a ∷ project ∷ b ∷ secret_id ∷ c ∷ version_id ∷ []) =
    if str_eq a (bytes "projects") && str_eq b (bytes "secrets") && str_eq c (bytes "versions")
    then ok (join b'/' (a ∷ project ∷ b ∷ secret_id ∷ []), version_id)
    else err (invalid_version_name name)
version_parts name _ = err (invalid_version_name name)

pub parse_version_name : Str → Result Str (Str × Str)
unfolding version_parts
parse_version_name name = version_parts name (split b'/' name)

-- How a handler turns the text of an error of the store into a status.
pub missing : Str → Status → Status
unfolding fail
missing text otherwise = if contains text (bytes "not found") then otherwise else fail internal text

pub version_error : Str → Str → Str → Status
unfolding fail bracketed
version_error name reason text =
    if contains text (bytes "not found")
    then fail not_found (bracketed (bytes "SecretVersion") name (bytes " not found"))
    else if contains text (bytes "failed precondition")
    then fail failed_precondition (bracketed (bytes "SecretVersion") name reason)
    else fail internal text

pub secret_not_found : Str → Str → Status
unfolding fail bracketed missing
secret_not_found name text =
    missing text (fail not_found (bracketed (bytes "Secret") name (bytes " not found")))

pub version_not_found : Str → Str → Status
unfolding fail bracketed missing
version_not_found name text =
    missing text (fail not_found (bracketed (bytes "SecretVersion") name (bytes " not found")))

abbrev pub map_err {ℓ} : {A : Type ℓ} → (Str → Status) → Result Str A → Result Status A
map_err f (ok a) = ok a
map_err f (err e) = err (f e)

pub exists_error : Str → Str → Str → Status
unfolding fail
exists_error parent secret_id text =
    if contains text (bytes "already exists")
    then fail already_exists
        (bytes "Secret [" ++ parent ++ bytes "/secrets/" ++ secret_id ++ bytes "] already exists")
    else fail internal text

pub create_secret : Store → ℕ → Str → Str → Option (Dict Str) → Reply Secret
unfolding required exists_error
create_secret s now parent secret_id secret =
    let labels : Dict Str = elim secret [ none ↦ [] | some l ↦ l ] in
    let (r, s') = SecretManager.create_secret s now parent secret_id labels in
    if str_eq parent []
    then (err (required (bytes "parent")), s)
    else if str_eq secret_id []
    then (err (required (bytes "secret_id")), s)
    else (map_err (exists_error parent secret_id) r, s')

pub get_secret : Store → Str → Result Status Secret
unfolding required secret_not_found
get_secret s name =
    if str_eq name []
    then err (required (bytes "name"))
    else map_err (secret_not_found name) (SecretManager.get_secret s name)

-- The response has the secrets and their number.
pub list_secrets : Store → Str → Result Status (List Secret × ℕ)
unfolding required
list_secrets s parent =
    let secrets = SecretManager.list_secrets s parent in
    if str_eq parent [] then err (required (bytes "parent")) else ok (secrets, length secrets)

pub delete_secret : Store → Str → Reply (Unit {0})
unfolding required secret_not_found
delete_secret s name =
    let (r, s') = SecretManager.delete_secret s name in
    if str_eq name []
    then (err (required (bytes "name")), s)
    else (map_err (secret_not_found name) r, s')

pub add_secret_version : Store → ℕ → Str → Option (List ℕ) → Reply SecretVersion
unfolding required secret_not_found
add_secret_version s now parent payload =
    if str_eq parent [] then (err (required (bytes "parent")), s) else (elim payload [
      | none ↦ (err (required (bytes "payload")), s)
      | some p ↦
          let (r, s') = SecretManager.add_secret_version s now parent p in
          (map_err (secret_not_found parent) r, s')
    ])

-- The name of a version, taken apart; a name that is empty or not of that form is refused.
pub named_version : Str → Result Status (Str × Str)
unfolding required fail
named_version name =
    if str_eq name []
    then err (required (bytes "name"))
    else map_err (fail invalid_argument) (parse_version_name name)

pub get_secret_version : Store → Str → Result Status SecretVersion
unfolding named_version version_not_found
get_secret_version s name = do
  (secret_name, version_id) ← named_version name
  map_err (version_not_found name) (SecretManager.get_secret_version s secret_name version_id)

-- The response has the name of the version and the payload.
pub access_secret_version : Store → Str → Result Status (Str × Option (List ℕ))
unfolding named_version version_error
access_secret_version s name = do
  (secret_name, version_id) ← named_version name
  (version, payload) ←
      map_err (version_error name (bytes " is not enabled"))
        (SecretManager.access_secret_version s secret_name version_id)
  ok (version.name, payload)

pub list_secret_versions : Store → Str → Result Status (List SecretVersion × ℕ)
unfolding required secret_not_found
list_secret_versions s parent = if str_eq parent [] then err (required (bytes "parent")) else do
  versions ← map_err (secret_not_found parent) (SecretManager.list_secret_versions s parent)
  ok (versions, length versions)

-- A handler that writes to the version that the request names.
pub on_version :
    Store
    → Str
    → (Str → Str → Result Str SecretVersion × Store)
    → (Str → Status)
    → Reply SecretVersion
unfolding named_version
on_version s name write failed = elim (named_version name) [
  | err e ↦ (err e, s)
  | ok (secret_name, version_id) ↦
      let (r, s') = write secret_name version_id in (map_err failed r, s')
]

pub enable_secret_version : Store → Str → Reply SecretVersion
unfolding on_version version_error
enable_secret_version s name =
    on_version s name (SecretManager.enable_secret_version s)
      (version_error name (bytes " is destroyed and cannot be enabled"))

pub disable_secret_version : Store → Str → Reply SecretVersion
unfolding on_version version_error
disable_secret_version s name =
    on_version s name (SecretManager.disable_secret_version s)
      (version_error name (bytes " is destroyed and cannot be disabled"))

pub destroy_secret_version : Store → ℕ → Str → Reply SecretVersion
unfolding on_version version_not_found
destroy_secret_version s now name =
    on_version s name (SecretManager.destroy_secret_version s now) (version_not_found name)

pub update_secret : Store → Reply Secret
unfolding fail
update_secret s = (err (fail unimplemented (bytes "localgcp: UpdateSecret not yet supported")), s)
