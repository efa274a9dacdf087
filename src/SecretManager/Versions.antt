-- ===== src/SecretManager/Versions.antt =====
-- internal/secretmanager/store.go: names, error texts, and the slice of versions of one secret.
use blitzy_localgcp.Base.{
  ℕ, zero, suc, ◌+◌, ◌^◌, ◌%◌, List, [], ◌∷◌, ◌++◌, Option, none, some, Str, bytes, str_eq,
  if◌then◌else◌, Result, ok, err, format_int32,
}
use blitzy_localgcp.SecretManager.Data.{
  VersionState, enabled, disabled, destroyed, SecretVersion, VersionData, SecretData,
}

unfoldable pub version_name : Str → Str → Str
version_name secret_name version_id = secret_name ++ bytes "/versions/" ++ version_id

unfoldable pub secret_path : Str → Str → Str
secret_path parent secret_id = parent ++ bytes "/secrets/" ++ secret_id

unfoldable pub not_found : Str → Str
not_found name = bytes "not found: " ++ name

unfoldable pub already_exists : Str → Str
already_exists name = bytes "already exists: " ++ name

-- The version that is added under the number `n`.
unfoldable pub new_version : Str → ℕ → ℕ → SecretVersion
unfolding version_name format_int32
new_version secret_name n now = record {
  name = version_name secret_name (format_int32 n);
  create_time = now;
  state = enabled;
  destroy_time = none;
}

unfoldable pub append_version : ℕ → Str → List ℕ → SecretData → SecretData
unfolding new_version
append_version now secret_name payload sd = record sd {
  versions =
      sd.versions
      ++ record { version = new_version secret_name sd.next_version now; payload = some payload }
        ∷ [];
  next_version = (sd.next_version + 1) % 2 ^ 32;
}

-- The first version of that name, with its place in the slice.
unfoldable pub find_version : Str → ℕ → List VersionData → Option (ℕ × VersionData)
find_version name i [] = none
find_version name i (vd ∷ vds) =
    if str_eq vd.version.name name then some (i, vd) else find_version name (suc i) vds

unfoldable pub last_version : ℕ → VersionData → List VersionData → ℕ × VersionData
last_version i vd [] = (i, vd)
last_version i vd (next ∷ rest) = last_version (suc i) next rest

unfoldable pub or_not_found : Str → Option (ℕ × VersionData) → Result Str (ℕ × VersionData)
or_not_found name none = err (not_found name)
or_not_found name (some found) = ok found

unfoldable pub resolve_in : Str → Str → List VersionData → Result Str (ℕ × VersionData)
unfolding find_version last_version or_not_found
resolve_in secret_name version_id [] = err (not_found (version_name secret_name version_id))
resolve_in secret_name version_id (vd ∷ rest) =
    if str_eq version_id (bytes "latest")
    then ok (last_version 0 vd rest)
    else or_not_found (version_name secret_name version_id)
        (find_version (version_name secret_name version_id) 0 (vd ∷ rest))

unfoldable pub is_disabled : Str → Str
is_disabled name = bytes "failed precondition: version " ++ name ++ bytes " is disabled"

unfoldable pub is_destroyed : Str → Str
is_destroyed name = bytes "failed precondition: version " ++ name ++ bytes " is destroyed"

unfoldable pub readable : VersionData → VersionState → Result Str (SecretVersion × Option (List ℕ))
readable vd disabled = err (is_disabled vd.version.name)
readable vd destroyed = err (is_destroyed vd.version.name)
readable vd _ = ok (vd.version, vd.payload)

unfoldable pub versions_of : List VersionData → List SecretVersion
versions_of [] = []
versions_of (vd ∷ vds) = vd.version ∷ versions_of vds

-- A write through the pointer to the version at place `i`.
unfoldable pub write_at : ℕ → VersionData → List VersionData → List VersionData
write_at i vd [] = []
write_at zero vd (x ∷ xs) = vd ∷ xs
write_at (suc i) vd (x ∷ xs) = x ∷ write_at i vd xs

unfoldable pub with_state : VersionState → VersionData → VersionData
with_state state vd = record vd { version = record vd.version { state = state } }

unfoldable pub destroyed_at : ℕ → VersionData → VersionData
destroyed_at now vd = record {
  version = record vd.version { state = destroyed; destroy_time = some now };
  payload = none;
}
