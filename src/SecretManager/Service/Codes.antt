-- ===== src/SecretManager/Service/Codes.antt =====
-- internal/secretmanager/service.go: the status codes of the handlers.
use blitzy_localgcp.Base.{
  arith, has_prefix, str_eq, ℕ, ◌≡◌, refl, ap, ◌∙◌, [], ◌∷◌, ◌++◌, Str, bytes, str_eq_refl,
  contains, contains_byte, split, split-append, split_whole, join, ok, err, true, false,
  append_assoc,
}
use blitzy_localgcp.Base.Status.{failed_precondition}
use blitzy_localgcp.SecretManager.Data.{disabled, VersionData, Store}
use blitzy_localgcp.SecretManager.Versions.{is_disabled, readable, version_name, secret_path}
use blitzy_localgcp.SecretManager.Service.{
  parse_version_name, version_parts, access_secret_version, named_version, version_error, fail,
  bracketed,
}
use blitzy_localgcp.SecretManager

abbrev pub project_path : Str → Str
project_path project = bytes "projects/" ++ project

-- The path with its slashes in sight.
spelled :
    (project secret_id version_id : Str)
    → version_name (secret_path (project_path project) secret_id) version_id
      ≡ bytes "projects"
        ++ b'/'
          ∷ (project
              ++ b'/'
                ∷ (bytes "secrets"
                    ++ b'/' ∷ (secret_id ++ b'/' ∷ (bytes "versions" ++ b'/' ∷ version_id))))
unfolding version_name secret_path bytes
spelled project secret_id version_id = simp append_assoc

joined :
    (project secret_id : Str)
    → join b'/' (bytes "projects" ∷ project ∷ bytes "secrets" ∷ secret_id ∷ [])
      ≡ secret_path (project_path project) secret_id
unfolding join secret_path bytes
joined project secret_id = simp append_assoc

version_parts-split :
    (name project secret_id version_id : Str)
    → version_parts name (
        bytes "projects"
        ∷ project
        ∷ bytes "secrets"
        ∷ secret_id
        ∷ bytes "versions"
        ∷ version_id
        ∷ [])
      ≡ ok (secret_path (project_path project) secret_id, version_id)
unfolding version_parts
version_parts-split name project secret_id version_id =
    rw
      (
        str_eq_refl (bytes "projects"),
        str_eq_refl (bytes "secrets"),
        str_eq_refl (bytes "versions"),
      )
      (ap (λ p. ok (p, version_id)) (joined project secret_id))

no_slash :
    (contains_byte b'/' (bytes "projects") ≡ false)
    × (contains_byte b'/' (bytes "secrets") ≡ false)
    × (contains_byte b'/' (bytes "versions") ≡ false)
unfolding contains_byte bytes
no_slash = (refl, refl, refl)

-- The name of a version is taken apart into the name of its secret and the version, for a project,
-- a secret and a version without a slash.
pub parse_version_name-version_name :
    (project secret_id version_id : Str)
    → contains_byte b'/' project ≡ false
    → contains_byte b'/' secret_id ≡ false
    → contains_byte b'/' version_id ≡ false
    → parse_version_name (version_name (secret_path (project_path project) secret_id) version_id)
      ≡ ok (secret_path (project_path project) secret_id, version_id)
unfolding parse_version_name
parse_version_name-version_name project secret_id version_id hp hs hv =
    ap (version_parts name) (
      ap (split b'/') (spelled project secret_id version_id)
      ∙ split-append b'/' (bytes "projects") _ no_slash.0
      ∙ ap (λ l. bytes "projects" ∷ l)
          (split-append b'/' project _ hp
            ∙ ap (λ l. project ∷ l)
                (split-append b'/' (bytes "secrets") _ no_slash.1
                  ∙ ap (λ l. bytes "secrets" ∷ l)
                      (split-append b'/' secret_id _ hs
                        ∙ ap (λ l. secret_id ∷ l)
                            (split-append b'/' (bytes "versions") _ no_slash.2
                              ∙ ap (λ l. bytes "versions" ∷ l) (split_whole b'/' version_id hv))))))
    ∙ version_parts-split name project secret_id version_id
  where
    name : Str
    name = version_name (secret_path (project_path project) secret_id) version_id

is_disabled_text : (name : Str) → contains (is_disabled name) (bytes "failed precondition") ≡ true
unfolding is_disabled contains bytes
is_disabled_text name = refl

-- The name of a version has no space, so that no place in it begins the text that is searched for.
no_prefix :
    (w : Str)
    → contains_byte b' ' w ≡ false
    → has_prefix (w ++ bytes " is disabled") (bytes "not found") ≡ false
unfolding has_prefix contains_byte bytes
no_prefix [] h = refl
no_prefix (a ∷ []) h = ground arith
no_prefix (a ∷ b ∷ []) h = ground arith
no_prefix (a ∷ b ∷ c ∷ []) h = ground arith
no_prefix (a ∷ b ∷ c ∷ d ∷ w) h = ground arith

no_space :
    (w : Str)
    → contains_byte b' ' w ≡ false
    → contains (w ++ bytes " is disabled") (bytes "not found") ≡ false
unfolding contains contains_byte
no_space [] h = unfold bytes has_prefix in refl
no_space (x ∷ w) h = rw (no_prefix (x ∷ w) h) (no_space w (ground (arith, h)))

is_disabled_found :
    (name : Str)
    → contains_byte b' ' name ≡ false
    → contains (is_disabled name) (bytes "not found") ≡ false
unfolding is_disabled contains has_prefix bytes
is_disabled_found name h = no_space name h

some_name :
    (project secret_id version_id : Str)
    → str_eq (version_name (secret_path (project_path project) secret_id) version_id) [] ≡ false
unfolding version_name secret_path bytes str_eq
some_name project secret_id version_id = refl

named :
    (project secret_id version_id : Str)
    → contains_byte b'/' project ≡ false
    → contains_byte b'/' secret_id ≡ false
    → contains_byte b'/' version_id ≡ false
    → named_version (version_name (secret_path (project_path project) secret_id) version_id)
      ≡ ok (secret_path (project_path project) secret_id, version_id)
unfolding named_version
named project secret_id version_id hp hs hv =
    rw
      (
        some_name project secret_id version_id,
        parse_version_name-version_name project secret_id version_id hp hs hv,
      )
      refl

-- A version that its resource name, of parts without a slash, resolves to, that is disabled and
-- whose stored name has no space, is answered with FailedPrecondition.
pub access_disabled_code :
    (s : Store) (project secret_id version_id : Str) (i : ℕ) (vd : VersionData)
    → contains_byte b'/' project ≡ false
    → contains_byte b'/' secret_id ≡ false
    → contains_byte b'/' version_id ≡ false
    → SecretManager.resolve_version s (secret_path (project_path project) secret_id) version_id
      ≡ ok (i, vd)
    → vd.version.state ≡ disabled
    → contains_byte b' ' vd.version.name ≡ false
    → let name = version_name (secret_path (project_path project) secret_id) version_id in
      access_secret_version s name
      ≡ err (
          fail failed_precondition
            (bracketed (bytes "SecretVersion") name (bytes " is not enabled")))
unfolding access_secret_version SecretManager.access_secret_version
access_disabled_code s project secret_id version_id i vd hp hs hv hr hd hn =
    rw (named project secret_id version_id hp hs hv, access_secret_version)
      (rw (hr, SecretManager.access_secret_version)
        (rw hd (
          unfold readable version_error in
          rw (is_disabled_found vd.version.name hn, is_disabled_text vd.version.name) refl)))
