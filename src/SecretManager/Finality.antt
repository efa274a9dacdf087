-- ===== src/SecretManager/Finality.antt =====
-- internal/secretmanager/store.go: destroyed versions and the calls.
use mathlib.Core.Option.{some-injective}
use blitzy_localgcp.Base.{
  format_int32, ℕ, zero, suc, ◌+◌, ◌≡◌, ◌≢◌, refl, sym, subst, ◌∙◌, List, [], ◌∷◌, none, some, Str,
  str_eq, str_eq_iff, Dict, lookup, lookup-insert, lookup-erase, ok, err, Bool-cases, Option-cases,
  Result-cases, inl, inr, false, get_elem?, has_key, has_key-some, ◌⊎◌, length, ◌<◌, ◌^◌,
}
use blitzy_localgcp.SecretManager.Data.{
  VersionState, unspecified, enabled, disabled, destroyed, VersionData, SecretData, Store,
}
use blitzy_localgcp.SecretManager.Versions.{
  secret_path, append_version, destroyed_at, readable, is_destroyed,
}
use blitzy_localgcp.SecretManager.Destroyed.{
  DestroyedIn, IsDestroyed, DestroyedIn-append, DestroyedIn-write, alter-IsDestroyed,
}
use blitzy_localgcp.SecretManager.Numbers.{resolve_version-number}
use blitzy_localgcp.SecretManager.Invariant.{IsWellFormed, secrets-persist}
use blitzy_localgcp.SecretManager.Pointers.{resolve_version-get}
use blitzy_localgcp.SecretManager.Calls.{
  Call, create, delete, add_version, enable, disable, destroy, step, run,
}
use blitzy_localgcp.SecretManager.{
  create_secret, delete_secret, add_secret_version, resolve_version, store_version, set_state,
  enable_secret_version, disable_secret_version, destroy_secret_version, access_secret_version,
}

-- The call does not delete the secret `name`.
abbrev pub Spares : Str → Call → Type 0
Spares name (delete other) = other ≢ name
Spares name _ = Unit {0}

abbrev pub AllSpare : Str → List Call → Type 0
AllSpare name [] = Unit {0}
AllSpare name (c ∷ cs) = Spares name c × AllSpare name cs

module _ (s : Store) (name : Str) (i : ℕ) (d : IsDestroyed name i s) where
  create_secret-IsDestroyed :
      (now : ℕ) (parent id : Str) (labels : Dict Str)
      → IsDestroyed name i (create_secret s now parent id labels).1
  unfolding create_secret
  create_secret-IsDestroyed now parent id labels =
      elim (Bool-cases (has_key (secret_path parent id) s.secrets)) [
        | inl e ↦ rw e d
        | inr e ↦ rw e (record {
          data_of = d.data_of;
          found =
              rw
                (
                  secrets-persist,
                  lookup-insert (secret_path parent id) name _ s.secrets,
                  other (secret_path parent id) e,
                )
                d.found;
          gone = d.gone;
        })
      ]
    where
      other : (key : Str) → has_key key s.secrets ≡ false → str_eq key name ≡ false
      other key e = elim (Bool-cases (str_eq key name)) [
        | inl same ↦
            let here : lookup key s.secrets ≡ some d.data_of =
              rw ((str_eq_iff key name).0 same) d.found in
            cc (e, has_key-some key s.secrets d.data_of here)
        | inr ne ↦ ne
      ]

  delete_secret-IsDestroyed : (key : Str) → key ≢ name → IsDestroyed name i (delete_secret s key).1
  unfolding delete_secret
  delete_secret-IsDestroyed key ne = elim (Bool-cases (has_key key s.secrets)) [
    | inl e ↦ rw e (record {
      data_of = d.data_of;
      found = rw (secrets-persist, lookup-erase key name s.secrets, other) d.found;
      gone = d.gone;
    })
    | inr e ↦ rw e d
  ]
    where
      other : str_eq key name ≡ false
      other = elim (Bool-cases (str_eq key name)) [
        | inl same ↦ absurd (ne ((str_eq_iff key name).0 same))
        | inr e ↦ e
      ]

  add_secret_version-IsDestroyed :
      (now : ℕ) (key : Str) (payload : List ℕ)
      → IsDestroyed name i (add_secret_version s now key payload).1
  unfolding add_secret_version append_version
  add_secret_version-IsDestroyed now key payload = elim (Option-cases (lookup key s.secrets)) [
    | inl e ↦ rw (e, add_secret_version) d
    | inr (sd, e) ↦
        rw (e, add_secret_version)
          (alter-IsDestroyed s _ name key i _ (secrets-persist _)
            (λ v _ h. DestroyedIn-append i v.versions _ h) d)
  ]

  store_version-IsDestroyed :
      (key : Str) (j : ℕ) (old vd : VersionData) (id : Str)
      → resolve_version s key id ≡ ok (j, old)
      → (old.version.state ≢ destroyed) ⊎ ((vd.version.state ≡ destroyed) × (vd.payload ≡ none))
      → IsDestroyed name i (store_version s key j vd)
  unfolding store_version
  store_version-IsDestroyed key j old vd id r o =
      let (sd, found, at) = resolve_version-get s key id j old r in
      alter-IsDestroyed s _ name key i _ (secrets-persist _)
        (λ v here h.
          let same : sd ≡ v = some-injective _ _ (sym found ∙ here) in
          DestroyedIn-write i j old vd v.versions
            (subst (λ (x : SecretData). get_elem? x.versions j ≡ some old) same at) o h)
        d

  set_state-IsDestroyed :
      (state old : VersionState) (key id : Str) (j : ℕ) (vd : VersionData)
      → vd.version.state ≡ old
      → resolve_version s key id ≡ ok (j, vd)
      → IsDestroyed name i (set_state state s key j vd old).1
  unfolding set_state
  set_state-IsDestroyed state destroyed key id j vd e r = d
  set_state-IsDestroyed state unspecified key id j vd e r =
      store_version-IsDestroyed key j vd _ id r (inl (λ h. cc (e, h)))
  set_state-IsDestroyed state enabled key id j vd e r =
      store_version-IsDestroyed key j vd _ id r (inl (λ h. cc (e, h)))
  set_state-IsDestroyed state disabled key id j vd e r =
      store_version-IsDestroyed key j vd _ id r (inl (λ h. cc (e, h)))

  enable_secret_version-IsDestroyed :
      (key id : Str) → IsDestroyed name i (enable_secret_version s key id).1
  unfolding enable_secret_version
  enable_secret_version-IsDestroyed key id = elim (Result-cases (resolve_version s key id)) [
    | inl ((j, vd), e) ↦
        rw (e, enable_secret_version)
          (set_state-IsDestroyed enabled vd.version.state key id j vd refl e)
    | inr (m, e) ↦ rw (e, enable_secret_version) d
  ]

  disable_secret_version-IsDestroyed :
      (key id : Str) → IsDestroyed name i (disable_secret_version s key id).1
  unfolding disable_secret_version
  disable_secret_version-IsDestroyed key id = elim (Result-cases (resolve_version s key id)) [
    | inl ((j, vd), e) ↦
        rw (e, disable_secret_version)
          (set_state-IsDestroyed disabled vd.version.state key id j vd refl e)
    | inr (m, e) ↦ rw (e, disable_secret_version) d
  ]

  destroy_secret_version-IsDestroyed :
      (now : ℕ) (key id : Str) → IsDestroyed name i (destroy_secret_version s now key id).1
  unfolding destroy_secret_version destroyed_at
  destroy_secret_version-IsDestroyed now key id = elim (Result-cases (resolve_version s key id)) [
    | inl ((j, vd), e) ↦
        rw (e, destroy_secret_version)
          (store_version-IsDestroyed key j vd _ id e (inr (refl, refl)))
    | inr (m, e) ↦ rw (e, destroy_secret_version) d
  ]

  -- A call other than the deletion of the secret leaves a destroyed version destroyed.
  step-IsDestroyed : (c : Call) → Spares name c → IsDestroyed name i (step s c)
  step-IsDestroyed (create now parent id labels) h = create_secret-IsDestroyed now parent id labels
  step-IsDestroyed (delete key) h = delete_secret-IsDestroyed key h
  step-IsDestroyed (add_version now key payload) h = add_secret_version-IsDestroyed now key payload
  step-IsDestroyed (enable key id) h = enable_secret_version-IsDestroyed key id
  step-IsDestroyed (disable key id) h = disable_secret_version-IsDestroyed key id
  step-IsDestroyed (destroy now key id) h = destroy_secret_version-IsDestroyed now key id

-- Destroying a version is final: after any calls that do not delete its secret, it is destroyed
-- and has no payload.
pub run-IsDestroyed :
    (s : Store) (name : Str) (i : ℕ) (cs : List Call)
    → AllSpare name cs
    → IsDestroyed name i s
    → IsDestroyed name i (run s cs)
run-IsDestroyed s name i [] h d = d
run-IsDestroyed s name i (c ∷ cs) h d =
    run-IsDestroyed (step s c) name i cs h.1 (step-IsDestroyed s name i d c h.0)

DestroyedIn-get :
    (i : ℕ) (vds : List VersionData)
    → DestroyedIn i vds
    → (vd : VersionData) × (get_elem? vds i ≡ some vd) × (vd.version.state ≡ destroyed)
DestroyedIn-get i [] h = absurd h
DestroyedIn-get zero (x ∷ xs) h = (x, refl, h.0)
DestroyedIn-get (suc i) (x ∷ xs) h = DestroyedIn-get i xs h

-- In a well-formed store with fewer than 2 ^ 31 versions of the secret, a destroyed version can
-- neither be read nor enabled by its number; the error names it, and the attempt to enable it
-- changes nothing.
pub destroyed_refused :
    (s : Store) (name : Str) (i : ℕ) (sd : SecretData)
    → IsWellFormed s
    → lookup name s.secrets ≡ some sd
    → DestroyedIn i sd.versions
    → length sd.versions < 2 ^ 31
    → (vd : VersionData) × (get_elem? sd.versions i ≡ some vd)
      × (access_secret_version s name (format_int32 (i + 1)) ≡ err (is_destroyed vd.version.name))
      × (enable_secret_version s name (format_int32 (i + 1))
          ≡ (err (is_destroyed vd.version.name), s))
unfolding access_secret_version enable_secret_version readable set_state
destroyed_refused s name i sd w found d b =
    let (vd, at, e) = DestroyedIn-get i sd.versions d in
    let r = resolve_version-number s name sd i vd w found at b in
    (vd, at, rw (r, e), rw (r, enable_secret_version) (rw e))
