-- ===== src/SecretManager/Preservation.antt =====
-- internal/secretmanager/store.go: the form of a store after a call.
use blitzy_localgcp.Base.{
  ℕ, ◌+◌, ◌^◌, ◌%◌, ◌∙◌, ◌≡◌, ◌≢◌, sym, get_elem?, refl, ap, List, [], ◌∷◌, Option, none, subst,
  some, Str, Dict, lookup, has_key, Everywhere-insert, Everywhere-erase, Everywhere-alter, ok,
  Bool-cases, Option-cases, Result-cases, inl, inr,
}
use mathlib.Core.Option.{some-injective}
use blitzy_localgcp.SecretManager.Data.{
  VersionState, unspecified, enabled, disabled, destroyed, VersionData, SecretData, Store,
}
use blitzy_localgcp.SecretManager.Versions.{secret_path, with_state, destroyed_at}
use blitzy_localgcp.SecretManager.Pointers.{resolve_version-get}
use blitzy_localgcp.SecretManager.Calls.{
  Call, create, delete, add_version, enable, disable, destroy, step, run,
}
use blitzy_localgcp.SecretManager.Invariant.{
  PayloadFits, IsWellFormed, secrets-persist, append_version-IsSecret, write_at-Numbered,
  length-write_at, Numbered-get,
}
use blitzy_localgcp.SecretManager.{
  create_secret, delete_secret, add_secret_version, resolve_version, store_version, set_state,
  enable_secret_version, disable_secret_version, destroy_secret_version,
}

-- A write through a pointer keeps the invariant if the version fits the one that it replaces.
store_version-IsWellFormed :
    (s : Store) (name : Str) (i : ℕ) (old vd : VersionData) (sd : SecretData)
    → lookup name s.secrets ≡ some sd
    → get_elem? sd.versions i ≡ some old
    → vd.version.name ≡ old.version.name
    → (PayloadFits old.version.state old.payload → PayloadFits vd.version.state vd.payload)
    → IsWellFormed s
    → IsWellFormed (store_version s name i vd)
unfolding store_version
store_version-IsWellFormed s name i old vd sd found at named fits w = rw secrets-persist (
    Everywhere-alter name _ s.secrets
      (λ v here v_good. record {
        named = v_good.named;
        next = v_good.next ∙ ap (λ n. (1 + n) % 2 ^ 32) (sym (length-write_at i vd v.versions));
        numbered =
            let same : sd ≡ v = some-injective _ _ (sym found ∙ here) in
            let at_v = subst (λ (x : SecretData). get_elem? x.versions i ≡ some old) same at in
            write_at-Numbered name 1 i old vd v.versions at_v named
              (fits (Numbered-get name 1 i v.versions old v_good.numbered at_v)) v_good.numbered;
      })
      w)

create_secret-IsWellFormed :
    (s : Store) (now : ℕ) (parent id : Str) (labels : Dict Str)
    → IsWellFormed s
    → IsWellFormed (create_secret s now parent id labels).1
unfolding create_secret
create_secret-IsWellFormed s now parent id labels w =
    elim (Bool-cases (has_key (secret_path parent id) s.secrets)) [
      | inl e ↦ rw e w
      | inr e ↦
          rw (e, secrets-persist)
            (Everywhere-insert _ _ s.secrets (record { named = refl; next = refl; numbered = tt })
              w)
    ]

delete_secret-IsWellFormed :
    (s : Store) (name : Str) → IsWellFormed s → IsWellFormed (delete_secret s name).1
unfolding delete_secret
delete_secret-IsWellFormed s name w = elim (Bool-cases (has_key name s.secrets)) [
  | inl e ↦ rw (e, secrets-persist) (Everywhere-erase name s.secrets w)
  | inr e ↦ rw e w
]

add_secret_version-IsWellFormed :
    (s : Store) (now : ℕ) (name : Str) (payload : List ℕ)
    → IsWellFormed s
    → IsWellFormed (add_secret_version s now name payload).1
unfolding add_secret_version
add_secret_version-IsWellFormed s now name payload w = elim (Option-cases (lookup name s.secrets)) [
  | inl e ↦ rw (e, add_secret_version) w
  | inr (sd, e) ↦
      rw (e, add_secret_version, secrets-persist)
        (Everywhere-alter name _ s.secrets
          (λ v _ good. append_version-IsSecret now name payload v good) w)
]

abbrev HasPayload : Option (List ℕ) → Type 0
HasPayload none = ⊥
HasPayload (some p) = Unit {0}

live_payload :
    (old : VersionState) (p : Option (List ℕ)) → PayloadFits old p → old ≢ destroyed → HasPayload p
live_payload destroyed p f l = absurd (l refl)
live_payload unspecified none f l = f
live_payload unspecified (some p) f l = tt
live_payload enabled none f l = f
live_payload enabled (some p) f l = tt
live_payload disabled none f l = f
live_payload disabled (some p) f l = tt

module _ (s : Store) (name id : Str) (i : ℕ) (vd : VersionData) (w : IsWellFormed s) where
  mark-IsWellFormed :
      (state old : VersionState)
      → ((p : Option (List ℕ)) → HasPayload p → PayloadFits state p)
      → old ≢ destroyed
      → vd.version.state ≡ old
      → resolve_version s name id ≡ ok (i, vd)
      → IsWellFormed (store_version s name i (with_state state vd))
  unfolding with_state
  mark-IsWellFormed state old live alive e r =
      let (sd, found, at) = resolve_version-get s name id i vd r in
      store_version-IsWellFormed s name i vd _ sd found at refl
        (λ fits. live vd.payload (live_payload old vd.payload (rw e at fits) alive)) w

  set_state-IsWellFormed :
      (state old : VersionState)
      → ((p : Option (List ℕ)) → HasPayload p → PayloadFits state p)
      → vd.version.state ≡ old
      → resolve_version s name id ≡ ok (i, vd)
      → IsWellFormed (set_state state s name i vd old).1
  unfolding set_state
  set_state-IsWellFormed state destroyed live e r = w
  set_state-IsWellFormed state unspecified live e r =
      mark-IsWellFormed state unspecified live (λ d. cc d) e r
  set_state-IsWellFormed state enabled live e r =
      mark-IsWellFormed state enabled live (λ d. cc d) e r
  set_state-IsWellFormed state disabled live e r =
      mark-IsWellFormed state disabled live (λ d. cc d) e r

  destroy-IsWellFormed :
      (now : ℕ)
      → resolve_version s name id ≡ ok (i, vd)
      → IsWellFormed (store_version s name i (destroyed_at now vd))
  unfolding destroyed_at
  destroy-IsWellFormed now r =
      let (sd, found, at) = resolve_version-get s name id i vd r in
      store_version-IsWellFormed s name i vd _ sd found at refl (λ _. tt) w

enabled_fits : (p : Option (List ℕ)) → HasPayload p → PayloadFits enabled p
enabled_fits none h = h
enabled_fits (some p) h = tt

disabled_fits : (p : Option (List ℕ)) → HasPayload p → PayloadFits disabled p
disabled_fits none h = h
disabled_fits (some p) h = tt

module _ (s : Store) (name id : Str) (w : IsWellFormed s) where
  enable_secret_version-IsWellFormed : IsWellFormed (enable_secret_version s name id).1
  unfolding enable_secret_version
  enable_secret_version-IsWellFormed = elim (Result-cases (resolve_version s name id)) [
    | inl ((i, vd), e) ↦
        rw (e, enable_secret_version)
          (set_state-IsWellFormed s name id i vd w enabled vd.version.state enabled_fits refl e)
    | inr (m, e) ↦ rw (e, enable_secret_version) w
  ]

  disable_secret_version-IsWellFormed : IsWellFormed (disable_secret_version s name id).1
  unfolding disable_secret_version
  disable_secret_version-IsWellFormed = elim (Result-cases (resolve_version s name id)) [
    | inl ((i, vd), e) ↦
        rw (e, disable_secret_version)
          (set_state-IsWellFormed s name id i vd w disabled vd.version.state disabled_fits refl e)
    | inr (m, e) ↦ rw (e, disable_secret_version) w
  ]

  destroy_secret_version-IsWellFormed :
      (now : ℕ) → IsWellFormed (destroy_secret_version s now name id).1
  unfolding destroy_secret_version
  destroy_secret_version-IsWellFormed now = elim (Result-cases (resolve_version s name id)) [
    | inl ((i, vd), e) ↦
        rw (e, destroy_secret_version) (destroy-IsWellFormed s name id i vd w now e)
    | inr (m, e) ↦ rw (e, destroy_secret_version) w
  ]

-- A call keeps the secrets under their names, their versions numbered from 1 on in the order
-- of creation, and a payload in exactly the versions that are not destroyed.
pub step-IsWellFormed : (s : Store) (c : Call) → IsWellFormed s → IsWellFormed (step s c)
step-IsWellFormed s (create now parent id labels) w =
    create_secret-IsWellFormed s now parent id labels w
step-IsWellFormed s (delete name) w = delete_secret-IsWellFormed s name w
step-IsWellFormed s (add_version now name payload) w =
    add_secret_version-IsWellFormed s now name payload w
step-IsWellFormed s (enable name id) w = enable_secret_version-IsWellFormed s name id w
step-IsWellFormed s (disable name id) w = disable_secret_version-IsWellFormed s name id w
step-IsWellFormed s (destroy now name id) w = destroy_secret_version-IsWellFormed s name id w now

-- Any calls, one after another, on a store whose secrets stand under their names, with versions
-- numbered from 1 on in the order of creation and a payload in exactly the versions that are not
-- destroyed, leave a store of that kind.
pub run-IsWellFormed : (s : Store) (cs : List Call) → IsWellFormed s → IsWellFormed (run s cs)
run-IsWellFormed s [] w = w
run-IsWellFormed s (c ∷ cs) w = run-IsWellFormed (step s c) cs (step-IsWellFormed s c w)
