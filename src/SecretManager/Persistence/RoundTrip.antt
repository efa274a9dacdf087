-- ===== src/SecretManager/Persistence/RoundTrip.antt =====
-- internal/secretmanager/store.go: a store that loads what another one saved.
use blitzy_localgcp.Base.{
  ℕ, zero, suc, ◌≡◌, refl, ap₂, ◌∙◌, List, [], ◌∷◌, Option, none, some, arith, Str, str_eq,
  str_eq_iff, ◌==◌, if◌then◌else◌, Dict, lookup, has_key, has_key-none, has_key-some, Option-cases,
  lookup-insert, IsMap, map_option, inl, inr, AllBytes, base64_encode, false,
}
use blitzy_localgcp.Base.Base64.RoundTrip.{decode-encode, encode-ne-nil}
use blitzy_localgcp.SecretManager.Data.{VersionData, SecretData, Store}
use blitzy_localgcp.SecretManager.Persistence.{
  persist, persist_version, persist_versions, persist_secret, persist_secrets, encoded_payload,
  time_or_zero, load_payload, load_version, load_versions, load_secret, load_secrets, load,
  new_store,
}

-- What the file cannot tell apart: an empty payload from none, a destroy time of zero from none.
abbrev pub settled_payload : Option (List ℕ) → Option (List ℕ)
settled_payload none = none
settled_payload (some []) = none
settled_payload (some (b ∷ bs)) = some (b ∷ bs)

abbrev pub settled_time : Option ℕ → Option ℕ
settled_time none = none
settled_time (some zero) = none
settled_time (some (suc t)) = some (suc t)

abbrev pub settled_version : VersionData → VersionData
settled_version vd = record {
  version = record vd.version { destroy_time = settled_time vd.version.destroy_time };
  payload = settled_payload vd.payload;
}

abbrev pub settled_versions : List VersionData → List VersionData
settled_versions [] = []
settled_versions (vd ∷ vds) = settled_version vd ∷ settled_versions vds

abbrev pub settled : SecretData → SecretData
settled sd = record sd { versions = settled_versions sd.versions }

abbrev pub PayloadBytes : Option (List ℕ) → Type 0
PayloadBytes none = Unit {0}
PayloadBytes (some p) = AllBytes p

abbrev pub VersionsBytes : List VersionData → Type 0
VersionsBytes [] = Unit {0}
VersionsBytes (vd ∷ vds) = PayloadBytes vd.payload × VersionsBytes vds

-- The payloads are bytes, and a secret is stored under its name.
abbrev pub IsSaveable : Dict SecretData → Type 0
IsSaveable [] = Unit {0}
IsSaveable ((k, sd) ∷ m) = (sd.secret.name ≡ k) × VersionsBytes sd.versions × IsSaveable m

abbrev NameIsKey : Dict SecretData → Type 0
NameIsKey [] = Unit {0}
NameIsKey ((k, sd) ∷ m) = (persist_secret sd).name ≡ k

load_payload-encoded :
    (p : Option (List ℕ))
    → PayloadBytes p
    → load_payload (encoded_payload p) ≡ some (settled_payload p)
unfolding load_payload encoded_payload
load_payload-encoded none h = unfold str_eq in refl
load_payload-encoded (some []) h = unfold str_eq base64_encode in refl
load_payload-encoded (some (b ∷ bs)) h =
    rw (encode-ne-nil b bs, decode-encode (b ∷ bs) h, load_payload)

load_version-persist :
    (vd : VersionData)
    → load_version (persist_version vd) (settled_payload vd.payload) ≡ settled_version vd
unfolding load_version persist_version
load_version-persist vd = λ i. record {
  version = record vd.version { destroy_time = time_back vd.version.destroy_time i };
  payload = settled_payload vd.payload;
}
  where
    time_back :
        (t : Option ℕ)
        → (if time_or_zero t == 0 then none else some (time_or_zero t)) ≡ settled_time t
    time_back none = refl
    time_back (some zero) = refl
    time_back (some (suc t)) = ground arith

load_versions-persist :
    (vds : List VersionData)
    → VersionsBytes vds
    → load_versions (persist_versions vds) ≡ settled_versions vds
unfolding load_versions persist_versions
load_versions-persist [] h = refl
load_versions-persist (vd ∷ vds) h =
    rw (load_payload-encoded vd.payload h.0, load_versions)
      (ap₂ (λ x l. x ∷ l) (load_version-persist vd) (load_versions-persist vds h.1))

load_secret-persist :
    (sd : SecretData) → VersionsBytes sd.versions → load_secret (persist_secret sd) ≡ settled sd
unfolding load_secret persist_secret
load_secret-persist sd h = λ i. record sd { versions = load_versions-persist sd.versions h i }

stored_under : (m : Dict SecretData) → IsSaveable m → NameIsKey m
unfolding persist_secret
stored_under [] h = tt
stored_under ((k, sd) ∷ m) h = h.0

load_secrets-persist :
    (m acc : Dict SecretData) (k : Str)
    → IsSaveable m
    → IsMap m
    → lookup k (load_secrets (persist_secrets m) acc)
      ≡ (if has_key k m then map_option settled (lookup k m) else lookup k acc)
unfolding load_secrets persist_secrets lookup has_key
load_secrets-persist [] acc k h u = refl
load_secrets-persist ((j, sd) ∷ m) acc k h u =
    load_secrets-persist m _ k h.2 u.1
    ∙ ground (
      arith,
      stored_under ((j, sd) ∷ m) h,
      lookup-insert (persist_secret sd).name k (load_secret (persist_secret sd)) acc,
      load_secret-persist sd h.1,
      str_eq_iff j k,
      has_key-none j m,
      u.0,
    )

-- A store that starts on the file of a saved store has the secrets of that store, with every
-- version, state and payload, up to what the file cannot tell apart.
pub new_store-persist :
    (s : Store) (k : Str)
    → str_eq s.data_dir [] ≡ false
    → IsSaveable s.secrets
    → IsMap s.secrets
    → lookup k (new_store s.data_dir (persist s).disk).secrets
      ≡ map_option settled (lookup k s.secrets)
unfolding new_store persist load
new_store-persist s k dir h u = rw (dir, persist) (load_secrets-persist s.secrets [] k h u ∙ kept)
  where
    kept :
        (if has_key k s.secrets then map_option settled (lookup k s.secrets) else lookup k [])
        ≡ map_option settled (lookup k s.secrets)
    kept = elim (Option-cases (lookup k s.secrets)) [
      | inl e ↦ rw (e, has_key-none k s.secrets e) (unfold lookup in refl)
      | inr (sd, e) ↦ rw (e, has_key-some k s.secrets sd e)
    ]
