-- ===== src/SecretManager/Persistence.antt =====
-- internal/secretmanager/store.go: `persist` and `load`. The JSON text of the file stands for the
-- value that it encodes; base64 is modelled.
pub mod RoundTrip
use blitzy_localgcp.Base.{
  ℕ, List, [], ◌∷◌, Option, none, some, Str, bytes, str_eq, Dict, insert, if◌then◌else◌, ◌==◌,
  base64_encode, base64_decode,
}
use blitzy_localgcp.SecretManager.Data.{
  SecretVersion, VersionData, SecretData, PersistedVersion, PersistedSecret, PersistedState, Store,
}

abbrev time_or_zero : Option ℕ → ℕ
time_or_zero none = 0
time_or_zero (some t) = t

encoded_payload : Option (List ℕ) → Str
encoded_payload none = []
encoded_payload (some p) = base64_encode p

persist_version : VersionData → PersistedVersion
unfolding encoded_payload
persist_version vd = record {
  name = vd.version.name;
  create_time = vd.version.create_time;
  state = vd.version.state;
  destroy_time = time_or_zero vd.version.destroy_time;
  payload = encoded_payload vd.payload;
}

persist_versions : List VersionData → List PersistedVersion
unfolding persist_version
persist_versions [] = []
persist_versions (vd ∷ vds) = persist_version vd ∷ persist_versions vds

persist_secret : SecretData → PersistedSecret
unfolding persist_versions
persist_secret sd = record {
  name = sd.secret.name;
  create_time = sd.secret.create_time;
  labels = sd.secret.labels;
  versions = persist_versions sd.versions;
  next_version = sd.next_version;
}

persist_secrets : Dict SecretData → List PersistedSecret
unfolding persist_secret
persist_secrets [] = []
persist_secrets ((k, sd) ∷ m) = persist_secret sd ∷ persist_secrets m

unfoldable pub persist : Store → Store
unfolding persist_secrets
persist s =
    if str_eq s.data_dir []
    then s
    else record s { disk = some (record { secrets = persist_secrets s.secrets }) }

-- The decoded payload; `none` is a decoding error, after which the version is skipped.
load_payload : Str → Option (Option (List ℕ))
load_payload text =
    if str_eq text []
    then some none
    else (elim (base64_decode text) [ none ↦ none | some p ↦ some (some p) ])

load_version : PersistedVersion → Option (List ℕ) → VersionData
load_version pv payload = record {
  version = record {
    name = pv.name;
    create_time = pv.create_time;
    state = pv.state;
    destroy_time = if pv.destroy_time == 0 then none else some pv.destroy_time;
  };
  payload = payload;
}

load_versions : List PersistedVersion → List VersionData
unfolding load_payload load_version
load_versions [] = []
load_versions (pv ∷ pvs) =
    let rest = load_versions pvs in
    elim (load_payload pv.payload) [ none ↦ rest | some payload ↦ load_version pv payload ∷ rest ]

load_secret : PersistedSecret → SecretData
unfolding load_versions
load_secret ps = record {
  secret = record { name = ps.name; create_time = ps.create_time; labels = ps.labels };
  versions = load_versions ps.versions;
  next_version = ps.next_version;
}

load_secrets : List PersistedSecret → Dict SecretData → Dict SecretData
unfolding load_secret
load_secrets [] m = m
load_secrets (ps ∷ pss) m = load_secrets pss (insert ps.name (load_secret ps) m)

unfoldable pub load : Store → Store
unfolding load_secrets
load s = elim s.disk [
  | none ↦ s
  | some state ↦ record s { secrets = load_secrets state.secrets s.secrets }
]

-- The store of a process that starts on a directory, with the file that it finds there.
unfoldable pub new_store : Str → Option PersistedState → Store
unfolding load
new_store data_dir disk =
    let s : Store = record { secrets = []; data_dir = data_dir; disk = disk } in
    if str_eq data_dir [] then s else load s
