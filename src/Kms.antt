-- ===== src/Kms.antt =====
-- internal/kms/store.go: the key store.
pub mod Data
pub mod Algorithms
pub mod Keys
pub mod Cipher
pub mod Asymmetric
pub mod Service
pub mod Examples
use Prim.Native.Nat.{bit_xor}
use blitzy_localgcp.Base.{
  ℕ, zero, suc, ◌+◌, values_under, ◌^◌, ◌%◌, List, [], ◌∷◌, ◌++◌, length, Option, none, some, Bool,
  true, false, Str, bytes, str_eq, has_prefix, Dict, lookup, insert, erase, alter, has_key,
  if◌then◌else◌, ◌==◌, Result, ok, err, ◌>>=◌, format_int32, sort_by_name,
}
use blitzy_localgcp.Kms.Algorithms.{
  unspecified_algorithm, default_algorithm, is_symmetric, is_rsa, is_ec, is_hmac, version_path,
  number_or_zero, crypt, mac_of,
}
use blitzy_localgcp.Kms.Data.{
  KeyState, enabled, destroyed, Purpose, unspecified, encrypt_decrypt, asymmetric_sign,
  asymmetric_decrypt, mac, StoredKeyRing, StoredCryptoKey, StoredVersion, Store, Entropy,
}

-- The result of a call, with the store that it leaves.
abbrev pub Outcome : Type 0 → Type 0 → Type 0
Outcome S A = Result Str A × S

module _ {RsaKey EcKey : Type 0} where
  pub new_store : Store RsaKey EcKey
  new_store = record { key_rings = []; crypto_keys = []; versions = []; next_ver = [] }

  pub create_key_ring : Store RsaKey EcKey → ℕ → Str → Outcome (Store RsaKey EcKey) StoredKeyRing
  create_key_ring s now name =
      let ring : StoredKeyRing = record { name = name; create_time = now } in
      if has_key name s.key_rings
      then (err (bytes "already exists"), s)
      else (ok ring, record s { key_rings = insert name ring s.key_rings })

  pub get_key_ring : Store RsaKey EcKey → Str → Option StoredKeyRing
  get_key_ring s name = lookup name s.key_rings

  pub get_crypto_key : Store RsaKey EcKey → Str → Option StoredCryptoKey
  get_crypto_key s name = lookup name s.crypto_keys

  pub get_version : Store RsaKey EcKey → Str → Option (StoredVersion RsaKey EcKey)
  get_version s name = lookup name s.versions

  pub list_key_rings : Store RsaKey EcKey → Str → List StoredKeyRing
  list_key_rings s parent =
      sort_by_name (λ ring. ring.name) (values_under (parent ++ bytes "/keyRings/") s.key_rings)

  pub list_crypto_keys : Store RsaKey EcKey → Str → List StoredCryptoKey
  list_crypto_keys s parent =
      sort_by_name (λ key. key.name) (values_under (parent ++ bytes "/cryptoKeys/") s.crypto_keys)

  pub list_versions : Store RsaKey EcKey → Str → List (StoredVersion RsaKey EcKey)
  list_versions s parent =
      sort_by_name (λ version. version.name)
        (values_under (parent ++ bytes "/cryptoKeyVersions/") s.versions)

  -- A version without key material.
  bare_version : Str → Str → ℕ → StoredVersion RsaKey EcKey
  bare_version name alg now = record {
    name = name;
    state = enabled;
    algorithm = alg;
    create_time = now;
    sym_key = none;
    rsa_key = none;
    ec_key = none;
    hmac_key = none;
  }

  with_rsa :
      Result Str RsaKey → StoredVersion RsaKey EcKey → Result Str (StoredVersion RsaKey EcKey)
  with_rsa (err e) v = err (bytes "generate RSA key: " ++ e)
  with_rsa (ok key) v = ok (record v { rsa_key = some key })

  with_ec : Result Str EcKey → StoredVersion RsaKey EcKey → Result Str (StoredVersion RsaKey EcKey)
  with_ec (err e) v = err (bytes "generate EC key: " ++ e)
  with_ec (ok key) v = ok (record v { ec_key = some key })

  -- The key material that fits the algorithm.
  generate :
      Entropy RsaKey EcKey
      → Str
      → StoredVersion RsaKey EcKey
      → Result Str (StoredVersion RsaKey EcKey)
  unfolding with_rsa with_ec is_symmetric is_rsa is_ec is_hmac
  generate fresh alg v =
      if is_symmetric alg
      then ok (record v { sym_key = some fresh.random_key })
      else if is_rsa alg
      then with_rsa fresh.rsa_generated v
      else if is_ec alg
      then with_ec fresh.ec_generated v
      else if is_hmac alg
      then ok (record v { hmac_key = some fresh.random_key })
      else ok (record v { sym_key = some fresh.random_key })

  -- The number of the next version: a map gives 0 for a key that it lacks.
  next_number : Store RsaKey EcKey → Str → ℕ
  unfolding number_or_zero
  next_number s key_name =
      let n = number_or_zero (lookup key_name s.next_ver) in if n == 0 then 1 else n

  pub create_version_locked :
      Store RsaKey EcKey
      → Entropy RsaKey EcKey
      → Str
      → Str
      → ℕ
      → Outcome (Store RsaKey EcKey) (StoredVersion RsaKey EcKey)
  unfolding next_number bare_version generate version_path
  create_version_locked s fresh key_name alg now =
      let n = next_number s key_name in
      let name = version_path key_name n in
      let counted : Store RsaKey EcKey = record s {
        next_ver = insert key_name ((n + 1) % 2 ^ 32) s.next_ver;
      } in
      elim (generate fresh alg (bare_version name alg now)) [
        | err e ↦ (err e, counted)
        | ok v ↦ (ok v, record counted { versions = insert name v counted.versions })
      ]

  -- A key whose first version could not be created is taken out again.
  finish_creation :
      StoredCryptoKey
      → Outcome (Store RsaKey EcKey) (StoredVersion RsaKey EcKey)
      → Outcome (Store RsaKey EcKey) (StoredCryptoKey × StoredVersion RsaKey EcKey)
  finish_creation key (err e, t) = (err e, record t { crypto_keys = erase key.name t.crypto_keys })
  finish_creation key (ok v, t) = (ok (key, v), t)

  pub create_crypto_key :
      Store RsaKey EcKey
      → Entropy RsaKey EcKey
      → ℕ
      → Str
      → Purpose
      → Str
      → Outcome (Store RsaKey EcKey) (StoredCryptoKey × StoredVersion RsaKey EcKey)
  unfolding create_version_locked finish_creation default_algorithm unspecified_algorithm
  create_crypto_key s fresh now name purpose algorithm =
      let alg : Str =
        if str_eq algorithm unspecified_algorithm then default_algorithm purpose else algorithm in
      let key : StoredCryptoKey = record {
        name = name;
        purpose = purpose;
        algorithm = alg;
        create_time = now;
        primary_ver = 1;
      } in
      let added : Store RsaKey EcKey = record s {
        crypto_keys = insert name key s.crypto_keys;
        next_ver = insert name 1 s.next_ver;
      } in
      if has_key name s.crypto_keys
      then (err (bytes "already exists"), s)
      else finish_creation key (create_version_locked added fresh name alg now)

  erased : StoredVersion RsaKey EcKey → StoredVersion RsaKey EcKey
  erased v = record v {
    state = destroyed;
    sym_key = none;
    rsa_key = none;
    ec_key = none;
    hmac_key = none;
  }

  pub destroy_version :
      Store RsaKey EcKey → Str → Outcome (Store RsaKey EcKey) (StoredVersion RsaKey EcKey)
  unfolding erased
  destroy_version s name = elim (lookup name s.versions) [
    | none ↦ (err (bytes "not found"), s)
    | some v ↦ (ok (erased v), record s { versions = alter name erased s.versions })
  ]

  pub primary_version : Store RsaKey EcKey → Str → Option (StoredVersion RsaKey EcKey)
  unfolding version_path
  primary_version s key_name = elim (lookup key_name s.crypto_keys) [
    | none ↦ none
    | some key ↦ lookup (version_path key_name key.primary_ver) s.versions
  ]

  -- The version of that name, if it is enabled.
  pub usable : Store RsaKey EcKey → Str → Result Str (StoredVersion RsaKey EcKey)
  usable s name = elim (lookup name s.versions) [
    | none ↦ err (bytes "version not found")
    | some v ↦ (elim v.state [ enabled ↦ ok v | destroyed ↦ err (bytes "version is not enabled") ])
  ]

  pub encrypt : Store RsaKey EcKey → Str → List ℕ → Result Str (List ℕ)
  unfolding usable crypt
  encrypt s name plaintext = do v ← usable s name; crypt v.sym_key plaintext

  pub decrypt : Store RsaKey EcKey → Str → List ℕ → Result Str (List ℕ)
  unfolding encrypt
  decrypt s name ciphertext = encrypt s name ciphertext

  pub mac_sign : (List ℕ → List ℕ) → Store RsaKey EcKey → Str → List ℕ → Result Str (List ℕ)
  unfolding usable mac_of
  mac_sign sha256 s name input = do v ← usable s name; mac_of sha256 v.hmac_key input
