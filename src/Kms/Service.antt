-- ===== src/Kms/Service.antt =====
-- internal/kms/service.go: the handlers over the key store. An empty text stands for a field that
-- the request leaves out. What the keys, the digests and the signatures are is an argument.
use blitzy_localgcp.Base.{
  ℕ, List, ◌++◌, map, length, Option, none, some, Bool, Str, bytes, str_eq, Result, ok, err, ℤ, pos,
  to_int32,
}
use blitzy_localgcp.Base.Status.{
  Status, invalid_argument, not_found, already_exists, failed_precondition, reject,
}
use blitzy_localgcp.Kms.Data.{
  KeyState, Purpose, unspecified, StoredKeyRing, StoredCryptoKey, StoredVersion, Store, Entropy,
}
use blitzy_localgcp.Kms.Algorithms.{unspecified_algorithm}
use blitzy_localgcp.Kms.Asymmetric.{Hash, KeyLibrary, asymmetric_sign, get_public_key_pem}
use blitzy_localgcp.Kms

pub record VersionMessage : Type 0 where
  pub name : Str
  pub state : KeyState
  pub algorithm : Str
  pub create_time : ℕ

-- `algorithm` is that of the template of the versions.
pub record KeyMessage : Type 0 where
  pub name : Str
  pub purpose : Purpose
  pub create_time : ℕ
  pub algorithm : Str
  pub primary : Option VersionMessage

-- A list with its length as an int32.
pub record Listing (A : Type 0) : Type 0 where
  pub items : List A
  pub total_size : ℤ

-- The field of the digest that the request sets, if it sets one.
pub data Digest : Type 0 where
  no_digest : Digest
  digest_of : Hash → List ℕ → Digest

pub record Ciphertext : Type 0 where
  pub name : Str
  pub ciphertext : List ℕ

pub record Signature : Type 0 where
  pub name : Str
  pub signature : List ℕ

pub record PublicKey : Type 0 where
  pub pem : Str
  pub algorithm : Str
  pub name : Str

pub record Verification : Type 0 where
  pub name : Str
  pub success : Bool

-- The request for a key; `algorithm` is that of its template, if it has one.
pub record NewKey : Type 0 where
  pub purpose : Purpose
  pub algorithm : Option Str

unfoldable pub listed : {A : Type 0} → List A → Listing A
listed items = record { items = items; total_size = to_int32 (pos (length items)) }

-- "<kind> <name><rest>"
unfoldable pub about : Str → Str → Str → Str
about kind name rest = kind ++ bytes " " ++ name ++ rest

unfoldable pub or_failed : {A B : Type 0} → Str → (A → B) → Result Str A → Result Status B
or_failed what f (ok a) = ok (f a)
or_failed what f (err e) = reject failed_precondition (what ++ bytes ": " ++ e)

module _ {RsaKey EcKey : Type 0} where
  unfoldable pub to_proto_version : StoredVersion RsaKey EcKey → VersionMessage
  to_proto_version v = record {
    name = v.name;
    state = v.state;
    algorithm = v.algorithm;
    create_time = v.create_time;
  }

  unfoldable pub to_proto_crypto_key :
      StoredCryptoKey → Option (StoredVersion RsaKey EcKey) → KeyMessage
  unfolding to_proto_version
  to_proto_crypto_key key primary = record {
    name = key.name;
    purpose = key.purpose;
    create_time = key.create_time;
    algorithm = key.algorithm;
    primary = elim primary [ none ↦ none | some v ↦ some (to_proto_version v) ];
  }

  unfoldable pub create_key_ring :
      Store RsaKey EcKey → ℕ → Str → Str → Result Status StoredKeyRing × Store RsaKey EcKey
  unfolding about
  create_key_ring s now parent id =
      let name = parent ++ bytes "/keyRings/" ++ id in
      let (result, t) = Kms.create_key_ring s now name in
      elim result [
        | err e ↦
            (reject already_exists (about (bytes "KeyRing") name (bytes " already exists")), t)
        | ok ring ↦ (ok ring, t)
      ]

  unfoldable pub get_key_ring : Store RsaKey EcKey → Str → Result Status StoredKeyRing
  unfolding about
  get_key_ring s name = elim (Kms.get_key_ring s name) [
    | none ↦ reject not_found (about (bytes "KeyRing") name (bytes " not found"))
    | some ring ↦ ok ring
  ]

  unfoldable pub list_key_rings : Store RsaKey EcKey → Str → Listing StoredKeyRing
  unfolding listed
  list_key_rings s parent = listed (Kms.list_key_rings s parent)

  -- Whatever the error of the store is, the answer is that the key exists.
  unfoldable pub create_crypto_key :
      Store RsaKey EcKey
      → Entropy RsaKey EcKey
      → ℕ
      → Str
      → Str
      → Option NewKey
      → Result Status KeyMessage × Store RsaKey EcKey
  unfolding about to_proto_crypto_key
  create_crypto_key s fresh now parent id request =
      let name = parent ++ bytes "/cryptoKeys/" ++ id in
      let purpose : Purpose = elim request [ none ↦ unspecified | some k ↦ k.purpose ] in
      let template : Option Str = elim request [ none ↦ none | some k ↦ k.algorithm ] in
      let algorithm : Str = elim template [ none ↦ unspecified_algorithm | some a ↦ a ] in
      let (result, t) = Kms.create_crypto_key s fresh now name purpose algorithm in
      elim result [
        | err e ↦
            (reject already_exists (about (bytes "CryptoKey") name (bytes " already exists")), t)
        | ok created ↦ (ok (to_proto_crypto_key created.0 (some created.1)), t)
      ]

  unfoldable pub get_crypto_key : Store RsaKey EcKey → Str → Result Status KeyMessage
  unfolding about to_proto_crypto_key
  get_crypto_key s name = elim (Kms.get_crypto_key s name) [
    | none ↦ reject not_found (about (bytes "CryptoKey") name (bytes " not found"))
    | some key ↦ ok (to_proto_crypto_key key (Kms.primary_version s key.name))
  ]

  unfoldable pub list_crypto_keys : Store RsaKey EcKey → Str → Listing KeyMessage
  unfolding listed to_proto_crypto_key
  list_crypto_keys s parent = listed (
      map (λ key. to_proto_crypto_key key (Kms.primary_version s key.name))
        (Kms.list_crypto_keys s parent))

  unfoldable pub get_crypto_key_version : Store RsaKey EcKey → Str → Result Status VersionMessage
  unfolding about to_proto_version
  get_crypto_key_version s name = elim (Kms.get_version s name) [
    | none ↦ reject not_found (about (bytes "CryptoKeyVersion") name (bytes " not found"))
    | some v ↦ ok (to_proto_version v)
  ]

  unfoldable pub list_crypto_key_versions : Store RsaKey EcKey → Str → Listing VersionMessage
  unfolding listed to_proto_version
  list_crypto_key_versions s parent = listed (map to_proto_version (Kms.list_versions s parent))

  unfoldable pub destroy_crypto_key_version :
      Store RsaKey EcKey → Str → Result Status VersionMessage × Store RsaKey EcKey
  unfolding about to_proto_version
  destroy_crypto_key_version s name =
      let (result, t) = Kms.destroy_version s name in
      elim result [
        | err e ↦ (reject not_found (about (bytes "CryptoKeyVersion") name (bytes " not found")), t)
        | ok v ↦ (ok (to_proto_version v), t)
      ]

  -- The primary version of a key, which the name of the key stands for.
  unfoldable pub primary_of :
      {A : Type 0}
      → Store RsaKey EcKey
      → Str
      → (StoredVersion RsaKey EcKey → Result Status A)
      → Result Status A
  unfolding about
  primary_of s name act = elim (Kms.primary_version s name) [
    | none ↦
        reject not_found
          (about (bytes "CryptoKey") name (bytes " not found or has no primary version"))
    | some v ↦ act v
  ]

  unfoldable pub encrypt : Store RsaKey EcKey → Str → List ℕ → Result Status Ciphertext
  unfolding primary_of or_failed
  encrypt s name plaintext = primary_of s name (λ v.
      or_failed (bytes "encrypt") (λ text. record { name = v.name; ciphertext = text })
        (Kms.encrypt s v.name plaintext))

  unfoldable pub decrypt : Store RsaKey EcKey → Str → List ℕ → Result Status (List ℕ)
  unfolding primary_of or_failed
  decrypt s name ciphertext =
      primary_of s name
        (λ v. or_failed (bytes "decrypt") (λ text. text) (Kms.decrypt s v.name ciphertext))

  -- A version that exists, or the status of one that does not.
  unfoldable pub existing :
      {A : Type 0}
      → Store RsaKey EcKey
      → Str
      → (StoredVersion RsaKey EcKey → Result Status A)
      → Result Status A
  unfolding about
  existing s name act = elim (Kms.get_version s name) [
    | none ↦ reject not_found (about (bytes "CryptoKeyVersion") name (bytes " not found"))
    | some v ↦ act v
  ]

  module _ (library : KeyLibrary RsaKey EcKey) where
    unfoldable pub sign_digest : Store RsaKey EcKey → Str → Digest → Result Status Signature
    unfolding existing or_failed
    sign_digest s name digest = existing s name (λ v. elim digest [
      | no_digest ↦ reject invalid_argument (bytes "digest is required")
      | digest_of hash bits ↦
          or_failed (bytes "sign") (λ signature. record { name = name; signature = signature })
            (asymmetric_sign library s name bits hash)
    ])

    unfoldable pub get_public_key : Store RsaKey EcKey → Str → Result Status PublicKey
    unfolding existing or_failed
    get_public_key s name = existing s name (λ v.
        or_failed (bytes "get public key")
          (λ pem. record { pem = pem; algorithm = v.algorithm; name = name })
          (get_public_key_pem library s name))

  module _ (hmac : List ℕ → List ℕ) where
    unfoldable pub mac_sign : Store RsaKey EcKey → Str → List ℕ → Result Status Signature
    unfolding or_failed
    mac_sign s name text =
        or_failed (bytes "mac sign") (λ tag. record { name = name; signature = tag })
          (Kms.mac_sign hmac s name text)

    -- The bytes are compared up to the first that differs.
    unfoldable pub mac_verify :
        Store RsaKey EcKey → Str → List ℕ → List ℕ → Result Status Verification
    unfolding or_failed
    mac_verify s name text tag =
        or_failed (bytes "mac verify")
          (λ expected. record { name = name; success = str_eq expected tag })
          (Kms.mac_sign hmac s name text)
