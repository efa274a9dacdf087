-- ===== src/Kms/Examples.antt =====
-- internal/kms: a store with one symmetric key, for the theorems of the key store.
use blitzy_localgcp.Base.{
  ℕ, ◌≡◌, ◌≢◌, refl, List, [], ◌∷◌, length, none, some, ok, err, Str, bytes, lookup, str_eq, insert,
  has_key, erase, has_prefix,
}
use blitzy_localgcp.Kms.Data.{
  enabled, encrypt_decrypt, asymmetric_decrypt, StoredCryptoKey, StoredVersion, Store, Entropy,
}
use blitzy_localgcp.Kms.Asymmetric.{
  Hash, KeyLibrary, asymmetric_sign, get_public_key_pem, asymmetric-destroy,
}
use blitzy_localgcp.Kms.Cipher.{decrypt-encrypt, destroy_version_lem}
use blitzy_localgcp.Kms.Keys.{create_crypto_key_fails}
use blitzy_localgcp.Kms.{create_crypto_key, encrypt, decrypt, mac_sign, destroy_version}

abbrev the_key : Str
the_key = bytes "k"

abbrev the_version : Str
the_version = bytes "k/cryptoKeyVersions/1"

abbrev KmsStore : Type 0
KmsStore = Store ℕ ℕ

-- A random source that gives a key of three bytes, and an RSA generator that fails.
abbrev the_entropy : Entropy ℕ ℕ
the_entropy = record {
  random_key = 1 ∷ 2 ∷ 3 ∷ [];
  rsa_generated = err (bytes "no entropy");
  ec_generated = ok 5;
}

abbrev made_version : StoredVersion ℕ ℕ
made_version = record {
  name = the_version;
  state = enabled;
  algorithm = bytes "GOOGLE_SYMMETRIC_ENCRYPTION";
  create_time = 4;
  sym_key = some (1 ∷ 2 ∷ 3 ∷ []);
  rsa_key = none;
  ec_key = none;
  hmac_key = none;
}

abbrev made_key : StoredCryptoKey
made_key = record {
  name = the_key;
  purpose = encrypt_decrypt;
  algorithm = bytes "GOOGLE_SYMMETRIC_ENCRYPTION";
  create_time = 4;
  primary_ver = 1;
}

abbrev made_store : KmsStore
made_store = record {
  key_rings = [];
  crypto_keys = (the_key, made_key) ∷ [];
  versions = (the_version, made_version) ∷ [];
  next_ver = (the_key, 2) ∷ [];
}

abbrev empty_store : KmsStore
empty_store = record { key_rings = []; crypto_keys = []; versions = []; next_ver = [] }

-- The store after a creation whose RSA key could not be generated.
abbrev failed_store : KmsStore
failed_store = record made_store { next_ver = (the_key, 2) ∷ (bytes "r", 2) ∷ [] }

rsa_failed :
    create_crypto_key made_store the_entropy 4
      (bytes "r")
      asymmetric_decrypt
      (bytes "RSA_DECRYPT_OAEP_2048_SHA256")
    ≡ (err (bytes "generate RSA key: no entropy"), failed_store)
unfolding create_crypto_key has_key str_eq bytes has_prefix erase insert lookup
rsa_failed = refl

create_crypto_key_fails_example :
    ((k : Str) → lookup k failed_store.crypto_keys ≡ lookup k made_store.crypto_keys)
    × (failed_store.versions ≡ made_store.versions)
    × (failed_store.key_rings ≡ made_store.key_rings)
create_crypto_key_fails_example =
    create_crypto_key_fails made_store failed_store the_entropy 4 (bytes "r") asymmetric_decrypt
      (bytes "RSA_DECRYPT_OAEP_2048_SHA256") (bytes "generate RSA key: no entropy") rsa_failed

made_encrypted : encrypt made_store the_version (9 ∷ 9 ∷ 9 ∷ 9 ∷ []) ≡ ok (8 ∷ 11 ∷ 10 ∷ 8 ∷ [])
unfolding encrypt lookup str_eq bytes
made_encrypted = refl

decrypt-encrypt_example :
    (decrypt made_store the_version (8 ∷ 11 ∷ 10 ∷ 8 ∷ []) ≡ ok (9 ∷ 9 ∷ 9 ∷ 9 ∷ []))
    × (length {A = ℕ} (8 ∷ 11 ∷ 10 ∷ 8 ∷ []) ≡ length {A = ℕ} (9 ∷ 9 ∷ 9 ∷ 9 ∷ []))
decrypt-encrypt_example =
    decrypt-encrypt made_store the_version (9 ∷ 9 ∷ 9 ∷ 9 ∷ []) (8 ∷ 11 ∷ 10 ∷ 8 ∷ [])
      made_encrypted

made_found : lookup the_version made_store.versions ≡ some made_version
unfolding lookup str_eq bytes
made_found = refl

-- A digest that keeps the first byte.
abbrev some_digest : List ℕ → List ℕ
some_digest [] = 0 ∷ []
some_digest (b ∷ bs) = b ∷ []

destroy_version_lem_example :
    ((input : List ℕ)
      → (encrypt (destroy_version made_store the_version).1 the_version input
          ≡ err (bytes "version is not enabled"))
        × (decrypt (destroy_version made_store the_version).1 the_version input
            ≡ err (bytes "version is not enabled"))
        × (mac_sign some_digest (destroy_version made_store the_version).1 the_version input
            ≡ err (bytes "version is not enabled")))
    × ((other : Str)
        → the_version ≢ other
        → lookup other (destroy_version made_store the_version).1.versions
          ≡ lookup other made_store.versions)
destroy_version_lem_example =
    destroy_version_lem some_digest made_store the_version made_version made_found

-- A library that signs with the first byte of a digest and fails for RSA keys.
abbrev some_library : KeyLibrary ℕ ℕ
some_library = record {
  sign_rsa = λ key hash digest. err (bytes "no RSA");
  sign_ec = λ key digest. ok (key ∷ some_digest digest);
  marshal_rsa = λ key. err (bytes "no RSA");
  marshal_ec = λ key. ok (key ∷ []);
  encode_pem = λ key. key;
}

asymmetric-destroy_example :
    ((digest : List ℕ) (hash : Hash)
      → asymmetric_sign some_library
          (destroy_version made_store the_version).1
          the_version
          digest
          hash
        ≡ err (bytes "version is not enabled"))
    × (get_public_key_pem some_library (destroy_version made_store the_version).1 the_version
        ≡ err (bytes "version is not enabled"))
asymmetric-destroy_example =
    asymmetric-destroy some_library made_store the_version made_version made_found
