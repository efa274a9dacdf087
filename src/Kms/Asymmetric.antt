-- ===== src/Kms/Asymmetric.antt =====
-- internal/kms/store.go: signatures and public keys. The digests, the signatures and the encoding
-- of a public key are the library's, and so parameters.
use blitzy_localgcp.Base.{
  ◌≡◌, List, ℕ, ◌++◌, ◌||◌, Option, none, some, Str, bytes, contains, lookup, Result, ok, err,
  ◌>>=◌, if◌then◌else◌,
}
use blitzy_localgcp.Kms.Data.{StoredVersion, Store}
use blitzy_localgcp.Kms.Cipher.{usable-destroy}
use blitzy_localgcp.Kms.{usable, destroy_version}

pub data Hash : Type 0 where
  sha256 sha384 sha512 : Hash

-- The hash that the name of an algorithm asks for.
hash_of : Str → Hash
hash_of alg =
    if contains alg (bytes "SHA384") || contains alg (bytes "SHA_384")
    then sha384
    else if contains alg (bytes "SHA512") || contains alg (bytes "SHA_512")
    then sha512
    else sha256

pub digest_hash : (Hash → List ℕ → List ℕ) → Str → List ℕ → Hash × List ℕ
unfolding hash_of
digest_hash digest alg input = (hash_of alg, digest (hash_of alg) input)

-- What the library does with the two kinds of key.
pub record KeyLibrary (RsaKey EcKey : Type 0) : Type 0 where
  pub sign_rsa : RsaKey → Hash → List ℕ → Result Str (List ℕ)
  pub sign_ec : EcKey → List ℕ → Result Str (List ℕ)
  pub marshal_rsa : RsaKey → Result Str (List ℕ)
  pub marshal_ec : EcKey → Result Str (List ℕ)
  pub encode_pem : List ℕ → Str

module _ {RsaKey EcKey : Type 0} (library : KeyLibrary RsaKey EcKey) where
  sign_with : Option RsaKey → Option EcKey → List ℕ → Hash → Result Str (List ℕ)
  sign_with (some key) ec digest hash = library.sign_rsa key hash digest
  sign_with none (some key) digest hash = library.sign_ec key digest
  sign_with none none digest hash = err (bytes "not an asymmetric key")

  pub asymmetric_sign : Store RsaKey EcKey → Str → List ℕ → Hash → Result Str (List ℕ)
  unfolding sign_with
  asymmetric_sign s name digest hash = do
    v ← usable s name
    sign_with v.rsa_key v.ec_key digest hash

  encoded : Result Str (List ℕ) → Result Str Str
  encoded (err e) = err (bytes "marshal public key: " ++ e)
  encoded (ok key) = ok (library.encode_pem key)

  public_key_of : Option RsaKey → Option EcKey → Result Str Str
  unfolding encoded
  public_key_of (some key) ec = encoded (library.marshal_rsa key)
  public_key_of none (some key) = encoded (library.marshal_ec key)
  public_key_of none none = err (bytes "not an asymmetric key")

  pub get_public_key_pem : Store RsaKey EcKey → Str → Result Str Str
  unfolding public_key_of
  get_public_key_pem s name = do v ← usable s name; public_key_of v.rsa_key v.ec_key

  -- A version that was destroyed signs nothing and gives no public key, whatever the library does.
  pub asymmetric-destroy :
      (s : Store RsaKey EcKey) (name : Str) (v : StoredVersion RsaKey EcKey)
      → lookup name s.versions ≡ some v
      → ((digest : List ℕ) (hash : Hash)
          → asymmetric_sign (destroy_version s name).1 name digest hash
            ≡ err (bytes "version is not enabled"))
        × (get_public_key_pem (destroy_version s name).1 name
            ≡ err (bytes "version is not enabled"))
  unfolding asymmetric_sign get_public_key_pem
  asymmetric-destroy s name v found =
      let refused = usable-destroy s name v found in
      ((λ digest hash. rw (refused, asymmetric_sign)), rw (refused, get_public_key_pem))
