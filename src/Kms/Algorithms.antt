-- ===== src/Kms/Algorithms.antt =====
-- internal/kms/store.go: the algorithms, the exclusive-or cipher and the MAC.
use Prim.Native.Nat.{bit_xor}
use blitzy_localgcp.Base.{
  ℕ, zero, suc, ◌%◌, List, [], ◌∷◌, ◌++◌, length, Option, none, some, Bool, Str, bytes, str_eq,
  has_prefix, Result, ok, err, format_int32,
}
use blitzy_localgcp.Kms.Data.{
  Purpose, unspecified, encrypt_decrypt, asymmetric_sign, asymmetric_decrypt, mac,
}

unfoldable pub symmetric_algorithm : Str
symmetric_algorithm = bytes "GOOGLE_SYMMETRIC_ENCRYPTION"

unfoldable pub unspecified_algorithm : Str
unspecified_algorithm = bytes "CRYPTO_KEY_VERSION_ALGORITHM_UNSPECIFIED"

unfoldable pub default_algorithm : Purpose → Str
unfolding symmetric_algorithm
default_algorithm encrypt_decrypt = symmetric_algorithm
default_algorithm asymmetric_sign = bytes "EC_SIGN_P256_SHA256"
default_algorithm asymmetric_decrypt = bytes "RSA_DECRYPT_OAEP_2048_SHA256"
default_algorithm mac = bytes "HMAC_SHA256"
default_algorithm unspecified = symmetric_algorithm

unfoldable pub is_symmetric : Str → Bool
unfolding symmetric_algorithm
is_symmetric alg = str_eq alg symmetric_algorithm

unfoldable pub is_rsa : Str → Bool
is_rsa alg = has_prefix alg (bytes "RSA_")

unfoldable pub is_ec : Str → Bool
is_ec alg = has_prefix alg (bytes "EC_")

unfoldable pub is_hmac : Str → Bool
is_hmac alg = has_prefix alg (bytes "HMAC_")

-- data[i] ^ key[i % len(key)], over the rest of the data, from the place `i` on. The
-- key is not empty.
unfoldable pub nth_byte : ℕ → List ℕ → ℕ
nth_byte i [] = 0
nth_byte zero (b ∷ bs) = b
nth_byte (suc i) (b ∷ bs) = nth_byte i bs

unfoldable pub xor_from : ℕ → List ℕ → List ℕ → List ℕ
unfolding nth_byte
xor_from i key [] = []
xor_from i key (d ∷ rest) = bit_xor d (nth_byte (i % length key) key) ∷ xor_from (suc i) key rest

unfoldable pub xor_crypt : List ℕ → List ℕ → List ℕ
unfolding xor_from
xor_crypt key input = xor_from 0 key input

unfoldable pub version_path : Str → ℕ → Str
version_path key_name n = key_name ++ bytes "/cryptoKeyVersions/" ++ format_int32 n

unfoldable pub number_or_zero : Option ℕ → ℕ
number_or_zero none = 0
number_or_zero (some n) = n

unfoldable pub crypt : Option (List ℕ) → List ℕ → Result Str (List ℕ)
unfolding xor_crypt
crypt none input = err (bytes "not a symmetric key")
crypt (some key) input = ok (xor_crypt key input)

-- The MAC of the data, by the hash SHA-256 of the key and the data.
unfoldable pub mac_of : (List ℕ → List ℕ) → Option (List ℕ) → List ℕ → Result Str (List ℕ)
mac_of sha256 none input = err (bytes "not a MAC key")
mac_of sha256 (some key) input = ok (sha256 (key ++ input))
