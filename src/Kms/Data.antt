-- ===== src/Kms/Data.antt =====
-- internal/kms/store.go: the records of the key store. An algorithm is the name that its
-- `String()` gives. Key pairs, their generation and their signatures are the library's.
use blitzy_localgcp.Base.{ℕ, List, Option, Str, Dict, Result}

pub data KeyState : Type 0 where
  enabled destroyed : KeyState

pub data Purpose : Type 0 where
  unspecified encrypt_decrypt asymmetric_sign asymmetric_decrypt mac : Purpose

pub record StoredKeyRing : Type 0 where
  pub name : Str
  pub create_time : ℕ

pub record StoredCryptoKey : Type 0 where
  pub name : Str
  pub purpose : Purpose
  pub algorithm : Str
  pub create_time : ℕ
  pub primary_ver : ℕ

-- `none` is nil: at most one kind of key material is set.
pub record StoredVersion (RsaKey EcKey : Type 0) : Type 0 where
  pub name : Str
  pub state : KeyState
  pub algorithm : Str
  pub create_time : ℕ
  pub sym_key : Option (List ℕ)
  pub rsa_key : Option RsaKey
  pub ec_key : Option EcKey
  pub hmac_key : Option (List ℕ)

pub record Store (RsaKey EcKey : Type 0) : Type 0 where
  pub key_rings : Dict StoredKeyRing
  pub crypto_keys : Dict StoredCryptoKey
  pub versions : Dict (StoredVersion RsaKey EcKey)
  pub next_ver : Dict ℕ

-- What the random source and the key generators return; an error is a generation that fails.
pub record Entropy (RsaKey EcKey : Type 0) : Type 0 where
  pub random_key : List ℕ
  pub rsa_generated : Result Str RsaKey
  pub ec_generated : Result Str EcKey
