-- ===== src/SecretManager/Data.antt =====
-- internal/secretmanager/store.go: the records of the store and of its file. Times are
-- nanoseconds, given by the caller; an int32 is its pattern below 2 ^ 32.
use blitzy_localgcp.Base.{ℕ, List, Option, Str, Dict}

pub data VersionState : Type 0 where
  unspecified enabled disabled destroyed : VersionState

pub record SecretVersion : Type 0 where
  pub name : Str
  pub create_time : ℕ
  pub state : VersionState
  pub destroy_time : Option ℕ

-- The payload is `none` (nil) once destroyed.
pub record VersionData : Type 0 where
  pub version : SecretVersion
  pub payload : Option (List ℕ)

pub record Secret : Type 0 where
  pub name : Str
  pub create_time : ℕ
  pub labels : Dict Str

pub record SecretData : Type 0 where
  pub secret : Secret
  pub versions : List VersionData
  pub next_version : ℕ

pub record PersistedVersion : Type 0 where
  pub name : Str
  pub create_time : ℕ
  pub state : VersionState
  pub destroy_time : ℕ
  pub payload : Str

pub record PersistedSecret : Type 0 where
  pub name : Str
  pub create_time : ℕ
  pub labels : Dict Str
  pub versions : List PersistedVersion
  pub next_version : ℕ

pub record PersistedState : Type 0 where
  pub secrets : List PersistedSecret

-- `disk` is what state.json holds: `none` if there is no file, or none that can be read.
pub record Store : Type 0 where
  pub secrets : Dict SecretData
  pub data_dir : Str
  pub disk : Option PersistedState
