-- ===== src/Gcs/Data.antt =====
-- internal/gcs/store.go: the buckets, the objects and the file. A time is its text.
use blitzy_localgcp.Base.{ℕ, List, Option, Str, Dict}

pub record Bucket : Type 0 where
  pub kind : Str
  pub id : Str
  pub name : Str
  pub location : Str
  pub storage_class : Str
  pub time_created : Str
  pub updated : Str
  pub etag : Str

pub record Object : Type 0 where
  pub kind : Str
  pub id : Str
  pub name : Str
  pub bucket : Str
  pub size : Str
  pub content_type : Str
  pub time_created : Str
  pub updated : Str
  pub md5_hash : Str
  pub crc32c : Str
  pub etag : Str
  pub content_encoding : Str

pub record StoredObject : Type 0 where
  pub meta : Object
  pub content : List ℕ

pub record PersistedObj : Type 0 where
  pub meta : Object
  pub content : Str

pub record PersistedState : Type 0 where
  pub buckets : List Bucket
  pub objects : Dict (List PersistedObj)

-- The counter of the tags is a variable of the package.
pub record Store : Type 0 where
  pub buckets : Dict Bucket
  pub objects : Dict (Dict StoredObject)
  pub data_dir : Str
  pub etag_counter : ℕ
  pub disk : Option PersistedState
