-- ===== src/Firestore/Data.antt =====
-- internal/firestore/store.go: the values of the fields of a document, the store, its watchers and
-- its file. A double is its pattern of 64 bits, a time is in nanoseconds from the zero time of Go.
use blitzy_localgcp.Base.{ℕ, ℤ, List, [], ◌∷◌, Option, Bool, Str, Dict}

mutual
  -- firestorepb.Value. `no_value` is a value whose oneof is not set.
  pub data Value : Type 0 where
    null_value : Value
    boolean_value : Bool → Value
    integer_value : ℤ → Value
    double_value : ℕ → Value
    timestamp_value : ℤ → ℤ → Value
    string_value : Str → Value
    bytes_value : List ℕ → Value
    reference_value : Str → Value
    geo_point_value : ℕ → ℕ → Value
    array_value : Values → Value
    map_value : Fields → Value
    no_value : Value

  pub data Values : Type 0 where
    no_elements : Values
    element : Value → Values → Values

  pub data Fields : Type 0 where
    no_fields : Fields
    field : Str → Value → Fields → Fields

-- GetValues of an array
unfoldable pub elements : Values → List Value
elements no_elements = []
elements (element v vs) = v ∷ elements vs

-- GetFields of a map
unfoldable pub entries : Fields → Dict Value
entries no_fields = []
entries (field k v fs) = (k, v) ∷ entries fs

-- A map of fields may be nil, a time may be missing.
pub record StoredDocument : Type 0 where
  pub fields : Option (Dict Value)
  pub create_time : Option ℕ
  pub update_time : Option ℕ

-- firestorepb.Document
pub record Document : Type 0 where
  pub name : Str
  pub fields : Option (Dict Value)
  pub create_time : Option ℕ
  pub update_time : Option ℕ

pub data ChangeType : Type 0 where
  change_added : ChangeType
  change_modified : ChangeType
  change_removed : ChangeType

pub record ChangeEvent : Type 0 where
  pub doc_name : Str
  pub change_type : ChangeType
  pub doc : Option Document
  pub seq : ℕ

-- `ch` is what waits in the channel.
pub record Watcher : Type 0 where
  pub target_id : ℕ
  pub prefix : Str
  pub doc_name : Str
  pub ch : List ChangeEvent

-- The fields of a document are the text that protojson gives for them.
pub record PersistedDoc : Type 0 where
  pub name : Str
  pub fields : Str
  pub create_time : Option ℕ
  pub update_time : Option ℕ

-- A place of `change_log` that no event was written to is nil.
pub record Store : Type 0 where
  pub docs : Dict StoredDocument
  pub dir : Str
  pub watchers : List Watcher
  pub seq : ℕ
  pub change_log : List (Option ChangeEvent)
  pub log_start : ℕ
  pub log_len : ℕ
  pub disk : Option (List PersistedDoc)
