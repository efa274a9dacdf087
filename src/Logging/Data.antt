-- ===== src/Logging/Data.antt =====
-- internal/logging/store.go: the records of the store. A severity is the name that its `String()`
-- gives; a page size is an int, given by its value.
use blitzy_localgcp.Base.{List, Option, Str, Dict}

pub record MonitoredResource : Type 0 where
  pub kind : Str
  pub labels : Dict Str

pub record LogEntry : Type 0 where
  pub log_name : Str
  pub severity : Str
  pub text_payload : Str
  pub resource : Option MonitoredResource
  pub labels : Dict Str

pub record Store : Type 0 where
  pub entries : List LogEntry
