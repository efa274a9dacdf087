-- ===== src/CloudTasks/Data.antt =====
-- internal/cloudtasks/store.go: the records of the store and of its file. An int32 is given by its
-- value, a time in nanoseconds from the zero time of Go.
use blitzy_localgcp.Base.{ℕ, ℤ, List, Option, Str, Dict}

pub data TaskState : Type 0 where
  pending dispatching completed : TaskState

pub record Queue : Type 0 where
  pub name : Str
  pub max_attempts : ℤ
  pub min_backoff_seconds : ℤ
  pub max_backoff_seconds : ℤ
  pub max_doublings : ℤ

pub record Task : Type 0 where
  pub name : Str
  pub queue : Str
  pub http_url : Str
  pub http_method : Str
  pub http_body : List ℕ
  pub http_headers : Dict Str
  pub schedule_time : ℕ
  pub create_time : ℕ
  pub dispatch_count : ℤ
  pub response_count : ℤ
  pub last_attempt : ℕ
  pub state : TaskState

pub record PersistedState : Type 0 where
  pub queues : List Queue
  pub tasks : Dict (List Task)

-- `disk` is what state.json holds: `none` if there is no file, or none that can be read. The
-- counter is the pattern of an int64.
pub record Store : Type 0 where
  pub queues : Dict Queue
  pub tasks : Dict (Dict Task)
  pub counter : ℕ
  pub data_dir : Str
  pub disk : Option PersistedState
