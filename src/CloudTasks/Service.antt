-- ===== src/CloudTasks/Service.antt =====
-- internal/cloudtasks/service.go: the gRPC handlers, and what is done with a task that is due. An
-- empty text stands for a field that the request leaves out.
use blitzy_localgcp.Base.{
  ℕ, List, [], ◌++◌, map, Option, none, some, ◌||◌, ◌&&◌, Str, bytes, str_eq, text_before, contains,
  Dict, if◌then◌else◌, Result, ok, err, ℤ, pos, int_ltb, to_int32,
}
use blitzy_localgcp.Base.Status.{
  Code, Status, invalid_argument, not_found, already_exists, internal, reject,
}
use blitzy_localgcp.CloudTasks.Data.{Queue, Task, Store}
use blitzy_localgcp.CloudTasks.Schedule.{TaskInput}
use blitzy_localgcp.CloudTasks
use blitzy_localgcp.CloudTasks.{
  Error, queue_exists, queue_not_found, task_exists, task_not_found, complete_task, retry_task,
}
use blitzy_localgcp.Dispatch.{Config, Environment, Result as Dispatched, dispatch}

-- The dispatcher makes one attempt: the store counts the retries.
abbrev pub single_attempt : Config
single_attempt = record {
  max_retries = pos 0;
  initial_backoff = pos 0;
  next_backoff = λ backoff. pos 0;
}

-- `none`: a fault of the store, or a dispatch that does not end.
unfoldable pub after_dispatch : Store → ℕ → Task → Option Dispatched → Option Store
after_dispatch s now t none = none
after_dispatch s now t (some result) = elim result.failure [
  | none ↦ some (complete_task s t.queue t.name)
  | some failure ↦ (elim (retry_task s now t.queue t.name) [
    | none ↦ none
    | some (again, u) ↦ some u
  ])
]

unfoldable pub dispatch_task : Environment → Store → ℕ → Task → Option Store
unfolding after_dispatch
dispatch_task env s now t = after_dispatch s now t (dispatch single_attempt env)

unfoldable pub queue_from_task_name : Str → Str
unfolding text_before
queue_from_task_name name = elim (text_before (bytes "/tasks/") name) [ none ↦ [] | some w ↦ w ]

pub record RetryConfig : Type 0 where
  pub max_attempts : ℤ
  pub min_backoff : Option ℤ
  pub max_backoff : Option ℤ
  pub max_doublings : ℤ

pub record QueueMessage : Type 0 where
  pub name : Str
  pub retry_config : Option RetryConfig

pub record HttpRequest : Type 0 where
  pub url : Str
  pub http_method : Str
  pub body : List ℕ
  pub headers : Dict Str

pub record TaskMessage : Type 0 where
  pub name : Str
  pub schedule_time : Option ℕ
  pub http_request : Option HttpRequest

pub data HttpMethod : Type 0 where
  post get put delete patch : HttpMethod

pub record HttpAnswer : Type 0 where
  pub url : Str
  pub http_method : HttpMethod
  pub body : List ℕ
  pub headers : Dict Str

pub record TaskAnswer : Type 0 where
  pub name : Str
  pub schedule_time : ℕ
  pub create_time : ℕ
  pub dispatch_count : ℤ
  pub response_count : ℤ
  pub http_request : Option HttpAnswer

abbrev pub positive : ℤ → Option ℤ
positive n = if int_ltb (pos 0) n then some n else none

unfoldable pub queue_to_proto : Queue → QueueMessage
queue_to_proto q = record {
  name = q.name;
  retry_config =
      if int_ltb (pos 0) q.max_attempts
        || int_ltb (pos 0) q.min_backoff_seconds
        || int_ltb (pos 0) q.max_backoff_seconds
      then some (record {
        max_attempts = q.max_attempts;
        min_backoff = positive q.min_backoff_seconds;
        max_backoff = positive q.max_backoff_seconds;
        max_doublings = q.max_doublings;
      })
      else none;
}

unfoldable pub method_of : Str → HttpMethod
method_of method =
    if str_eq method (bytes "GET")
    then get
    else (if str_eq method (bytes "PUT")
        then put
        else (if str_eq method (bytes "DELETE")
            then delete
            else (if str_eq method (bytes "PATCH") then patch else post)))

unfoldable pub task_to_proto : Task → TaskAnswer
unfolding method_of
task_to_proto t = record {
  name = t.name;
  schedule_time = t.schedule_time;
  create_time = t.create_time;
  dispatch_count = t.dispatch_count;
  response_count = t.response_count;
  http_request =
      if str_eq t.http_url []
      then none
      else some (record {
        url = t.http_url;
        http_method = method_of t.http_method;
        body = t.http_body;
        headers = t.http_headers;
      });
}

abbrev pub Reply : Type 0 → Type 0
Reply A = Result Status A × Store

-- `quote` is the verb %q of fmt.
module _ (quote : Str → Str) where
  unfoldable pub error_text : Error → Str
  error_text (queue_exists name) = bytes "already exists: queue " ++ quote name
  error_text (queue_not_found name) = bytes "not found: queue " ++ quote name
  error_text (task_exists name) = bytes "already exists: task " ++ quote name
  error_text (task_not_found name) = bytes "not found: task " ++ quote name

  unfoldable pub exists_or_internal : Str → Code
  exists_or_internal text =
      if contains text (bytes "already exists") then already_exists else internal

  unfoldable pub missing_or_internal : Str → Code
  missing_or_internal text = if contains text (bytes "not found") then not_found else internal

  unfoldable pub exists_or_missing : Str → Code
  unfolding missing_or_internal
  exists_or_missing text =
      if contains text (bytes "already exists") then already_exists else missing_or_internal text

  abbrev pub answer : {A B : Type 0} → (Str → Code) → (A → B) → Result Error A × Store → Reply B
  answer code f (ok a, s) = (ok (f a), s)
  answer code f (err e, s) = (reject (code (error_text e)) (error_text e), s)

  unfoldable pub create_queue : Store → Str → Option QueueMessage → Reply QueueMessage
  unfolding exists_or_internal queue_to_proto
  create_queue s parent request =
      let name : Str = elim request [ none ↦ [] | some q ↦ q.name ] in
      let config : Option RetryConfig = elim request [ none ↦ none | some q ↦ q.retry_config ] in
      let seconds : Option ℤ → ℤ = λ d. elim d [ none ↦ pos 0 | some n ↦ to_int32 n ] in
      if str_eq name [] && str_eq parent []
      then (reject invalid_argument (bytes "parent is required"), s)
      else (if str_eq name []
          then (reject invalid_argument (bytes "queue name is required"), s)
          else answer exists_or_internal queue_to_proto (elim config [
            | none ↦ CloudTasks.create_queue s name (pos 0) (pos 0) (pos 0) (pos 0)
            | some rc ↦
                CloudTasks.create_queue s name rc.max_attempts (seconds rc.min_backoff)
                  (seconds rc.max_backoff) rc.max_doublings
          ]))

  unfoldable pub get_queue : Store → Str → Reply QueueMessage
  unfolding queue_to_proto
  get_queue s name = elim (CloudTasks.get_queue s name) [
    | none ↦ (reject not_found (bytes "queue " ++ quote name ++ bytes " not found"), s)
    | some q ↦ (ok (queue_to_proto q), s)
  ]

  unfoldable pub list_queues : Store → Str → List QueueMessage
  unfolding queue_to_proto
  list_queues s parent = map queue_to_proto (CloudTasks.list_queues s parent)

  unfoldable pub delete_queue : Store → Str → Reply (Unit {0})
  unfolding missing_or_internal
  delete_queue s name = answer missing_or_internal (λ u. u) (CloudTasks.delete_queue s name)

  -- A queue that is gone again is a fault, given by `none`.
  unfoldable pub purge_queue : Store → Str → Reply (Option QueueMessage)
  unfolding missing_or_internal queue_to_proto
  purge_queue s name =
      let (result, t) = CloudTasks.purge_queue s name in
      let found : Option QueueMessage = elim (CloudTasks.get_queue t name) [
        | none ↦ none
        | some q ↦ some (queue_to_proto q)
      ] in
      answer missing_or_internal (λ u. found) (result, t)

  abbrev pub no_request : HttpRequest
  no_request = record { url = []; http_method = []; body = []; headers = [] }

  unfoldable pub create_task : Store → ℕ → Str → Option TaskMessage → Reply TaskAnswer
  unfolding exists_or_missing task_to_proto
  create_task s now queue_name request =
      let name : Str = elim request [ none ↦ [] | some t ↦ t.name ] in
      let time : Option ℕ = elim request [ none ↦ none | some t ↦ t.schedule_time ] in
      let given : Option HttpRequest = elim request [ none ↦ none | some t ↦ t.http_request ] in
      let http : HttpRequest = elim given [ none ↦ no_request | some h ↦ h ] in
      let input : TaskInput = record {
        http_url = http.url;
        http_method = http.http_method;
        body = http.body;
        headers = http.headers;
        schedule_time = elim time [ none ↦ 0 | some x ↦ x ];
      } in
      if str_eq queue_name []
      then (reject invalid_argument (bytes "parent (queue) is required"), s)
      else (if str_eq http.url []
          then (reject invalid_argument (bytes "task must have an http_request with url"), s)
          else answer exists_or_missing task_to_proto
              (CloudTasks.create_task s now queue_name name input))

  unfoldable pub get_task : Store → Str → Reply TaskAnswer
  unfolding queue_from_task_name task_to_proto
  get_task s name = elim (CloudTasks.get_task s (queue_from_task_name name) name) [
    | none ↦ (reject not_found (bytes "task " ++ quote name ++ bytes " not found"), s)
    | some t ↦ (ok (task_to_proto t), s)
  ]

  unfoldable pub list_tasks : Store → Str → List TaskAnswer
  unfolding task_to_proto
  list_tasks s parent = map task_to_proto (CloudTasks.list_tasks s parent)

  unfoldable pub delete_task : Store → Str → Reply (Unit {0})
  unfolding missing_or_internal queue_from_task_name
  delete_task s name =
      answer missing_or_internal (λ u. u)
        (CloudTasks.delete_task s (queue_from_task_name name) name)
