-- ===== src/CloudTasks.antt =====
-- internal/cloudtasks/store.go: the operations of the store.
pub mod Data
pub mod Persistence
pub mod Schedule
pub mod Backoff
pub mod Dispatching
pub mod Calls
pub mod Attempts
pub mod Bounded
pub mod Limits
pub mod Retries
pub mod Service
pub mod Serving
mod Requests
pub mod Examples
use blitzy_localgcp.Base.{
  ℕ, zero, suc, ◌+◌, ◌%◌, ◌^◌, List, [], ◌∷◌, ◌++◌, Option, none, some, Bool, true, false, not,
  ◌&&◌, Str, bytes, str_eq, ltb, ◌==◌, Dict, lookup, insert, erase, alter, has_key, values,
  values_under, if◌then◌else◌, Result, ok, err, format_int64, sort_by_name, select, has_prefix, ℤ,
  pos, negsuc, int_ltb, int_leb, double_int64, inc_int32, seconds, add_duration,
}
use blitzy_localgcp.CloudTasks.Data.{TaskState, pending, dispatching, completed, Queue, Task, Store}
use blitzy_localgcp.CloudTasks.Persistence.{persist}
use blitzy_localgcp.CloudTasks.Schedule.{
  or_default, TaskInput, new_task, mark_queues, collect_queues, rescheduled, exhausted,
}

-- The text of the error is left out: a handler reads in it only which of the two it is.
pub data Error : Type 0 where
  queue_exists queue_not_found task_exists task_not_found : Str → Error

abbrev pub Outcome : Type 0 → Type 0
Outcome A = Result Error A × Store

pub create_queue : Store → Str → ℤ → ℤ → ℤ → ℤ → Outcome Queue
unfolding or_default
create_queue s name max_attempts min_backoff max_backoff max_doublings =
    let q : Queue = record {
      name = name;
      max_attempts = or_default max_attempts 3;
      min_backoff_seconds = or_default min_backoff 1;
      max_backoff_seconds = or_default max_backoff 10;
      max_doublings = max_doublings;
    } in
    if has_key name s.queues then (err (queue_exists name), s) else (
      ok q,
      persist (record s { queues = insert name q s.queues; tasks = insert name [] s.tasks }),
    )

pub get_queue : Store → Str → Option Queue
get_queue s name = lookup name s.queues

pub list_queues : Store → Str → List Queue
list_queues s parent =
    sort_by_name (λ q. q.name)
      (select (λ q. has_prefix q.name (parent ++ bytes "/queues/")) (values s.queues))

pub delete_queue : Store → Str → Outcome (Unit {0})
delete_queue s name =
    if has_key name s.queues
    then (ok tt, persist (record s { queues = erase name s.queues; tasks = erase name s.tasks }))
    else (err (queue_not_found name), s)

pub purge_queue : Store → Str → Outcome (Unit {0})
purge_queue s name =
    if has_key name s.queues
    then (ok tt, persist (record s { tasks = insert name [] s.tasks }))
    else (err (queue_not_found name), s)

pub tasks_of : Store → Str → Dict Task
tasks_of s queue_name = elim (lookup queue_name s.tasks) [ none ↦ [] | some m ↦ m ]

-- The name that is given, or a name from the counter.
pub generated_name : Str → ℕ → Str
generated_name queue_name n = queue_name ++ bytes "/tasks/" ++ format_int64 n

pub chosen_name : Store → Str → Str → Str × Store
unfolding generated_name
chosen_name s queue_name task_name =
    let n = (s.counter + 1) % 2 ^ 64 in
    if str_eq task_name []
    then (generated_name queue_name n, record s { counter = n })
    else (task_name, s)

-- A write to the map of a queue that has none is a fault of Go, which `alter` does not show.
pub create_task : Store → ℕ → Str → Str → TaskInput → Outcome Task
unfolding new_task tasks_of chosen_name
create_task s now queue_name task_name input =
    let (name, t) = chosen_name s queue_name task_name in
    let task : Task = new_task now queue_name name input in
    if has_key queue_name s.queues
    then (if has_key name (tasks_of t queue_name)
        then (err (task_exists name), t)
        else (ok task, persist (record t { tasks = alter queue_name (insert name task) t.tasks })))
    else (err (queue_not_found queue_name), s)

pub get_task : Store → Str → Str → Option Task
unfolding tasks_of
get_task s queue_name task_name = lookup task_name (tasks_of s queue_name)

pub list_tasks : Store → Str → List Task
unfolding tasks_of
list_tasks s queue_name = sort_by_name (λ t. t.name) (values (tasks_of s queue_name))

pub delete_task : Store → Str → Str → Outcome (Unit {0})
delete_task s queue_name task_name = elim (lookup queue_name s.tasks) [
  | none ↦ (err (queue_not_found queue_name), s)
  | some m ↦
      if has_key task_name m
      then (ok tt, persist (record s { tasks = alter queue_name (erase task_name) s.tasks }))
      else (err (task_not_found task_name), s)
]

-- The store is not saved.
pub due_tasks : Store → ℕ → List Task × Store
unfolding mark_queues collect_queues
due_tasks s now = (collect_queues now s.tasks, record s { tasks = mark_queues now s.tasks })

pub complete_task : Store → Str → Str → Store
complete_task s queue_name task_name =
    persist (record s { tasks = alter queue_name (erase task_name) s.tasks })

-- `none` is the fault of reading the settings of a queue that is gone.
pub retry_task : Store → ℕ → Str → Str → Option (Bool × Store)
unfolding rescheduled exhausted
retry_task s now queue_name task_name = elim (lookup queue_name s.tasks) [
  | none ↦ some (false, s)
  | some m ↦ (elim (lookup task_name m) [
    | none ↦ some (false, s)
    | some t ↦ (elim (lookup queue_name s.queues) [
      | none ↦ none
      | some q ↦
          if exhausted q t
          then some
              (false, persist (record s { tasks = alter queue_name (erase task_name) s.tasks }))
          else some (
            true,
            persist (record s {
              tasks = alter queue_name (alter task_name (rescheduled now q)) s.tasks;
            }),
          )
    ])
  ])
]
