-- ===== src/CloudTasks/Calls.antt =====
-- internal/cloudtasks/store.go: a history of the store, as the calls that may write.
use blitzy_localgcp.Base.{ℕ, ◌<◌, ◌^◌, List, [], ◌∷◌, Option, none, some, Bool, Str, ℤ, pos, negsuc}
use blitzy_localgcp.CloudTasks.Data.{Store}
use blitzy_localgcp.CloudTasks.Schedule.{TaskInput}
use blitzy_localgcp.CloudTasks.{
  create_queue, delete_queue, purge_queue, create_task, delete_task, due_tasks, complete_task,
  retry_task,
}

-- A call of the store that may write.
pub data Call : Type 0 where
  add_queue : Str → ℤ → ℤ → ℤ → ℤ → Call
  drop_queue purge : Str → Call
  add_task : ℕ → Str → Str → TaskInput → Call
  drop_task : Str → Str → Call
  poll_due : ℕ → Call
  complete : Str → Str → Call
  retry : ℕ → Str → Str → Call

-- The store after a retry; a fault leaves it as it was.
abbrev pub after_retry : Store → Option (Bool × Store) → Store
after_retry s none = s
after_retry s (some (again, t)) = t

abbrev pub step : Store → Call → Store
step s (add_queue name attempts shortest longest doublings) =
    (create_queue s name attempts shortest longest doublings).1
step s (drop_queue name) = (delete_queue s name).1
step s (purge name) = (purge_queue s name).1
step s (add_task now queue_name task_name input) = (create_task s now queue_name task_name input).1
step s (drop_task queue_name task_name) = (delete_task s queue_name task_name).1
step s (poll_due now) = (due_tasks s now).1
step s (complete queue_name task_name) = complete_task s queue_name task_name
step s (retry now queue_name task_name) = after_retry s (retry_task s now queue_name task_name)

abbrev pub run : Store → List Call → Store
run s [] = s
run s (c ∷ cs) = run (step s c) cs

-- An int32 that is not negative is below 2 ^ 31.
abbrev pub IsInt32 : ℤ → Type 0
IsInt32 (pos n) = n < 2 ^ 31
IsInt32 (negsuc n) = n < 2 ^ 31

-- The numbers of attempts that the calls give are int32.
abbrev pub HasInt32 : Call → Type 0
HasInt32 (add_queue name attempts shortest longest doublings) = IsInt32 attempts
HasInt32 _ = Unit {0}

abbrev pub AllInt32 : List Call → Type 0
AllInt32 [] = Unit {0}
AllInt32 (c ∷ cs) = HasInt32 c × AllInt32 cs
