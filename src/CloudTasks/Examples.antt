-- ===== src/CloudTasks/Examples.antt =====
-- internal/cloudtasks: a queue with one task, for the theorems of the store.
use blitzy_localgcp.CloudTasks.Persistence.{new_store}
use Prim.Native.Nat.{min}
use blitzy_localgcp.Base.{
  inc_int32, add_duration, ℕ, suc, ◌-◌, ◌*◌, ◌^◌, ◌≡◌, refl, [], ◌∷◌, none, some, bytes, lookup,
  pos, negsuc, false, arith, str_eq,
}
use blitzy_localgcp.Base.{◌≤◌, ◌<◌, ◌⊎◌, Bool, true, List, Everywhere-nil}
use blitzy_localgcp.CloudTasks.Attempts.{IsBounded}
use blitzy_localgcp.CloudTasks.Calls.{
  drop_queue, Call, add_queue, add_task, poll_due, retry, run, AllInt32,
}
use blitzy_localgcp.CloudTasks.Retries.{run-IsBounded, retry_task_lem, retry_task-run}
use blitzy_localgcp.CloudTasks.Data.{pending, dispatching, TaskState, Queue, Task, Store}
use blitzy_localgcp.CloudTasks.Schedule.{TaskInput, backoff, is_due}
use blitzy_localgcp.CloudTasks.Backoff.{backoff_lem, backoff_negative}
use blitzy_localgcp.CloudTasks.Dispatching.{Among, poll, due_tasks_due, poll_dispatching}
use blitzy_localgcp.CloudTasks.{due_tasks, get_task, retry_task}

abbrev pub the_queue : Queue
the_queue = record {
  name = bytes "q";
  max_attempts = pos 100;
  min_backoff_seconds = pos 1;
  max_backoff_seconds = pos 3600;
  max_doublings = pos 16;
}

-- A queue that doubles as often as it retries.
abbrev steep_queue : Queue
steep_queue = record the_queue { max_doublings = pos 40 }

abbrev pub task_in : TaskState → ℕ → Task
task_in state count = record {
  name = bytes "t";
  queue = bytes "q";
  http_url = bytes "http://localhost/";
  http_method = bytes "POST";
  http_body = [];
  http_headers = [];
  schedule_time = 10;
  create_time = 5;
  dispatch_count = pos count;
  response_count = pos 0;
  last_attempt = 0;
  state = state;
}

abbrev pub store_of : Task → Store
store_of t = record {
  queues = (bytes "q", the_queue) ∷ [];
  tasks = (bytes "q", (bytes "t", t) ∷ []) ∷ [];
  counter = 1;
  data_dir = [];
  disk = none;
}

pub stored : (t : Task) → get_task (store_of t) (bytes "q") (bytes "t") ≡ some t
unfolding get_task lookup str_eq bytes
stored t = refl

backoff_lem_example :
    backoff the_queue (task_in dispatching 4)
    ≡ pos (min (1 * 1000000000 * 2 ^ min 3 16) (3600 * 1000000000))
backoff_lem_example =
    backoff_lem the_queue (task_in dispatching 4) 3 1 3600 16 refl refl refl refl (omega arith)

backoff_negative_example :
    backoff steep_queue (task_in dispatching 35) ≡ negsuc (2 ^ 64 - 1 * 1000000000 * 2 ^ suc 33 - 1)
backoff_negative_example =
    backoff_negative steep_queue (task_in dispatching 35) 34 1 3600 40 33 refl refl refl refl refl
      (omega arith) (omega arith)

due_tasks_due_example :
    let d : Task = record (task_in pending 0) {
      state = dispatching;
      dispatch_count = inc_int32 (pos 0);
      last_attempt = 20;
    } in
    Among d (due_tasks (store_of (task_in pending 0)) 20).0
    × (get_task (due_tasks (store_of (task_in pending 0)) 20).1 (bytes "q") (bytes "t") ≡ some d)
    × ((later : ℕ) → is_due later d ≡ false)
due_tasks_due_example =
    due_tasks_due (store_of (task_in pending 0)) 20 (bytes "q") (bytes "t") (task_in pending 0)
      (stored (task_in pending 0)) refl (omega arith)

poll_dispatching_example :
    get_task (poll (store_of (task_in dispatching 1)) (20 ∷ 30 ∷ [])) (bytes "q") (bytes "t")
    ≡ some (task_in dispatching 1)
poll_dispatching_example =
    poll_dispatching (store_of (task_in dispatching 1)) (20 ∷ 30 ∷ []) (bytes "q") (bytes "t")
      (task_in dispatching 1) (stored (task_in dispatching 1)) refl

abbrev empty_store : Store
empty_store = record { queues = []; tasks = []; counter = 0; data_dir = []; disk = none }

empty_store-IsBounded : IsBounded empty_store
empty_store-IsBounded = record { queues_fit = Everywhere-nil; all_fit = Everywhere-nil }

abbrev the_input : TaskInput
the_input = record {
  http_url = bytes "http://localhost/";
  http_method = [];
  body = [];
  headers = [];
  schedule_time = 0;
}

-- A queue with two attempts, a task, and a first attempt that fails.
abbrev the_calls : List Call
the_calls =
    add_queue (bytes "q") (pos 2) (pos 1) (pos 5) (pos 3)
    ∷ add_task 10 (bytes "q") (bytes "t") the_input
    ∷ poll_due 20
    ∷ retry 25 (bytes "q") (bytes "t")
    ∷ []

the_calls-AllInt32 : AllInt32 the_calls
the_calls-AllInt32 = (omega arith, (tt, (tt, (tt, tt))))

run-IsBounded_example : IsBounded (run empty_store the_calls)
run-IsBounded_example = run-IsBounded empty_store the_calls the_calls-AllInt32 empty_store-IsBounded

-- The queue of a task that is still to be retried is deleted.
abbrev more_calls : List Call
more_calls =
    add_queue (bytes "q") (pos 2) (pos 1) (pos 5) (pos 3)
    ∷ add_task 10 (bytes "q") (bytes "t") the_input
    ∷ poll_due 20
    ∷ drop_queue (bytes "q")
    ∷ []

more_calls-AllInt32 : AllInt32 more_calls
more_calls-AllInt32 = (omega arith, (tt, (tt, (tt, tt))))

retry_task-run_example :
    let s = run (new_store [] none) more_calls in
    (again : Bool) × (u : Store) × (retry_task s 30 (bytes "q") (bytes "t") ≡ some (again, u))
retry_task-run_example = retry_task-run [] more_calls 30 (bytes "q") (bytes "t") more_calls-AllInt32

the_queue_stands : lookup (bytes "q") (store_of (task_in dispatching 1)).queues ≡ some the_queue
unfolding lookup str_eq bytes
the_queue_stands = refl

retry_task_lem_example :
    (u : Store) × (((0 < 100)
        × (100 ≤ 1)
        × (retry_task (store_of (task_in dispatching 1)) 30 (bytes "q") (bytes "t")
            ≡ some (false, u))
        × (get_task u (bytes "q") (bytes "t") ≡ none))
      ⊎ ((◌≡◌ {A = ℕ} 100 0 ⊎ (1 < 100))
          × (retry_task (store_of (task_in dispatching 1)) 30 (bytes "q") (bytes "t")
              ≡ some (true, u))
          × (get_task u (bytes "q") (bytes "t")
              ≡ some (record (task_in dispatching 1) {
                schedule_time = add_duration 30 (backoff the_queue (task_in dispatching 1));
                state = pending;
              }))))
retry_task_lem_example =
    retry_task_lem (store_of (task_in dispatching 1)) 30 (bytes "q") (bytes "t") the_queue
      (task_in dispatching 1) 1 100 the_queue_stands (stored (task_in dispatching 1)) refl refl
