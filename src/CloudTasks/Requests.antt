-- ===== src/CloudTasks/Requests.antt =====
-- Requests and a server, for the theorems on the handlers of Cloud Tasks.
use blitzy_localgcp.Base.{
  ◌≡◌, refl, [], ◌∷◌, none, some, bytes, contains, lookup, has_key, str_eq, true, false, ok, arith,
}
use blitzy_localgcp.Dispatch.{Environment, answered, is_success}
use blitzy_localgcp.CloudTasks.Data.{Store, pending}
use blitzy_localgcp.CloudTasks.Schedule.{dispatched}
use blitzy_localgcp.CloudTasks.Dispatching.{Among}
use blitzy_localgcp.CloudTasks.Examples.{store_of, task_in, stored}
use blitzy_localgcp.CloudTasks.Service
use blitzy_localgcp.CloudTasks.Service.{dispatch_task, HttpRequest, TaskMessage, TaskAnswer}
use blitzy_localgcp.CloudTasks.Serving.{due_task_served, get_task-create_task}
use blitzy_localgcp.CloudTasks.{due_tasks, get_task, generated_name}

abbrev good_server : Environment
good_server = record { builds = true; cancelled = λ n. false; post = λ n. answered 200 }

due_task_served_example :
    let t = task_in pending 0 in
    let (tasks, u) = due_tasks (store_of t) 20 in
    Among (dispatched 20 t) tasks
    × ((v : Store) × (dispatch_task good_server u 21 (dispatched 20 t) ≡ some v)
        × (get_task v (bytes "q") (bytes "t") ≡ none))
due_task_served_example =
    due_task_served (store_of (task_in pending 0)) 20 21 (task_in pending 0) good_server 200
      (stored (task_in pending 0)) refl (omega arith) refl refl (unfold is_success in refl)

abbrev the_request : HttpRequest
the_request = record {
  url = bytes "http://localhost/";
  http_method = bytes "POST";
  body = [];
  headers = [];
}

abbrev the_message : TaskMessage
the_message = record { name = []; schedule_time = none; http_request = some the_request }

get_task-create_task_example :
    let (answer, t) =
      Service.create_task
        (λ x. x)
        (store_of (task_in pending 0))
        20
        (bytes "q")
        (some the_message) in
    (a : TaskAnswer) × (answer ≡ ok a) × (Service.get_task (λ x. x) t a.name ≡ (ok a, t))
unfolding generated_name
get_task-create_task_example =
    get_task-create_task (λ x. x) (store_of (task_in pending 0)) 20 (bytes "q") none the_request
      ((bytes "t", task_in pending 0) ∷ []) (unfold str_eq bytes in refl)
      (unfold str_eq bytes in refl) (unfold contains bytes in refl)
      (unfold has_key str_eq bytes in refl) (unfold lookup str_eq bytes in refl)
      (unfold has_key str_eq bytes in refl)
