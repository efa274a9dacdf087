-- ===== src/CloudTasks/Serving.antt =====
-- internal/cloudtasks/service.go: a task on its way through the handlers and the dispatcher.
use blitzy_localgcp.Base.{
  ℕ, ◌+◌, ◌%◌, ◌^◌, ◌≤◌, ◌≡◌, refl, sym, ap, ◌∙◌, [], ◌∷◌, ◌++◌, length, length-append,
  append_assoc, Option, none, some, true, false, arith, Str, bytes, str_eq, has_prefix,
  has_prefix-append, text_before, contains, Dict, lookup, alter, erase, insert, lookup-erase_self,
  lookup-insert_self, has_key, ok, pos, format_int64,
}
use blitzy_localgcp.Dispatch.{
  attempt_of, succ_int, Environment, answered, is_success, attempt_from, enough, dispatch,
}
use blitzy_localgcp.CloudTasks.Data.{Task, Store, pending}
use blitzy_localgcp.CloudTasks.Schedule.{TaskInput, new_task, dispatched}
use blitzy_localgcp.CloudTasks.Dispatching.{Among, get_task-cases, due_tasks_due}
use blitzy_localgcp.CloudTasks.Persistence.{persist}
use blitzy_localgcp.CloudTasks.Retries.{get_task-alter}
use blitzy_localgcp.CloudTasks.{
  due_tasks, complete_task, get_task, tasks_of, create_task, chosen_name, generated_name,
}
use blitzy_localgcp.CloudTasks.Service
use blitzy_localgcp.CloudTasks.Service.{
  HttpRequest, TaskMessage, TaskAnswer, single_attempt, after_dispatch, dispatch_task,
  queue_from_task_name,
}

single_success :
    (env : Environment) (code : ℕ)
    → env.builds ≡ true
    → env.post 0 ≡ answered code
    → is_success code ≡ true
    → dispatch single_attempt env
      ≡ some (record { status_code = code; attempts = pos 1; failure = none; slept = [] })
unfolding dispatch enough attempt_from attempt_of succ_int
single_success env code b p s = rw (b, p, s) refl

complete_task-removes :
    (s : Store) (q k : Str) (t : Task)
    → get_task s q k ≡ some t
    → get_task (complete_task s q k) q k ≡ none
unfolding complete_task
complete_task-removes s q k t h =
    let (m, e, g) = get_task-cases s q k t h in
    get_task-alter s q k m (erase k) e ∙ lookup-erase_self k m

-- A pending task whose time has come is handed out by the poll; and if the server answers its POST
-- with a 2xx status, the task is gone from the store behind that dispatch.
pub due_task_served :
    (s : Store) (now later : ℕ) (t : Task) (env : Environment) (code : ℕ)
    → get_task s t.queue t.name ≡ some t
    → t.state ≡ pending
    → t.schedule_time ≤ now
    → env.builds ≡ true
    → env.post 0 ≡ answered code
    → is_success code ≡ true
    → let (tasks, u) = due_tasks s now in
      Among (dispatched now t) tasks
      × ((v : Store) × (dispatch_task env u later (dispatched now t) ≡ some v)
          × (get_task v t.queue t.name ≡ none))
unfolding dispatch_task after_dispatch dispatched
due_task_served s now later t env code h p ready b answer success =
    let (among, held, _) = due_tasks_due s now t.queue t.name t h p ready in
    (
      among,
      (
        _,
        ap (after_dispatch (due_tasks s now).1 later (dispatched now t))
            (single_success env code b answer success),
        complete_task-removes (due_tasks s now).1 t.queue t.name (dispatched now t) held,
      ),
    )

-- The test of a prefix looks no further than its length.
has_prefix-extend : (p s t : Str) → length p ≤ length s → has_prefix (s ++ t) p ≡ has_prefix s p
unfolding has_prefix
has_prefix-extend [] s t h = refl
has_prefix-extend (x ∷ p) [] t h = absurd (omega (arith, h))
has_prefix-extend (x ∷ p) (y ∷ s) t h = rw (has_prefix-extend p s t (omega arith)) refl

text_before-here : (p s : Str) → has_prefix s p ≡ true → text_before p s ≡ some []
unfolding text_before
text_before-here p [] h = rw h refl
text_before-here p (x ∷ s) h = rw h refl

text_before-later :
    (p : Str) (x : ℕ) (s q : Str)
    → has_prefix (x ∷ s) p ≡ false
    → text_before p s ≡ some q
    → text_before p (x ∷ s) ≡ some (x ∷ q)
unfolding text_before
text_before-later p x s q h found = rw (h, found) refl

contains-tail :
    (p : Str) (x : ℕ) (s : Str)
    → contains (x ∷ s) p ≡ false
    → (has_prefix (x ∷ s) p ≡ false) × (contains s p ≡ false)
unfolding contains
contains-tail p x s h = ground (arith, h)

-- The text before the first `start` that ends in `b`, if the text with all of it but `b` has none.
text_before-first :
    (start : Str) (b : ℕ) (q w : Str)
    → contains (q ++ start) (start ++ b ∷ []) ≡ false
    → text_before (start ++ b ∷ []) (q ++ (start ++ b ∷ w)) ≡ some q
text_before-first start b [] w h = text_before-here (start ++ b ∷ []) (start ++ b ∷ w) (
    ap (λ s. has_prefix s (start ++ b ∷ [])) (sym (append_assoc start (b ∷ []) w))
    ∙ has_prefix-append (start ++ b ∷ []) w)
text_before-first start b (x ∷ q) w h =
    let found =
      text_before-first start b q w (contains-tail (start ++ b ∷ []) x (q ++ start) h).1 in
    let (here, _) = contains-tail (start ++ b ∷ []) x (q ++ start) h in
    let long : length (start ++ b ∷ []) ≤ length (x ∷ q ++ start) =
      omega (arith, length-append start (b ∷ []), length-append q start) in
    let first : has_prefix (x ∷ q ++ (start ++ b ∷ w)) (start ++ b ∷ []) ≡ false =
      ap (λ s. has_prefix (x ∷ s) (start ++ b ∷ [])) (sym (append_assoc q start (b ∷ w)))
      ∙ has_prefix-extend (start ++ b ∷ []) (x ∷ q ++ start) (b ∷ w) long
      ∙ here in
    text_before-later (start ++ b ∷ []) x (q ++ (start ++ b ∷ w)) q first found

queue_from_task_name-task :
    (q w : Str)
    → contains (q ++ bytes "/tasks") (bytes "/tasks/") ≡ false
    → queue_from_task_name (q ++ bytes "/tasks/" ++ w) ≡ q
unfolding queue_from_task_name bytes
queue_from_task_name-task q w h =
    rw
      (
        queue_from_task_name,
        ap (text_before (bytes "/tasks/")) (append_assoc q (bytes "/tasks/") w)
            ∙ text_before-first (bytes "/tasks") 47 q w h,
      )
      refl

module _ (quote : Str → Str) (s : Store) (now : ℕ) (queue_name : Str) (time : Option ℕ)
    (http : HttpRequest) (m : Dict Task) where
  abbrev unnamed : TaskMessage
  unnamed = record { name = []; schedule_time = time; http_request = some http }

  abbrev next_name : Str
  next_name = generated_name queue_name ((s.counter + 1) % 2 ^ 64)

  abbrev the_input : TaskInput
  the_input = record {
    http_url = http.url;
    http_method = http.http_method;
    body = http.body;
    headers = http.headers;
    schedule_time = elim time [ none ↦ 0 | some x ↦ x ];
  }

  abbrev the_task : Task
  unfolding new_task
  the_task = new_task now queue_name next_name the_input

  abbrev the_store : Store
  the_store = persist (record s {
    counter = (s.counter + 1) % 2 ^ 64;
    tasks = alter queue_name (insert next_name the_task) s.tasks;
  })

  created :
      has_key queue_name s.queues ≡ true
      → lookup queue_name s.tasks ≡ some m
      → has_key next_name m ≡ false
      → create_task s now queue_name [] the_input ≡ (ok the_task, the_store)
  unfolding create_task chosen_name generated_name tasks_of has_key bytes format_int64 str_eq
      persist
  created exists queued fresh = rw (create_task, exists, tasks_of, queued, fresh) refl

  kept :
      lookup queue_name s.tasks ≡ some m → get_task the_store queue_name next_name ≡ some the_task
  kept queued =
      get_task-alter (record s { counter = (s.counter + 1) % 2 ^ 64 }) queue_name next_name m
        (insert next_name the_task) queued
      ∙ lookup-insert_self next_name the_task m

  got :
      contains (queue_name ++ bytes "/tasks") (bytes "/tasks/") ≡ false
      → lookup queue_name s.tasks ≡ some m
      → Service.get_task quote the_store next_name
        ≡ (ok (Service.task_to_proto the_task), the_store)
  unfolding Service.get_task generated_name
  got plain queued =
      let number = format_int64 ((s.counter + 1) % 2 ^ 64) in
      let back : queue_from_task_name next_name ≡ queue_name =
        queue_from_task_name-task queue_name number plain in
      let found : get_task the_store (queue_from_task_name next_name) next_name ≡ some the_task =
        ap (λ q. get_task the_store q next_name) back ∙ kept queued in
      rw (Service.get_task, found) refl

  -- A task that is created without a name, in a queue whose own name has no part "tasks", is found
  -- again by the name in the answer, with the same answer. Asked: a queue and a url, and that the
  -- next number is not taken.
  pub get_task-create_task :
      str_eq queue_name [] ≡ false
      → str_eq http.url [] ≡ false
      → contains (queue_name ++ bytes "/tasks") (bytes "/tasks/") ≡ false
      → has_key queue_name s.queues ≡ true
      → lookup queue_name s.tasks ≡ some m
      → has_key next_name m ≡ false
      → let (answer, t) = Service.create_task quote s now queue_name (some unnamed) in
        (a : TaskAnswer) × (answer ≡ ok a) × (Service.get_task quote t a.name ≡ (ok a, t))
  unfolding Service.create_task Service.task_to_proto new_task
  get_task-create_task named located plain exists queued fresh =
      rw (named, located, created exists queued fresh) (_, refl, got plain queued)
