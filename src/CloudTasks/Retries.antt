-- ===== src/CloudTasks/Retries.antt =====
-- internal/cloudtasks/store.go: `RetryTask`, and the histories of the store.
use mathlib.Core.Option.{some-injective}
use blitzy_localgcp.Base.{
  Everywhere-nil, add_duration, ℕ, ◌≤◌, ◌<◌, ◌≡◌, refl, sym, ◌∙◌, subst, List, [], ◌∷◌, none, some,
  Option-cases, Bool, true, false, Bool-cases, ◌⊎◌, inl, inr, arith, Str, str_eq, str_eq_refl, Dict,
  lookup, erase, alter, lookup-erase_self, lookup-alter, Everywhere-alter, pos,
}
use blitzy_localgcp.CloudTasks.Data.{pending, Queue, Task, Store}
use blitzy_localgcp.CloudTasks.Schedule.{backoff, rescheduled, exhausted}
use blitzy_localgcp.CloudTasks.Persistence.{new_store, persist}
use blitzy_localgcp.CloudTasks.Attempts.{IsBounded}
use blitzy_localgcp.CloudTasks.Bounded.{
  erased_task, persist-IsBounded, alter-IsBounded, create_queue-IsBounded, delete_queue-IsBounded,
  purge_queue-IsBounded, delete_task-IsBounded, complete_task-IsBounded,
}
use blitzy_localgcp.CloudTasks.Calls.{
  Call, add_queue, drop_queue, purge, add_task, drop_task, poll_due, complete, retry, step, run,
  after_retry, HasInt32, AllInt32,
}
use blitzy_localgcp.CloudTasks.{retry_task, get_task, tasks_of}
use blitzy_localgcp.CloudTasks.Limits.{rescheduled_task, create_task-IsBounded, due_tasks-IsBounded}
use blitzy_localgcp.CloudTasks.Dispatching.{get_task-cases}

retry_task-IsBounded :
    (s : Store) (now : ℕ) (queue_name task_name : Str)
    → IsBounded s
    → IsBounded (after_retry s (retry_task s now queue_name task_name))
unfolding retry_task
retry_task-IsBounded s now queue_name task_name b =
    elim (Option-cases (lookup queue_name s.tasks)) [
      | inl e ↦ rw (e, retry_task) b
      | inr (m, e) ↦ elim (Option-cases (lookup task_name m)) [
        | inl f ↦ rw (e, retry_task, f) b
        | inr (t, f) ↦ elim (Option-cases (lookup queue_name s.queues)) [
          | inl g ↦ rw (e, retry_task, f, g) b
          | inr (q, g) ↦ elim (Bool-cases (exhausted q t)) [
            | inl x ↦
                rw (e, retry_task, f, g, x)
                  (persist-IsBounded _ (
                    alter-IsBounded s queue_name (erase task_name)
                      (erased_task s.queues queue_name task_name) b))
            | inr x ↦ rw (e, retry_task, f, g, x) (persist-IsBounded _ (retried q t m e f g x))
          ]
        ]
      ]
    ]
  where
    retried :
        (q : Queue) (t : Task) (m : Dict Task)
        → lookup queue_name s.tasks ≡ some m
        → lookup task_name m ≡ some t
        → lookup queue_name s.queues ≡ some q
        → exhausted q t ≡ false
        → IsBounded
            (record s { tasks = alter queue_name (alter task_name (rescheduled now q)) s.tasks })
    retried q t m e f g x = record {
      queues_fit = b.queues_fit;
      all_fit =
          Everywhere-alter queue_name (alter task_name (rescheduled now q)) s.tasks
            (λ n here h.
              let same : m ≡ n = some-injective _ _ (sym e ∙ here) in
              rescheduled_task s now queue_name task_name q t n g
                (subst (λ x. lookup task_name x ≡ some t) same f) x h)
            b.all_fit;
    }

step-IsBounded : (s : Store) (c : Call) → HasInt32 c → IsBounded s → IsBounded (step s c)
step-IsBounded s (add_queue name attempts shortest longest doublings) h b =
    create_queue-IsBounded s name attempts shortest longest doublings h b
step-IsBounded s (drop_queue name) h b = delete_queue-IsBounded s name b
step-IsBounded s (purge name) h b = purge_queue-IsBounded s name b
step-IsBounded s (add_task now queue_name task_name input) h b =
    create_task-IsBounded s now queue_name task_name input b
step-IsBounded s (drop_task queue_name task_name) h b =
    delete_task-IsBounded s queue_name task_name b
step-IsBounded s (poll_due now) h b = due_tasks-IsBounded s now b
step-IsBounded s (complete queue_name task_name) h b =
    complete_task-IsBounded s queue_name task_name b
step-IsBounded s (retry now queue_name task_name) h b =
    retry_task-IsBounded s now queue_name task_name b

-- Any calls, the polls and the retries of the dispatch loop among them, that give int32 numbers of
-- attempts keep a store where every task has had at most as many attempts as its queue allows, a
-- pending task fewer, and where the queue of every task exists.
pub run-IsBounded : (s : Store) (cs : List Call) → AllInt32 cs → IsBounded s → IsBounded (run s cs)
run-IsBounded s [] h b = b
run-IsBounded s (c ∷ cs) h b = run-IsBounded (step s c) cs h.1 (step-IsBounded s c h.0 b)

exhausted_iff :
    (q : Queue) (t : Task) (n limit : ℕ)
    → t.dispatch_count ≡ pos n
    → q.max_attempts ≡ pos limit
    → ((exhausted q t ≡ true) × (0 < limit) × (limit ≤ n))
      ⊎ ((exhausted q t ≡ false) × ((limit ≡ 0) ⊎ (n < limit)))
unfolding exhausted
exhausted_iff q t n limit c m = rw (c, m) (ground arith)

pub tasks-persist : (s : Store) → (persist s).tasks ≡ s.tasks
unfolding persist
tasks-persist s = elim (Bool-cases (str_eq s.data_dir [])) [ inl e ↦ rw e refl | inr e ↦ rw e refl ]

pub get_task-alter :
    (s : Store) (queue_name task_name : Str) (m : Dict Task) (change : Dict Task → Dict Task)
    → lookup queue_name s.tasks ≡ some m
    → get_task (persist (record s { tasks = alter queue_name change s.tasks })) queue_name task_name
      ≡ lookup task_name (change m)
unfolding get_task tasks_of
get_task-alter s queue_name task_name m change e =
    rw
      (
        tasks-persist _,
        lookup-alter queue_name queue_name change s.tasks,
        str_eq_refl queue_name,
        e,
        get_task,
        tasks_of,
      )
      refl

-- A retry of a task in a queue that exists: with as many attempts as the queue allows the task is
-- dropped and the answer is false; otherwise the answer is true, and the task is pending again, its
-- time is now and its backoff, and the rest of it is as it was.
pub retry_task_lem :
    (s : Store) (now : ℕ) (queue_name task_name : Str) (q : Queue) (t : Task) (n limit : ℕ)
    → lookup queue_name s.queues ≡ some q
    → get_task s queue_name task_name ≡ some t
    → t.dispatch_count ≡ pos n
    → q.max_attempts ≡ pos limit
    → (u : Store) × (((0 < limit)
          × (limit ≤ n)
          × (retry_task s now queue_name task_name ≡ some (false, u))
          × (get_task u queue_name task_name ≡ none))
        ⊎ (((limit ≡ 0) ⊎ (n < limit))
            × (retry_task s now queue_name task_name ≡ some (true, u))
            × (get_task u queue_name task_name
                ≡ some (record t {
                  schedule_time = add_duration now (backoff q t);
                  state = pending;
                }))))
unfolding retry_task rescheduled
retry_task_lem s now queue_name task_name q t n limit stands found counted limited =
    let (m, e, f) = get_task-cases s queue_name task_name t found in
    elim (exhausted_iff q t n limit counted limited) [
      | inl (x, some_limit, over) ↦ (
        persist (record s { tasks = alter queue_name (erase task_name) s.tasks }),
        inl (
          some_limit,
          over,
          rw (e, retry_task, f, stands, x) refl,
          get_task-alter s queue_name task_name m (erase task_name) e
              ∙ lookup-erase_self task_name m,
        ),
      )
      | inr (x, left) ↦ (
        persist
            (record s { tasks = alter queue_name (alter task_name (rescheduled now q)) s.tasks }),
        inr (
          left,
          rw (e, retry_task, f, stands, x) refl,
          get_task-alter s queue_name task_name m (alter task_name (rescheduled now q)) e
              ∙ rw
                  (lookup-alter task_name task_name (rescheduled now q) m, str_eq_refl task_name, f)
                  refl,
        ),
      )
    ]

retry_task-answers :
    (s : Store) (now : ℕ) (queue_name task_name : Str)
    → IsBounded s
    → (again : Bool) × (u : Store) × (retry_task s now queue_name task_name ≡ some (again, u))
unfolding retry_task
retry_task-answers s now queue_name task_name b = elim (Option-cases (lookup queue_name s.tasks)) [
  | inl e ↦ (false, s, rw (e, retry_task) refl)
  | inr (m, e) ↦ elim (Option-cases (lookup task_name m)) [
    | inl f ↦ (false, s, rw (e, retry_task, f) refl)
    | inr (t, f) ↦
        let h = b.all_fit.at_key queue_name m e in
        elim (Bool-cases (exhausted h.queue t)) [
          | inl x ↦ (
            false,
            persist (record s { tasks = alter queue_name (erase task_name) s.tasks }),
            rw (e, retry_task, f, h.stands, x) refl,
          )
          | inr x ↦ (
            true,
            persist (record s {
              tasks = alter queue_name (alter task_name (rescheduled now h.queue)) s.tasks;
            }),
            rw (e, retry_task, f, h.stands, x) refl,
          )
        ]
  ]
]

new_store-IsBounded : (data_dir : Str) → IsBounded (new_store data_dir none)
unfolding new_store
new_store-IsBounded data_dir =
    let empty : IsBounded
        (record { queues = []; tasks = []; counter = 0; data_dir = data_dir; disk = none }) =
      record { queues_fit = Everywhere-nil; all_fit = Everywhere-nil } in
    elim (Bool-cases (str_eq data_dir [])) [ inl e ↦ rw e empty | inr e ↦ rw e empty ]

-- After any calls from an empty store, with int32 numbers of attempts, a retry of any task of any
-- queue ends with an answer: it never reads the settings of a queue that is gone, whatever queues
-- have been deleted.
pub retry_task-run :
    (data_dir : Str) (cs : List Call) (now : ℕ) (queue_name task_name : Str)
    → AllInt32 cs
    → let s = run (new_store data_dir none) cs in
      (again : Bool) × (u : Store) × (retry_task s now queue_name task_name ≡ some (again, u))
retry_task-run data_dir cs now queue_name task_name fits =
    retry_task-answers (run (new_store data_dir none) cs) now queue_name task_name
      (run-IsBounded (new_store data_dir none) cs fits (new_store-IsBounded data_dir))
