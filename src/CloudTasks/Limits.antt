-- ===== src/CloudTasks/Limits.antt =====
-- internal/cloudtasks/store.go: the limits of attempts after a new task and after a poll.
use mathlib.Core.Option.{some-injective}
use blitzy_localgcp.Base.{
  ℕ, ◌^◌, ◌<◌, ◌≡◌, refl, sym, ap, ◌∙◌, subst, [], ◌∷◌, some, false, Bool-cases, inl, inr, Str,
  str_eq, Dict, lookup, insert, alter, has_key, Everywhere, Everywhere-insert, Everywhere-alter,
}
use blitzy_localgcp.CloudTasks.Data.{Queue, Task, Store}
use blitzy_localgcp.CloudTasks.Schedule.{
  TaskInput, new_task, is_due, mark_due, mark_queues, rescheduled, exhausted,
}
use blitzy_localgcp.CloudTasks.Dispatching.{after_due}
use blitzy_localgcp.CloudTasks.Attempts.{
  Fits, QueueFits, IsBounded, new_task-Fits, dispatched-Fits, rescheduled-Fits,
}
use blitzy_localgcp.CloudTasks.Bounded.{persist-IsBounded, alter-IsBounded, with_tasks}
use blitzy_localgcp.CloudTasks.{create_task, due_tasks, tasks_of, chosen_name}

-- A new task in a queue that stands.
added_task :
    (s : Store) (now : ℕ) (queue_name name : Str) (input : TaskInput) (m : Dict Task)
    → QueueFits s.queues queue_name m
    → QueueFits s.queues queue_name (insert name (new_task now queue_name name input) m)
added_task s now queue_name name input m h =
    with_tasks s.queues queue_name m (insert name (new_task now queue_name name input) m) h (
      Everywhere-insert name (new_task now queue_name name input) m
        (new_task-Fits now h.limits.limit queue_name name input h.limits.some_attempt) h.tasks_fit)

counted-IsBounded : (s : Store) (n : ℕ) → IsBounded s → IsBounded (record s { counter = n })
counted-IsBounded s n b = record { queues_fit = b.queues_fit; all_fit = b.all_fit }

chosen_name-IsBounded :
    (s : Store) (queue_name task_name : Str)
    → IsBounded s
    → IsBounded (chosen_name s queue_name task_name).1
unfolding chosen_name
chosen_name-IsBounded s queue_name task_name b = elim (Bool-cases (str_eq task_name [])) [
  | inl e ↦ rw e (counted-IsBounded s _ b)
  | inr e ↦ rw e b
]

pub create_task-IsBounded :
    (s : Store) (now : ℕ) (queue_name task_name : Str) (input : TaskInput)
    → IsBounded s
    → IsBounded (create_task s now queue_name task_name input).1
unfolding create_task
create_task-IsBounded s now queue_name task_name input b =
    let (name, t) = chosen_name s queue_name task_name in
    let c : IsBounded (chosen_name s queue_name task_name).1 =
      chosen_name-IsBounded s queue_name task_name b in
    elim (Bool-cases (has_key queue_name s.queues)) [
      | inl e ↦ elim (Bool-cases (has_key name (tasks_of t queue_name))) [
        | inl f ↦ rw (e, f) c
        | inr f ↦
            rw (e, f)
              (persist-IsBounded _ (
                alter-IsBounded t queue_name (insert name (new_task now queue_name name input))
                  (added_task t now queue_name name input) c))
      ]
      | inr e ↦ rw e b
    ]

lookup-mark_due_back :
    (now : ℕ) (k : Str) (m : Dict Task) (u : Task)
    → lookup k (mark_due now m) ≡ some u
    → (t : Task) × (lookup k m ≡ some t) × (u ≡ after_due now t)
unfolding lookup mark_due
lookup-mark_due_back now k [] u h = absurd (cc h)
lookup-mark_due_back now k ((j, t) ∷ m) u h = elim (Bool-cases (str_eq j k)) [
  | inl e ↦ (t, rw e refl, some-injective _ _ (sym (rw e at h)))
  | inr e ↦
      let (v, found, same) = lookup-mark_due_back now k m u (rw e at h) in (v, rw e found, same)
]

lookup-mark_queues_back :
    (now : ℕ) (k : Str) (all : Dict (Dict Task)) (n : Dict Task)
    → lookup k (mark_queues now all) ≡ some n
    → (m : Dict Task) × (lookup k all ≡ some m) × (n ≡ mark_due now m)
unfolding lookup mark_queues
lookup-mark_queues_back now k [] n h = absurd (cc h)
lookup-mark_queues_back now k ((j, m) ∷ all) n h = elim (Bool-cases (str_eq j k)) [
  | inl e ↦ (m, rw e refl, some-injective _ _ (sym (rw e at h)))
  | inr e ↦
      let (v, found, same) = lookup-mark_queues_back now k all n (rw e at h) in
      (v, rw e found, same)
]

after_due-Fits :
    (now limit : ℕ) (name : Str) (t : Task)
    → limit < 2 ^ 31
    → Fits limit name t
    → Fits limit name (after_due now t)
after_due-Fits now limit name t b f = elim (Bool-cases (is_due now t)) [
  | inl e ↦ rw e (dispatched-Fits now limit name t b f e)
  | inr e ↦ rw e f
]

mark_due-Fits :
    (now limit : ℕ) (m : Dict Task)
    → limit < 2 ^ 31
    → Everywhere (Fits limit) m
    → Everywhere (Fits limit) (mark_due now m)
mark_due-Fits now limit m b f = record {
  at_key = λ k u h.
      let (t, found, same) = lookup-mark_due_back now k m u h in
      subst (λ x. Fits limit k x) (sym same) (after_due-Fits now limit k t b (f.at_key k t found));
}

pub due_tasks-IsBounded : (s : Store) (now : ℕ) → IsBounded s → IsBounded (due_tasks s now).1
unfolding due_tasks
due_tasks-IsBounded s now b = record {
  queues_fit = b.queues_fit;
  all_fit = record {
    at_key = λ k n h.
        let (m, found, same) = lookup-mark_queues_back now k s.tasks n h in
        let f = b.all_fit.at_key k m found in
        subst (λ x. QueueFits s.queues k x) (sym same)
          (with_tasks s.queues k m (mark_due now m) f
            (mark_due-Fits now f.limits.limit m f.limits.small f.tasks_fit));
  };
}

pub rescheduled_task :
    (s : Store) (now : ℕ) (queue_name task_name : Str) (q : Queue) (t : Task) (m : Dict Task)
    → lookup queue_name s.queues ≡ some q
    → lookup task_name m ≡ some t
    → exhausted q t ≡ false
    → QueueFits s.queues queue_name m
    → QueueFits s.queues queue_name (alter task_name (rescheduled now q) m)
rescheduled_task s now queue_name task_name q t m stands found left h =
    with_tasks s.queues queue_name m (alter task_name (rescheduled now q) m) h (
      Everywhere-alter task_name (rescheduled now q) m
        (λ u here f.
          let same : t ≡ u = some-injective _ _ (sym found ∙ here) in
          let queue_is : h.queue ≡ q = some-injective _ _ (sym h.stands ∙ stands) in
          rescheduled-Fits now h.limits.limit task_name q u
            (ap (λ (x : Queue). x.max_attempts) (sym queue_is) ∙ h.limits.limited)
            h.limits.some_attempt f (subst (λ x. exhausted q x ≡ false) same left))
        h.tasks_fit)
