-- ===== src/CloudTasks/Bounded.antt =====
-- internal/cloudtasks/store.go: the limits of attempts after the calls on queues and tasks.
use mathlib.Core.Option.{some-injective}
use blitzy_localgcp.Base.{
  ◌≡◌, refl, sym, ◌∙◌, subst, [], none, some, Option-cases, true, false, Bool-cases, inl, inr, Str,
  str_eq, str_eq_iff, Dict, lookup, insert, erase, alter, has_key, has_key-lookup, lookup-insert,
  lookup-insert_self, lookup-erase, Everywhere, Everywhere-nil, Everywhere-insert, Everywhere-erase,
  Everywhere-alter, ℤ,
}
use blitzy_localgcp.CloudTasks.Data.{Queue, Task, Store}
use blitzy_localgcp.CloudTasks.Schedule.{or_default}
use blitzy_localgcp.CloudTasks.Persistence.{persist}
use blitzy_localgcp.CloudTasks.Attempts.{HasLimit, Fits, QueueFits, IsBounded, or_default-HasLimit}
use blitzy_localgcp.CloudTasks.Calls.{IsInt32}
use blitzy_localgcp.CloudTasks.{create_queue, delete_queue, purge_queue, delete_task, complete_task}

pub persist-IsBounded : (s : Store) → IsBounded s → IsBounded (persist s)
unfolding persist
persist-IsBounded s b = elim (Bool-cases (str_eq s.data_dir [])) [
  | inl e ↦ rw e b
  | inr e ↦ rw e (record { queues_fit = b.queues_fit; all_fit = b.all_fit })
]

-- An entry that stays while another queue comes or goes.
kept_entry :
    (queues other : Dict Queue) (name : Str) (m : Dict Task)
    → lookup name other ≡ lookup name queues
    → QueueFits queues name m
    → QueueFits other name m
kept_entry queues other name m e f = record {
  queue = f.queue;
  stands = e ∙ f.stands;
  limits = f.limits;
  tasks_fit = f.tasks_fit;
}

lookup-insert_other :
    {V : Type 0} (k j : Str) (v : V) (m : Dict V)
    → str_eq k j ≡ false
    → lookup j (insert k v m) ≡ lookup j m
lookup-insert_other k j v m e = rw (lookup-insert k j v m, e) refl

lookup-erase_other :
    {V : Type 0} (k j : Str) (m : Dict V) → str_eq k j ≡ false → lookup j (erase k m) ≡ lookup j m
lookup-erase_other k j m e = rw (lookup-erase k j m, e) refl

-- A change of the tasks of one queue.
pub alter-IsBounded :
    (s : Store) (name : Str) (change : Dict Task → Dict Task)
    → ((m : Dict Task) → QueueFits s.queues name m → QueueFits s.queues name (change m))
    → IsBounded s
    → IsBounded (record s { tasks = alter name change s.tasks })
alter-IsBounded s name change f b = record {
  queues_fit = b.queues_fit;
  all_fit = Everywhere-alter name change s.tasks (λ m _ h. f m h) b.all_fit;
}

pub with_tasks :
    (queues : Dict Queue) (name : Str) (m n : Dict Task) (h : QueueFits queues name m)
    → Everywhere (Fits h.limits.limit) n
    → QueueFits queues name n
with_tasks queues name m n h e = record {
  queue = h.queue;
  stands = h.stands;
  limits = h.limits;
  tasks_fit = e;
}

pub erased_task :
    (queues : Dict Queue) (name task_name : Str) (m : Dict Task)
    → QueueFits queues name m
    → QueueFits queues name (erase task_name m)
erased_task queues name task_name m h =
    with_tasks queues name m (erase task_name m) h (Everywhere-erase task_name m h.tasks_fit)

pub create_queue-IsBounded :
    (s : Store) (name : Str) (attempts shortest longest doublings : ℤ)
    → IsInt32 attempts
    → IsBounded s
    → IsBounded (create_queue s name attempts shortest longest doublings).1
unfolding create_queue
create_queue-IsBounded s name attempts shortest longest doublings i b =
    elim (Bool-cases (has_key name s.queues)) [
      | inl e ↦ rw e b
      | inr e ↦
          let q : Queue = record {
            name = name;
            max_attempts = or_default attempts 3;
            min_backoff_seconds = or_default shortest 1;
            max_backoff_seconds = or_default longest 10;
            max_doublings = doublings;
          } in
          rw e (persist-IsBounded _ (added q (or_default-HasLimit name attempts q refl i)))
    ]
  where
    added :
        (q : Queue)
        → HasLimit name q
        → IsBounded (record s { queues = insert name q s.queues; tasks = insert name [] s.tasks })
    added q limits = record {
      queues_fit = Everywhere-insert name q s.queues limits b.queues_fit;
      all_fit = record {
        at_key = λ k m h. elim (Bool-cases (str_eq name k)) [
          | inl same ↦
              let new : some [] ≡ some m = rw (lookup-insert name k [] s.tasks, same) at h in
              subst (λ x. QueueFits (insert name q s.queues) x m) ((str_eq_iff name k).0 same)
                (subst (λ x. QueueFits (insert name q s.queues) name x) (some-injective _ _ new)
                  (record {
                    queue = q;
                    stands = lookup-insert_self name q s.queues;
                    limits = limits;
                    tasks_fit = Everywhere-nil;
                  }))
          | inr other ↦
              kept_entry s.queues (insert name q s.queues) k m
                (lookup-insert_other name k q s.queues other)
                (b.all_fit.at_key k m (sym (lookup-insert_other name k [] s.tasks other) ∙ h))
        ];
      };
    }

pub delete_queue-IsBounded :
    (s : Store) (name : Str) → IsBounded s → IsBounded (delete_queue s name).1
unfolding delete_queue
delete_queue-IsBounded s name b = elim (Bool-cases (has_key name s.queues)) [
  | inl e ↦ rw e (
      persist-IsBounded _ (record {
        queues_fit = Everywhere-erase name s.queues b.queues_fit;
        all_fit = record {
          at_key = λ k m h. elim (Bool-cases (str_eq name k)) [
            | inl same ↦
                let gone : none ≡ some m = rw (lookup-erase name k s.tasks, same) at h in cc gone
            | inr other ↦
                kept_entry s.queues (erase name s.queues) k m
                  (lookup-erase_other name k s.queues other)
                  (b.all_fit.at_key k m (sym (lookup-erase_other name k s.tasks other) ∙ h))
          ];
        };
      }))
  | inr e ↦ rw e b
]

-- The limit of a queue that stands, with no tasks.
no_tasks :
    (s : Store) (name : Str)
    → IsBounded s
    → has_key name s.queues ≡ true
    → QueueFits s.queues name []
no_tasks s name b e =
    let (q, stands) = has_key-lookup name s.queues e in
    record {
      queue = q;
      stands = stands;
      limits = b.queues_fit.at_key name q stands;
      tasks_fit = Everywhere-nil;
    }

pub purge_queue-IsBounded :
    (s : Store) (name : Str) → IsBounded s → IsBounded (purge_queue s name).1
unfolding purge_queue
purge_queue-IsBounded s name b = elim (Bool-cases (has_key name s.queues)) [
  | inl e ↦ rw e (
      persist-IsBounded _ (record {
        queues_fit = b.queues_fit;
        all_fit = Everywhere-insert name [] s.tasks (no_tasks s name b e) b.all_fit;
      }))
  | inr e ↦ rw e b
]

pub delete_task-IsBounded :
    (s : Store) (name task_name : Str) → IsBounded s → IsBounded (delete_task s name task_name).1
unfolding delete_task
delete_task-IsBounded s name task_name b = elim (Option-cases (lookup name s.tasks)) [
  | inl e ↦ rw (e, delete_task) b
  | inr (m, e) ↦ elim (Bool-cases (has_key task_name m)) [
    | inl f ↦
        rw (e, delete_task, f)
          (persist-IsBounded _
            (alter-IsBounded s name (erase task_name) (erased_task s.queues name task_name) b))
    | inr f ↦ rw (e, delete_task, f) b
  ]
]

pub complete_task-IsBounded :
    (s : Store) (name task_name : Str) → IsBounded s → IsBounded (complete_task s name task_name)
unfolding complete_task
complete_task-IsBounded s name task_name b =
    persist-IsBounded _
      (alter-IsBounded s name (erase task_name) (erased_task s.queues name task_name) b)
