-- ===== src/CloudTasks/Attempts.antt =====
-- internal/cloudtasks/store.go: how many attempts a task has had.
use blitzy_localgcp.Base.{
  ℕ, zero, suc, ◌+◌, ◌^◌, ◌≤◌, ◌<◌, ◌≡◌, refl, ap, ◌∙◌, subst, some, true, false, arith, Str, Dict,
  lookup, Everywhere, ℤ, pos, negsuc, int_ltb, int_leb, inc_int32, inc_int32-pos, ◌&&◌,
}
use blitzy_localgcp.CloudTasks.Data.{TaskState, pending, dispatching, completed, Queue, Task, Store}
use blitzy_localgcp.CloudTasks.Schedule.{
  or_default, TaskInput, new_task, is_pending, is_due, dispatched, rescheduled, exhausted,
}
use blitzy_localgcp.CloudTasks.Calls.{IsInt32}
use blitzy_localgcp.CloudTasks.Dispatching.{not_pending}

-- A pending task has an attempt left; any other has had at most as many as its queue allows.
abbrev pub Within : TaskState → ℕ → ℕ → Type 0
Within pending n limit = n < limit
Within dispatching n limit = n ≤ limit
Within completed n limit = n ≤ limit

pub record HasLimit (name : Str) (q : Queue) : Type 0 where
  pub limit : ℕ
  pub limited : q.max_attempts ≡ pos limit
  pub some_attempt : 0 < limit
  pub small : limit < 2 ^ 31

pub record Fits (limit : ℕ) (name : Str) (t : Task) : Type 0 where
  pub attempts : ℕ
  pub counted : t.dispatch_count ≡ pos attempts
  pub bounded : Within t.state attempts limit

-- The queue of the tasks exists, and each task fits its limit.
pub record QueueFits (queues : Dict Queue) (name : Str) (m : Dict Task) : Type 0 where
  pub queue : Queue
  pub stands : lookup name queues ≡ some queue
  pub limits : HasLimit name queue
  pub tasks_fit : Everywhere (Fits limits.limit) m

pub record IsBounded (s : Store) : Type 0 where
  pub queues_fit : Everywhere HasLimit s.queues
  pub all_fit : Everywhere (QueueFits s.queues) s.tasks

pub new_task-Fits :
    (now limit : ℕ) (queue_name name : Str) (input : TaskInput)
    → 0 < limit
    → Fits limit name (new_task now queue_name name input)
unfolding new_task
new_task-Fits now limit queue_name name input h = record {
  attempts = 0;
  counted = refl;
  bounded = h;
}

pub or_default-HasLimit :
    (name : Str) (x : ℤ) (q : Queue) → q.max_attempts ≡ or_default x 3 → IsInt32 x → HasLimit name q
unfolding or_default
or_default-HasLimit name (negsuc n) q e b = record {
  limit = 3;
  limited = e;
  some_attempt = omega arith;
  small = omega arith;
}
or_default-HasLimit name (pos zero) q e b = record {
  limit = 3;
  limited = e;
  some_attempt = omega arith;
  small = omega arith;
}
or_default-HasLimit name (pos (suc n)) q e b = record {
  limit = suc n;
  limited = e ∙ ground arith;
  some_attempt = omega arith;
  small = b;
}

pub dispatched-Fits :
    (now limit : ℕ) (name : Str) (t : Task)
    → limit < 2 ^ 31
    → Fits limit name t
    → is_due now t ≡ true
    → Fits limit name (dispatched now t)
unfolding is_due dispatched
dispatched-Fits now limit name t b f due = from t.state refl
  where
    idle : {state : TaskState} → is_pending state ≡ false → t.state ≡ state → ⊥
    idle p e = let none_due : is_due now t ≡ false = not_pending now t _ e p in cc (none_due, due)

    from : (state : TaskState) → t.state ≡ state → Fits limit name (dispatched now t)
    from pending e =
        let left : f.attempts < limit = subst (λ x. Within x f.attempts limit) e f.bounded in
        record {
          attempts = f.attempts + 1;
          counted = ap inc_int32 f.counted ∙ inc_int32-pos f.attempts (omega arith);
          bounded = omega arith;
        }
    from dispatching e = absurd (idle (unfold is_pending in refl) e)
    from completed e = absurd (idle (unfold is_pending in refl) e)

pub rescheduled-Fits :
    (now limit : ℕ) (name : Str) (q : Queue) (t : Task)
    → q.max_attempts ≡ pos limit
    → 0 < limit
    → Fits limit name t
    → exhausted q t ≡ false
    → Fits limit name (rescheduled now q t)
unfolding rescheduled exhausted
rescheduled-Fits now limit name q t e h f left = record {
  attempts = f.attempts;
  counted = f.counted;
  bounded = less (rw (e, f.counted) at left);
}
  where
    less :
        (int_ltb (pos 0) (pos limit) && int_leb (pos limit) (pos f.attempts)) ≡ false
        → f.attempts < limit
    less g = ground arith
