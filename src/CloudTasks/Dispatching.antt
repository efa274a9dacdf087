-- ===== src/CloudTasks/Dispatching.antt =====
-- internal/cloudtasks/store.go: which tasks `DueTasks` hands out.
use blitzy_localgcp.Base.{
  inc_int32, ℕ, ◌≤◌, ◌<◌, ◌≡◌, ◌≢◌, Option-cases, ◌⊎◌, refl, ap, List, [], ◌∷◌, ◌++◌, some, true,
  false, arith, Str, Dict, lookup, str_eq, if◌then◌else◌, Bool-cases, inl, inr,
}
use mathlib.Core.Option.{some-injective}
use blitzy_localgcp.CloudTasks.Data.{TaskState, pending, dispatching, completed, Task, Store}
use blitzy_localgcp.CloudTasks.Schedule.{
  is_pending, is_due, dispatched, mark_due, collect_due, mark_queues, collect_queues,
}
use blitzy_localgcp.CloudTasks.{due_tasks, tasks_of, get_task}

abbrev pub Among : Task → List Task → Type 0
Among t [] = ⊥
Among t (x ∷ xs) = (t ≡ x) ⊎ Among t xs

Among-left : (t : Task) (xs ys : List Task) → Among t xs → Among t (xs ++ ys)
Among-left t [] ys h = absurd h
Among-left t (x ∷ xs) ys (inl e) = inl e
Among-left t (x ∷ xs) ys (inr m) = inr (Among-left t xs ys m)

Among-right : (t : Task) (xs ys : List Task) → Among t ys → Among t (xs ++ ys)
Among-right t [] ys h = h
Among-right t (x ∷ xs) ys h = inr (Among-right t xs ys h)

pub not_pending :
    (now : ℕ) (t : Task) (state : TaskState)
    → t.state ≡ state
    → is_pending state ≡ false
    → is_due now t ≡ false
unfolding is_due
not_pending now t state e h = rw (e, h)

abbrev pub after_due : ℕ → Task → Task
after_due now t = if is_due now t then dispatched now t else t

lookup-mark_due :
    (now : ℕ) (k : Str) (m : Dict Task) (t : Task)
    → lookup k m ≡ some t
    → lookup k (mark_due now m) ≡ some (after_due now t)
unfolding lookup mark_due
lookup-mark_due now k [] t h = cc
lookup-mark_due now k ((j, u) ∷ m) t h = elim (Bool-cases (str_eq j k)) [
  | inl e ↦ rw e (ap (λ x. some (after_due now x)) (some-injective _ _ (rw e at h)))
  | inr e ↦ rw e (lookup-mark_due now k m t (rw e at h))
]

collect_due-Among :
    (now : ℕ) (k : Str) (m : Dict Task) (t : Task)
    → lookup k m ≡ some t
    → is_due now t ≡ true
    → Among (dispatched now t) (collect_due now m)
unfolding lookup collect_due
collect_due-Among now k [] t h d = cc
collect_due-Among now k ((j, u) ∷ m) t h d = elim (Bool-cases (str_eq j k)) [
  | inl e ↦ let same : u ≡ t = some-injective _ _ (rw e at h) in rw (same, d) (inl refl)
  | inr e ↦ elim (Bool-cases (is_due now u)) [
    | inl f ↦ rw f (inr (collect_due-Among now k m t (rw e at h) d))
    | inr f ↦ rw f (collect_due-Among now k m t (rw e at h) d)
  ]
]

lookup-mark_queues :
    (now : ℕ) (q : Str) (all : Dict (Dict Task)) (m : Dict Task)
    → lookup q all ≡ some m
    → lookup q (mark_queues now all) ≡ some (mark_due now m)
unfolding lookup mark_queues
lookup-mark_queues now q [] m h = cc
lookup-mark_queues now q ((j, u) ∷ all) m h = elim (Bool-cases (str_eq j q)) [
  | inl e ↦ rw e (ap (λ x. some (mark_due now x)) (some-injective _ _ (rw e at h)))
  | inr e ↦ rw e (lookup-mark_queues now q all m (rw e at h))
]

collect_queues-Among :
    (now : ℕ) (q k : Str) (all : Dict (Dict Task)) (m : Dict Task) (t : Task)
    → lookup q all ≡ some m
    → lookup k m ≡ some t
    → is_due now t ≡ true
    → Among (dispatched now t) (collect_queues now all)
unfolding lookup collect_queues
collect_queues-Among now q k [] m t h g d = cc
collect_queues-Among now q k ((j, u) ∷ all) m t h g d = elim (Bool-cases (str_eq j q)) [
  | inl e ↦
      let same : u ≡ m = some-injective _ _ (rw e at h) in
      Among-left _ (collect_due now u) _ (collect_due-Among now k u t (rw same g) d)
  | inr e ↦
      Among-right _ (collect_due now u) _ (collect_queues-Among now q k all m t (rw e at h) g d)
]

pub get_task-cases :
    (s : Store) (q k : Str) (t : Task)
    → get_task s q k ≡ some t
    → (m : Dict Task) × (lookup q s.tasks ≡ some m) × (lookup k m ≡ some t)
unfolding get_task tasks_of
get_task-cases s q k t h = elim (Option-cases (lookup q s.tasks)) [
  | inl e ↦ absurd (missing (rw (e, get_task, tasks_of) at h))
  | inr (m, e) ↦ (m, e, rw (e, get_task, tasks_of) at h)
]
  where
    missing : lookup k [] ≡ some t → ⊥
    missing g = unfold lookup in cc g

get_task-due_tasks :
    (s : Store) (now : ℕ) (q k : Str) (t : Task)
    → get_task s q k ≡ some t
    → get_task (due_tasks s now).1 q k ≡ some (after_due now t)
unfolding get_task tasks_of due_tasks
get_task-due_tasks s now q k t h =
    let (m, e, g) = get_task-cases s q k t h in
    rw (lookup-mark_queues now q s.tasks m e, get_task, tasks_of) (lookup-mark_due now k m t g)

due_of : (now : ℕ) (t : Task) → t.state ≡ pending → t.schedule_time ≤ now → is_due now t ≡ true
unfolding is_due is_pending
due_of now t p h = rw p (ground arith)

not_due_early : (now : ℕ) (t : Task) → now < t.schedule_time → is_due now t ≡ false
unfolding is_due
not_due_early now t h = ground arith

-- A pending task whose time has come is handed out, in the state of being dispatched, with one more
-- attempt and with the time of the call as its last one; the store then has it so, and at no later
-- time is it due while it stays so.
pub due_tasks_due :
    (s : Store) (now : ℕ) (q k : Str) (t : Task)
    → get_task s q k ≡ some t
    → t.state ≡ pending
    → t.schedule_time ≤ now
    → let d : Task = record t {
      state = dispatching;
      dispatch_count = inc_int32 t.dispatch_count;
      last_attempt = now;
    } in
      Among d (due_tasks s now).0
      × (get_task (due_tasks s now).1 q k ≡ some d)
      × ((later : ℕ) → is_due later d ≡ false)
unfolding due_tasks dispatched
due_tasks_due s now q k t h p ready =
    let due = due_of now t p ready in
    let (m, e, g) = get_task-cases s q k t h in
    (
      collect_queues-Among now q k s.tasks m t e g due,
      rw (get_task-due_tasks s now q k t h, due),
      λ later. not_pending later (dispatched now t) dispatching refl (unfold is_pending in refl),
    )

-- Every other task is left as it was: one that is not pending, and one whose time has not come.
pub due_tasks_other :
    (s : Store) (now : ℕ) (q k : Str) (t : Task)
    → get_task s q k ≡ some t
    → (t.state ≢ pending) ⊎ (now < t.schedule_time)
    → get_task (due_tasks s now).1 q k ≡ some t
due_tasks_other s now q k t h o = rw (get_task-due_tasks s now q k t h, still o)
  where
    other_state : (state : TaskState) → t.state ≡ state → state ≢ pending → is_due now t ≡ false
    other_state pending e ne = absurd (ne refl)
    other_state dispatching e ne = not_pending now t dispatching e (unfold is_pending in refl)
    other_state completed e ne = not_pending now t completed e (unfold is_pending in refl)

    still : (t.state ≢ pending) ⊎ (now < t.schedule_time) → is_due now t ≡ false
    still (inl ne) = other_state t.state refl ne
    still (inr early) = not_due_early now t early

abbrev pub poll : Store → List ℕ → Store
poll s [] = s
poll s (now ∷ times) = poll (due_tasks s now).1 times

-- A task in the state of being dispatched stays as it is, whatever times the loop polls at.
pub poll_dispatching :
    (s : Store) (times : List ℕ) (q k : Str) (t : Task)
    → get_task s q k ≡ some t
    → t.state ≡ dispatching
    → get_task (poll s times) q k ≡ some t
poll_dispatching s [] q k t h d = h
poll_dispatching s (now ∷ times) q k t h d =
    poll_dispatching (due_tasks s now).1 times q k t
      (due_tasks_other s now q k t h (inl (λ p. cc (d, p)))) d
