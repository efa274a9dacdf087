-- ===== src/CloudTasks/Schedule.antt =====
-- internal/cloudtasks/store.go: new tasks, the tasks that are due, and the backoff of a retry.
use blitzy_localgcp.Base.{
  ℕ, zero, suc, ◌+◌, List, [], ◌∷◌, ◌++◌, Bool, true, false, not, ◌&&◌, Str, bytes, str_eq, ltb,
  ◌==◌, Dict, if◌then◌else◌, ℤ, pos, negsuc, int_ltb, int_leb, double_int64, inc_int32, seconds,
  add_duration,
}
use blitzy_localgcp.CloudTasks.Data.{TaskState, pending, dispatching, Queue, Task}

unfoldable pub or_default : ℤ → ℕ → ℤ
or_default x d = if int_leb x (pos 0) then pos d else x

pub record TaskInput : Type 0 where
  pub http_url : Str
  pub http_method : Str
  pub body : List ℕ
  pub headers : Dict Str
  pub schedule_time : ℕ

unfoldable pub new_task : ℕ → Str → Str → TaskInput → Task
new_task now queue_name name input = record {
  name = name;
  queue = queue_name;
  http_url = input.http_url;
  http_method = if str_eq input.http_method [] then bytes "POST" else input.http_method;
  http_body = input.body;
  http_headers = input.headers;
  schedule_time = if input.schedule_time == 0 then now else input.schedule_time;
  create_time = now;
  dispatch_count = pos 0;
  response_count = pos 0;
  last_attempt = 0;
  state = pending;
}

unfoldable pub is_pending : TaskState → Bool
is_pending pending = true
is_pending _ = false

unfoldable pub is_due : ℕ → Task → Bool
unfolding is_pending
is_due now t = is_pending t.state && not (ltb now t.schedule_time)

unfoldable pub dispatched : ℕ → Task → Task
dispatched now t = record t {
  state = dispatching;
  dispatch_count = inc_int32 t.dispatch_count;
  last_attempt = now;
}

-- The loop over the tasks of one queue: what it writes, and the copies that it collects.
unfoldable pub mark_due : ℕ → Dict Task → Dict Task
unfolding is_due dispatched
mark_due now [] = []
mark_due now ((k, t) ∷ m) = (k, if is_due now t then dispatched now t else t) ∷ mark_due now m

unfoldable pub collect_due : ℕ → Dict Task → List Task
unfolding is_due dispatched
collect_due now [] = []
collect_due now ((k, t) ∷ m) =
    let rest = collect_due now m in if is_due now t then dispatched now t ∷ rest else rest

unfoldable pub mark_queues : ℕ → Dict (Dict Task) → Dict (Dict Task)
unfolding mark_due
mark_queues now [] = []
mark_queues now ((k, m) ∷ rest) = (k, mark_due now m) ∷ mark_queues now rest

unfoldable pub collect_queues : ℕ → Dict (Dict Task) → List Task
unfolding collect_due
collect_queues now [] = []
collect_queues now ((k, m) ∷ rest) = collect_due now m ++ collect_queues now rest

-- for i := 1; i < count && i <= max_doublings; i++ { backoff *= 2 }, with fuel for the rounds
unfoldable pub doubled : ℕ → ℕ → ℤ → ℤ → ℤ → ℤ
doubled zero i count max_doublings backoff = backoff
doubled (suc fuel) i count max_doublings backoff =
    let next = doubled fuel (i + 1) count max_doublings (double_int64 backoff) in
    if int_ltb (pos i) count && int_leb (pos i) max_doublings then next else backoff

unfoldable pub rounds : ℤ → ℕ
rounds (pos n) = n
rounds (negsuc n) = 0

unfoldable pub backoff : Queue → Task → ℤ
unfolding doubled rounds
backoff q t =
    let d =
      doubled (rounds t.dispatch_count) 1 t.dispatch_count q.max_doublings
        (seconds q.min_backoff_seconds) in
    let cap_of = seconds q.max_backoff_seconds in if int_ltb cap_of d then cap_of else d

unfoldable pub rescheduled : ℕ → Queue → Task → Task
unfolding backoff
rescheduled now q t = record t { schedule_time = add_duration now (backoff q t); state = pending }

unfoldable pub exhausted : Queue → Task → Bool
exhausted q t = int_ltb (pos 0) q.max_attempts && int_leb q.max_attempts t.dispatch_count
