-- ===== src/CloudTasks/Persistence.antt =====
-- internal/cloudtasks/store.go: `persist` and `load`. The JSON text of the file stands for the
-- value that it encodes.
use blitzy_localgcp.Base.{
  List, [], ◌∷◌, Option, none, some, Str, str_eq, Dict, insert, has_key, alter, values,
  if◌then◌else◌,
}
use blitzy_localgcp.CloudTasks.Data.{Queue, Task, PersistedState, Store}

-- A queue without tasks has no entry in the file.
persist_tasks : Dict (Dict Task) → Dict (List Task)
persist_tasks [] = []
persist_tasks ((k, []) ∷ m) = persist_tasks m
persist_tasks ((k, t ∷ ts) ∷ m) = (k, values (t ∷ ts)) ∷ persist_tasks m

unfoldable pub persist : Store → Store
unfolding persist_tasks
persist s = if str_eq s.data_dir [] then s else record s {
  disk = some (record { queues = values s.queues; tasks = persist_tasks s.tasks });
}

-- A key that the map lacks gets an empty map.
with_queue : Str → Dict (Dict Task) → Dict (Dict Task)
with_queue k m = if has_key k m then m else insert k [] m

load_queues : List Queue → Store → Store
unfolding with_queue
load_queues [] s = s
load_queues (q ∷ qs) s =
    load_queues qs
      (record s { queues = insert q.name q s.queues; tasks = with_queue q.name s.tasks })

load_list : List Task → Dict Task → Dict Task
load_list [] m = m
load_list (t ∷ ts) m = load_list ts (insert t.name t m)

load_tasks : Dict (List Task) → Dict (Dict Task) → Dict (Dict Task)
unfolding with_queue load_list
load_tasks [] m = m
load_tasks ((k, ts) ∷ rest) m = load_tasks rest (alter k (load_list ts) (with_queue k m))

load_state : PersistedState → Store → Store
unfolding load_queues load_tasks
load_state state s =
    let t = load_queues state.queues s in record t { tasks = load_tasks state.tasks t.tasks }

unfoldable pub load : Store → Store
unfolding load_state
load s = elim s.disk [ none ↦ s | some state ↦ load_state state s ]

-- The store of a process that starts on a directory, with the file that it finds there. The
-- counter of the generated names starts at 0.
unfoldable pub new_store : Str → Option PersistedState → Store
unfolding load
new_store data_dir disk =
    let s : Store = record {
      queues = [];
      tasks = [];
      counter = 0;
      data_dir = data_dir;
      disk = disk;
    } in
    if str_eq data_dir [] then s else load s
