-- ===== src/Orchestrator.antt =====
-- internal/orchestrator/lazy.go: the container of a service that starts with its first connection.
pub mod Containers
mod Examples
use blitzy_localgcp.Base.{
  ℕ, zero, suc, ◌+◌, List, [], ◌∷◌, ◌++◌, Option, none, some, Bool, true, false, not, ◌||◌, Str,
  bytes, str_eq, if◌then◌else◌, Result, ok, err,
}

pub record ContainerConfig : Type 0 where
  pub name : Str
  pub image : Str
  pub internal_port : Str

-- `container_id` and `host_addr` are empty before they are set.
pub record LazyService : Type 0 where
  pub config : ContainerConfig
  pub container_id : Str
  pub host_addr : Str
  pub started : Bool

-- What the runtime, the network and the context answer while one call of ensureContainer runs;
-- `ready` and `cancelled` are asked in rounds. `removes` is whether Remove succeeds, which the code
-- does not look at; what Stop gives has no effect on a removal, which is forced.
pub record ContainerRuntime : Type 0 where
  pub find_existing : Str → Result Str (Str × Bool)
  pub host_port : Str → Str → Result Str Str
  pub pull : Str → Result Str (Unit {0})
  pub create : ContainerConfig → Result Str Str
  pub start : Str → Result Str (Unit {0})
  pub ready : Str → ℕ → Bool
  pub cancelled : ℕ → Option Str
  pub removes : Str → Bool

-- The calls that change a container; a creation has the identifier that it gave.
pub data Call : Type 0 where
  create start stop remove : Str → Call

-- "<what> <of what>: <error>"
unfoldable pub failure : Str → Str → Str → Str
failure what name e = what ++ bytes " " ++ name ++ bytes ": " ++ e

-- The rounds of the loop from `i` on.
unfoldable pub wait_from : ContainerRuntime → Str → ℕ → ℕ → Result Str (Unit {0})
wait_from runtime addr i zero =
    err (bytes "timeout waiting for " ++ addr ++ bytes " to become ready")
wait_from runtime addr i (suc n) =
    let rest = wait_from runtime addr (i + 1) n in
    elim (runtime.cancelled i) [
      | some e ↦ err e
      | none ↦ if runtime.ready addr i then ok tt else rest
    ]

unfoldable pub wait_for_ready : ContainerRuntime → Str → Result Str (Unit {0})
unfolding wait_from
wait_for_ready runtime addr = wait_from runtime addr 0 60

-- A container of an earlier session: the service that uses it, or its removal.
unfoldable pub reuse : ContainerRuntime → LazyService → Option LazyService × List Call
reuse runtime s = elim (runtime.find_existing s.config.name) [
  | err e ↦ (none, [])
  | ok (id, running) ↦
      if str_eq id []
      then (none, [])
      else (if running
          then elim (runtime.host_port id s.config.internal_port) [
            | ok addr ↦
                (some (record s { container_id = id; host_addr = addr; started = true }), [])
            | err e ↦ (none, remove id ∷ [])
          ]
          else (none, remove id ∷ []))
]

abbrev pub Outcome : Type 0
Outcome = Result Str Str × LazyService × List Call

-- From the start of the container on; the service has its identifier.
unfoldable pub start_container : ContainerRuntime → LazyService → Str → Outcome
unfolding wait_for_ready failure
start_container runtime s id = elim (runtime.start id) [
  | err e ↦ (err (failure (bytes "start") s.config.name e), s, start id ∷ remove id ∷ [])
  | ok u ↦ elim (runtime.host_port id s.config.internal_port) [
    | err e ↦
        (err (failure (bytes "host port") s.config.name e), s, start id ∷ stop id ∷ remove id ∷ [])
    | ok addr ↦ elim (wait_for_ready runtime addr) [
      | err e ↦ (
        err (failure (bytes "health check") s.config.name e),
        s,
        start id ∷ stop id ∷ remove id ∷ [],
      )
      | ok u ↦ (ok addr, record s { host_addr = addr; started = true }, start id ∷ [])
    ]
  ]
]

unfoldable pub new_container : ContainerRuntime → LazyService → Outcome
unfolding start_container failure
new_container runtime s = elim (runtime.pull s.config.image) [
  | err e ↦ (err (failure (bytes "pull") s.config.image e), s, [])
  | ok u ↦ elim (runtime.create s.config) [
    | err e ↦ (err (failure (bytes "create") s.config.name e), s, [])
    | ok id ↦
        let (result, t, calls) = start_container runtime (record s { container_id = id }) id in
        (result, t, create id ∷ calls)
  ]
]

unfoldable pub ensure_container : ContainerRuntime → LazyService → Outcome
unfolding reuse new_container
ensure_container runtime s =
    if s.started
    then (ok s.host_addr, s, [])
    else let (reused, calls) = reuse runtime s in
      elim reused [
        | some t ↦ (ok t.host_addr, t, calls)
        | none ↦ let (result, t, more) = new_container runtime s in (result, t, calls ++ more)
      ]

unfoldable pub shutdown : LazyService → LazyService × List Call
shutdown s =
    if not s.started || str_eq s.container_id []
    then (s, [])
    else (record s { started = false }, stop s.container_id ∷ remove s.container_id ∷ [])
