-- ===== src/Orchestrator/Examples.antt =====
-- internal/orchestrator: a service without a container, and a runtime that has an old one.
use blitzy_localgcp.Base.{refl, [], none, false, true, bytes, ok}
use blitzy_localgcp.Orchestrator.{LazyService, ContainerRuntime, ensure_container}
use blitzy_localgcp.Orchestrator.Containers.{Settled, ensure_container-Settled}

abbrev the_service : LazyService
the_service = record {
  config = record {
    name = bytes "redis";
    image = bytes "redis:7";
    internal_port = bytes "6379/tcp";
  };
  container_id = [];
  host_addr = [];
  started = false;
}

-- The old container does not run, and the new one is ready at once.
abbrev the_runtime : ContainerRuntime
the_runtime = record {
  find_existing = λ name. ok (bytes "old", false);
  host_port = λ id port. ok (bytes "127.0.0.1:32768");
  pull = λ image. ok tt;
  create = λ config. ok (bytes "new");
  start = λ id. ok tt;
  ready = λ addr i. true;
  cancelled = λ i. none;
  removes = λ id. false;
}

ensure_container-Settled_example :
    let (result, t, calls) = ensure_container the_runtime the_service in
    Settled the_runtime result t calls
ensure_container-Settled_example = ensure_container-Settled the_runtime the_service refl
