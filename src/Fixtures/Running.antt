-- ===== src/Fixtures/Running.antt =====
-- A manager that runs, and the state before the start.
use kong_portal_controller.Base.{none, [], ok, returns}
use kong_portal_controller.Base.Int.{pos}
use kong_portal_controller.Manager.Run.{StartLib, Startup}
use kong_portal_controller.Fixtures.Startup.{
  certs, workspaces, tls, versions, manager, setting, root,
}

-- Everything works, and the manager ends without an error.
abbrev pub library : StartLib workspaces manager
library = record {
  root = λ client s. (ok root, s);
  parse_duration = λ text. ok (pos 10000000000);
  build_config_from_flags = λ host path. ok (record { host = host; qps = pos 0; burst = pos 0 });
  new_manager = λ rest options. ok [];
  add = λ mgr. (none, mgr);
  add_healthz_check = λ mgr. (none, mgr);
  add_readyz_check = λ mgr. (none, mgr);
  start = λ mgr. returns none;
}

abbrev pub before : Startup certs workspaces tls versions manager
before = record {
  setting = setting;
  webhook = none;
  readiness = none;
  running = none;
  registry = [];
}
