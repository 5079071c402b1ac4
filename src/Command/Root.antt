-- ===== src/Command/Root.antt =====
-- internal/cmd/rootcmd/servers.go, run.go, rootcmd.go: from the flags that cobra has parsed to the
-- manager. Log lines are left out.
use kong_portal_controller.Base.Action.{Action, ◌>>=◌, wrapped}
use kong_portal_controller.Base.{
  String, false, not, Option, none, some, List, ok, err, returns, panics, blocks, if◌then◌else◌,
}
use kong_portal_controller.Admission.Tls.{TlsLib}
use kong_portal_controller.AdminApi.{CertLib}
use kong_portal_controller.AdminApi.Workspace.{WorkspaceLib}
use kong_portal_controller.Proxy.Startup.{VersionLib}
use kong_portal_controller.Diagnostics.{Server}
use kong_portal_controller.Logging.{make_logger}
use kong_portal_controller.Command.Env.{Flag, bind_env_vars}
use kong_portal_controller.Manager.{Config}
use kong_portal_controller.Manager.Controllers.{ManagerLib}
use kong_portal_controller.Manager.Flags.{Value, PflagLib, flag_lib, config_of}
use kong_portal_controller.Manager.Run.{StartLib, Startup, run}

-- internal/manager/consts.go, as `%d` prints it.
abbrev pub diagnostics_port : String
diagnostics_port = "10256"

-- `diagnostics.Server{}`
abbrev pub empty_server : Server
empty_server = record { profiling_enabled = false; config_lock = none }

-- A call of `Listen` in a goroutine: the server and the port.
pub record Listener : Type 0 where
  pub server : Server
  pub port : String

module _ (T : CertLib) (W : WorkspaceLib) (X : TlsLib) (V : VersionLib) (M : ManagerLib) where
  -- The process: what the start of the manager changes, and the diagnostics server that a goroutine
  -- serves. The configuration is the variable `cfg`.
  pub record Process : Type 0 where
    pub startup : Startup T W X V M
    pub diagnostics : Option Listener

  abbrev pub profiling_server : Config → Server
  profiling_server c = record {
    profiling_enabled = c.enable_profiling;
    config_lock = some (record { readers = 0; writer = false });
  }

  unfoldable pub start_diagnostics_server : String → Config → Action Process Server
  start_diagnostics_server port c p = elim (make_logger c.log_level c.log_format) [
    | err e ↦ returns (err e, p)
    | ok logger ↦
        if not c.enable_profiling
        then returns (ok empty_server, p)
        else returns (
          ok (profiling_server c),
          record p { diagnostics = some (record { server = profiling_server c; port = port }) },
        )
  ]

  -- The configuration as it stands when `f` is called.
  abbrev with_config : {A : Type 0} → (Config → Action Process A) → Action Process A
  with_config f p = f p.startup.setting.config p

  module _ (S : StartLib W M) where
    -- `manager.Run`
    abbrev run_manager : Action Process (Unit {0})
    run_manager p = elim (run T W X V M S p.startup) [
      | panics ↦ panics
      | blocks ↦ blocks
      | returns (result, startup) ↦ returns (result, record p { startup = startup })
    ]

    -- `rootcmd.Run`
    unfoldable pub run_servers : Action Process (Unit {0})
    run_servers = do
      server ←
          wrapped "failed to start diagnostics server"
            (with_config (start_diagnostics_server diagnostics_port))
      run_manager

    -- The flags write into `cfg`.
    abbrev pub configure : List (Flag Value) → Process → Process
    configure flags p = record p {
      startup = record (p.startup) {
        setting = record (p.startup.setting) { config = config_of flags };
      };
    }

    -- `PersistentPreRunE`, and then `RunE` unless it fails.
    unfoldable pub execute : PflagLib → List (Flag Value) → Action Process (Unit {0})
    execute P flags p =
        let (failed, bound) = bind_env_vars (flag_lib P) flags in
        elim failed [
          | some e ↦ returns (err e, configure bound p)
          | none ↦ run_servers (configure bound p)
        ]
