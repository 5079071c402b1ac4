-- ===== src/Command/Entry.antt =====
-- internal/cmd/rootcmd: what holds of a process from its flags on.
use kong_portal_controller.Base.{
  ◌≡◌, ◌⊎◌, inl, inr, true, false, Option, none, some, List, arith, Error, wrap, Result, err,
  Result-cases, Option-cases, returns, if◌then◌else◌,
}
use kong_portal_controller.Admission.Tls.{TlsLib}
use kong_portal_controller.AdminApi.{CertLib}
use kong_portal_controller.AdminApi.Workspace.{WorkspaceLib}
use kong_portal_controller.Proxy.Startup.{VersionLib}
use kong_portal_controller.Logging.{
  Logger, make_logger, make_logger_iff, level_name, formatter_name,
}
use kong_portal_controller.Command.Env.{Flag, bind_env_vars}
use kong_portal_controller.Command.Root.{
  diagnostics_port, Listener, Process, start_diagnostics_server, run_servers, configure, execute,
}
use kong_portal_controller.Manager.{Config}
use kong_portal_controller.Manager.Controllers.{ManagerLib}
use kong_portal_controller.Manager.Flags.{Value, PflagLib, flag_lib, config_of}
use kong_portal_controller.Manager.Run.{StartLib, run}

-- The listener that the configuration asks for.
abbrev pub listener_of : Config → Option Listener
listener_of c =
    if c.enable_profiling
    then some (record {
      server = record {
        profiling_enabled = true;
        config_lock = some (record { readers = 0; writer = false });
      };
      port = diagnostics_port;
    })
    else none

module _ (T : CertLib) (W : WorkspaceLib) (X : TlsLib) (V : VersionLib) (M : ManagerLib)
    (S : StartLib W M) (P : PflagLib) where
  -- A process that was started with no manager and no diagnostics server, and whose manager runs, has
  -- got there from flags that were bound without an error, with a log level and a log format that
  -- exist; it serves the diagnostics exactly when profiling is switched on; and `manager.Run` on the
  -- configuration of these flags gave its reply and its state.
  pub execute-running :
      (flags : List (Flag Value)) (p p' : Process T W X V M) (reply : Result (Unit {0}))
      (mgr : M.Manager)
      → p.startup.running ≡ none
      → p.diagnostics ≡ none
      → execute T W X V M S P flags p ≡ returns (reply, p')
      → p'.startup.running ≡ some mgr
      → (bound : List (Flag Value)) × (bind_env_vars (flag_lib P) flags ≡ (none, bound))
        × ((log : Logger) × ((config_of bound).log_level ≡ level_name log.level)
            × ((config_of bound).log_format ≡ formatter_name log.formatter))
        × (p'.diagnostics ≡ listener_of (config_of bound))
        × (run T W X V M S (configure T W X V M S bound p).startup ≡ returns (reply, p'.startup))
  unfolding execute run_servers start_diagnostics_server
  execute-running flags p p' reply mgr fresh off h running =
      elim (Option-cases (bind_env_vars (flag_lib P) flags).0) [
        | inr (e, bad) ↦ absurd (ground arith)
        | inl fine ↦
            let bound = (bind_env_vars (flag_lib P) flags).1 in
            let c = config_of bound in
            elim (Result-cases (make_logger c.log_level c.log_format)) [
              | inr (e, bad) ↦ absurd (ground arith)
              | inl (log, made) ↦
                  let (level, format) = (make_logger_iff c.log_level c.log_format log).0 made in
                  (bound, ground arith, (log, level, format), ground arith, ground arith)
            ]
      ]

  -- When the binding of the flags fails with an error, `Execute` returns it, and when the logger cannot be
  -- made, it returns that error as one of the diagnostics server; either way the process has started
  -- nothing: only the configuration is written.
  pub execute-refused :
      (flags bound : List (Flag Value)) (failed : Option Error) (p p' : Process T W X V M)
      (reply : Result (Unit {0})) (e : Error)
      → bind_env_vars (flag_lib P) flags ≡ (failed, bound)
      → (failed ≡ some e)
        ⊎ ((failed ≡ none)
            × (make_logger (config_of bound).log_level (config_of bound).log_format ≡ err e))
      → execute T W X V M S P flags p ≡ returns (reply, p')
      → ((failed ≡ some e) × (reply ≡ err e)
          ⊎ (failed ≡ none) × (reply ≡ err (wrap "failed to start diagnostics server" e)))
        × (p' ≡ configure T W X V M S bound p)
  unfolding execute run_servers start_diagnostics_server
  execute-refused flags bound failed p p' reply e binds (inl bad) h =
      (inl (bad, ground arith), ground arith)
  execute-refused flags bound failed p p' reply e binds (inr (fine, bad)) h =
      (inr (fine, ground arith), ground arith)
