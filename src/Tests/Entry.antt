-- ===== src/Tests/Entry.antt =====
-- The theorems on the process from its flags on, without arguments and without variables.
use kong_portal_controller.Fixtures.Startup.{watching}
use kong_portal_controller.Base.{
  ◌≡◌, refl, true, none, some, List, [], ◌∷◌, Error, message, wrap, quoted, ◌<>◌, Result, ok, err,
  returns, string_dec, ℕ_discrete, if◌then◌else◌, ◌==◌, string_eq, nat_eq,
}
use kong_portal_controller.Admission.Tls.{
  to_tls_config, make_tls_server, source_of, read_key_pair_files, default_cert_path,
  default_key_path,
}
use kong_portal_controller.Base.Split.{cut}
use kong_portal_controller.AdminApi.{
  make_http_client, load_root_cas, check_client_flags, read_client_cert, read_client_key,
  client_certificates, install,
}
use kong_portal_controller.AdminApi.Workspace.{get_kong_client_for_workspace}
use kong_portal_controller.Logging.{
  Logger, level_name, formatter_name, make_logger, get_logrus_level, get_logrus_formatter,
}
use kong_portal_controller.Proxy.Startup.{new_cache_based_proxy, as_fields, as_text}
use kong_portal_controller.Fixtures.Registries.{taken}
use kong_portal_controller.Manager.{Config, get_kubeconfig}
use kong_portal_controller.Manager.Kong.{get_kong_client, add_token, setup_kong_config}
use kong_portal_controller.Manager.Options.{setup_controller_options, required_namespaces}
use kong_portal_controller.Manager.Webhook.{setup_admission_server, setup_loggers}
use kong_portal_controller.Manager.Controllers.{
  setup_all, setup_controllers, reconciler_setup_with_manager, crd_exists, maybe_setup_with_manager,
}
use kong_portal_controller.Manager.Run.{run, prepare, finish, setup_proxy_server}
use kong_portal_controller.Command.Env.{Flag, env_key, visit, bind_env_vars}
use kong_portal_controller.Command.Root.{
  Process, start_diagnostics_server, run_servers, configure, execute,
}
use kong_portal_controller.Command.Entry.{listener_of, execute-running}
use kong_portal_controller.Manager.Flags.{
  Value, string_var, bool_var, PflagLib, flag_lib, flag_set, value_of, config_of,
}
use kong_portal_controller.Fixtures.Running.{library, before}
use kong_portal_controller.Fixtures.Startup.{
  certs, workspaces, tls, versions, manager, free, resolver,
}

abbrev pflag : PflagLib
pflag = record {
  parse_bool = λ s. ok true;
  read_csv = λ s. ok (s ∷ []);
  parse_int = λ s. err (message "not a number");
  parse_duration = λ s. err (message "not a duration");
  parse_float = λ s. ok s;
  lookup_env = λ key. none;
}

-- The declared flags, with the flag --profiling.
abbrev profile : List (Flag Value) → List (Flag Value)
profile [] = []
profile (f ∷ fs) =
    let rest = profile fs in
    if f.name == "profiling"
    then record f { changed = true; value = bool_var true } ∷ rest
    else f ∷ rest

abbrev given : List (Flag Value)
given = profile flag_set

abbrev config : Config
config = config_of given

abbrev idle : Process certs workspaces tls versions manager
idle = record { startup = before; diagnostics = none }

abbrev ends : Process certs workspaces tls versions manager
ends = record {
  startup = record {
    setting = record {
      config = config;
      defaults = install certs config.kong_admin_api_config none [];
      session = free;
    };
    webhook = some (record { addr = "off"; key_pair = (default_cert_path, default_key_path) });
    readiness = some resolver;
    running = some watching;
    registry = taken;
  };
  diagnostics = listener_of config;
}

executed :
    execute certs workspaces tls versions manager library pflag given idle ≡ returns (ok tt, ends)
unfolding execute run_servers start_diagnostics_server bind_env_vars visit env_key config_of
    value_of run prepare finish setup_proxy_server string_dec to_tls_config make_tls_server
    source_of read_key_pair_files make_http_client load_root_cas check_client_flags read_client_cert
    read_client_key client_certificates get_kong_client_for_workspace make_logger get_logrus_level
    get_logrus_formatter new_cache_based_proxy as_fields as_text get_kubeconfig get_kong_client
    add_token setup_kong_config setup_controller_options required_namespaces setup_admission_server
    setup_loggers setup_all setup_controllers reconciler_setup_with_manager crd_exists
    maybe_setup_with_manager cut ℕ_discrete
executed = refl

execute-running_example :
    (bound : List (Flag Value)) × (bind_env_vars (flag_lib pflag) given ≡ (none, bound))
    × ((log : Logger) × ((config_of bound).log_level ≡ level_name log.level)
        × ((config_of bound).log_format ≡ formatter_name log.formatter))
    × (ends.diagnostics ≡ listener_of (config_of bound))
    × (run certs workspaces tls versions manager library
          (configure certs workspaces tls versions manager library bound idle).startup
        ≡ returns (ok tt, ends.startup))
execute-running_example =
    execute-running certs workspaces tls versions manager library pflag given idle ends (ok tt)
      watching refl refl executed refl

-- A log level that does not exist.
abbrev wrong : List (Flag Value)
wrong = record { name = "log-level"; changed = true; value = string_var "loud" } ∷ []

abbrev refusal : Error
refusal = wrap "setting log level failed" (message (quoted "loud" <> " is not a valid log level"))

abbrev refused : Process certs workspaces tls versions manager
refused = configure certs workspaces tls versions manager library wrong idle

wrong-executed :
    execute certs workspaces tls versions manager library pflag wrong idle
    ≡ returns (err (wrap "failed to start diagnostics server" refusal), refused)
unfolding execute run_servers start_diagnostics_server bind_env_vars visit env_key config_of
    value_of make_logger get_logrus_level string_dec
wrong-executed = refl

wrong-bound : bind_env_vars (flag_lib pflag) wrong ≡ (none, wrong)
unfolding bind_env_vars visit
wrong-bound = refl

wrong_level : make_logger (config_of wrong).log_level (config_of wrong).log_format ≡ err refusal
unfolding config_of value_of make_logger get_logrus_level string_dec
wrong_level = refl

abbrev refused_reply : Result (Unit {0})
refused_reply = err (wrap "failed to start diagnostics server" refusal)
