-- ===== src/Tests/Running.antt =====
-- The theorems on the whole start at a concrete configuration.
use kong_portal_controller.Fixtures.Startup.{watching}
use kong_portal_controller.Base.{
  ◌≡◌, ◌↔◌, refl, false, some, Result, ok, err, ◌⊎◌, Option, Error, none, returns, string_dec,
  ℕ_discrete,
}
use kong_portal_controller.Admission.Tls.{
  TlsServer, to_tls_config, make_tls_server, source_of, read_key_pair_files, default_cert_path,
  default_key_path,
}
use kong_portal_controller.Base.Split.{cut}
use kong_portal_controller.AdminApi.{
  make_http_client, load_root_cas, check_client_flags, read_client_cert, read_client_key,
  client_certificates,
}
use kong_portal_controller.AdminApi.Workspace.{get_kong_client_for_workspace}
use kong_portal_controller.Logging.{make_logger, get_logrus_level, get_logrus_formatter}
use kong_portal_controller.Proxy.Startup.{
  Resolver, is_ready, IsSupported, new_cache_based_proxy, as_fields, as_text,
}
use kong_portal_controller.Manager.{get_kubeconfig}
use kong_portal_controller.Manager.Kong.{get_kong_client, add_token, setup_kong_config}
use kong_portal_controller.Manager.Options.{Options, setup_controller_options, required_namespaces}
use kong_portal_controller.Manager.Webhook.{setup_admission_server, setup_loggers}
use kong_portal_controller.Manager.Controllers.{
  setup_all, setup_controllers, reconciler_setup_with_manager, crd_exists, maybe_setup_with_manager,
}
use kong_portal_controller.Manager.Run.{
  Startup, as_result, run, prepare, finish, setup_proxy_server,
}
use kong_portal_controller.Manager.Started.{run-started}
use kong_portal_controller.Manager.Ending.{run-returns}
use kong_portal_controller.Fixtures.Registries.{taken}
use kong_portal_controller.Fixtures.Running.{library, before}
use kong_portal_controller.Fixtures.Startup.{
  certs, workspaces, tls, versions, manager, setting_after, resolver,
}

abbrev after : Startup certs workspaces tls versions manager
after = record {
  setting = setting_after;
  webhook = some (record { addr = ":8080"; key_pair = (default_cert_path, default_key_path) });
  readiness = some resolver;
  running = some watching;
  registry = taken;
}

ran : run certs workspaces tls versions manager library before ≡ returns (ok tt, after)
unfolding run prepare finish setup_proxy_server string_dec to_tls_config make_tls_server source_of
    read_key_pair_files make_http_client load_root_cas check_client_flags read_client_cert
    read_client_key client_certificates get_kong_client_for_workspace make_logger get_logrus_level
    get_logrus_formatter new_cache_based_proxy as_fields as_text get_kubeconfig get_kong_client
    add_token setup_kong_config setup_controller_options required_namespaces setup_admission_server
    setup_loggers setup_all setup_controllers reconciler_setup_with_manager crd_exists
    maybe_setup_with_manager cut ℕ_discrete
ran = refl

run-started_example :
    ((e : Option Error) × (library.start watching ≡ returns e) × (ok tt ≡ as_result e))
    × ((o : Options) × (setup_controller_options setting_after.config ≡ ok o))
    × ((server : TlsServer tls.KeyPair) × (after.webhook ≡ some server)
        × (setup_admission_server tls setting_after.config ≡ ok server))
    × ((p : Resolver versions) × (some resolver ≡ some p)
        × IsSupported versions p.dbmode
        × ((is_ready versions p ≡ false) ↔ (p.dbmode ≡ "off")))
run-started_example =
    run-started certs workspaces tls versions manager library before after (ok tt) watching refl ran
      refl

run-returns_example :
    (reply : Result (Unit {0})) × (s' : Startup certs workspaces tls versions manager) × (run certs
        workspaces tls versions manager library before
      ≡ returns (reply, s'))
    × (((e : Error) × (reply ≡ err e) × (s'.running ≡ none))
        ⊎ ((mgr : manager.Manager) × (e : Option Error) × (s'.running ≡ some mgr)
            × (library.start mgr ≡ returns e)
            × (reply ≡ as_result e)))
run-returns_example =
    run-returns certs workspaces tls versions manager library before refl (taken, refl)
      (λ mgr. refl) refl
