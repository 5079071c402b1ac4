-- ===== src/Manager/Run.antt =====
-- internal/manager/run.go: `Run`; setup.go: `setupProxyServer`. Log lines are left out.
use kong_portal_controller.Base.Action.{Action, ◌>>=◌, ◌>>◌, reads, checked, wrapped}
use kong_portal_controller.Base.{
  quoted, String, ◌<>◌, Option, none, some, Error, message, wrap, Result, ok, err, context, Outcome,
  returns, panics, blocks,
}
use kong_portal_controller.Base.Int.{ℤ}
use kong_portal_controller.Admission.Tls.{TlsLib, TlsServer}
use kong_portal_controller.AdminApi.{CertLib}
use kong_portal_controller.AdminApi.Workspace.{WorkspaceLib}
use kong_portal_controller.Proxy.Startup.{
  Fields, lookup_field, as_fields, as_text, VersionLib, Resolver, new_cache_based_proxy,
}
use kong_portal_controller.Manager.{RestConfig, get_kubeconfig}
use kong_portal_controller.Manager.Kong.{Setting, KongConfig, setup_kong_config}
use kong_portal_controller.Manager.Options.{Options, setup_controller_options}
use kong_portal_controller.Manager.Webhook.{setup_loggers, setup_admission_server}
use kong_portal_controller.Manager.Controllers.{ManagerLib, setup_controllers, setup_all}

-- What the start uses beside the libraries of its parts: the request for the root document of the
-- Admin API, `time.ParseDuration`, and the manager of controller-runtime. `start` is `mgr.Start`, which
-- blocks until the context ends: its outcome is `blocks` if that never happens.
pub record StartLib (W : WorkspaceLib) (M : ManagerLib) : Type 1 where
  pub root : W.Client → W.Server → Result Fields × W.Server
  pub parse_duration : String → Result ℤ
  pub build_config_from_flags : String → String → Result RestConfig
  pub new_manager : RestConfig → Options → Result M.Manager
  pub add : M.Manager → Option Error × M.Manager
  pub add_healthz_check : M.Manager → Option Error × M.Manager
  pub add_readyz_check : M.Manager → Option Error × M.Manager
  pub start : M.Manager → Outcome (Option Error)

-- The errors of `Run` on a root document that has not the expected form; the type that they print
-- after "got" is left out.
database_of : Fields → Result String
database_of root = elim (as_fields (lookup_field "configuration" root)) [
  | none ↦ err (message "invalid root configuration, expected a map[string]interface{}")
  | some config ↦ elim (as_text (lookup_field "database" config)) [
    | none ↦ err (message "invalid database configuration, expected a string")
    | some mode ↦ ok mode
  ]
]

abbrev pub as_result : Option Error → Result (Unit {0})
as_result none = ok tt
as_result (some e) = err e

-- A call that changes the manager.
abbrev on_manager : {S Mgr : Type 0} → (Mgr → Option Error × Mgr) → Mgr → Action S Mgr
on_manager call mgr = reads (λ _. checked (call mgr))

module _ (T : CertLib) (W : WorkspaceLib) (X : TlsLib) (V : VersionLib) (M : ManagerLib) where
  -- What a start changes: the setting, the webhook that a goroutine serves, the proxy that the
  -- readiness check asks, the manager once it runs, and the registry of the metrics.
  pub record Startup : Type 0 where
    pub setting : Setting T W
    pub webhook : Option (TlsServer X.KeyPair)
    pub readiness : Option (Resolver V)
    pub running : Option M.Manager
    pub registry : V.metrics.Registry

  module _ (S : StartLib W M) where
    -- `Client.Root`
    abbrev fetch_root : W.Client → Action Startup (Result Fields)
    fetch_root client s =
        let (root, server) = S.root client s.setting.session.server in
        returns (
          ok root,
          record s {
            setting = record (s.setting) {
              session = record (s.setting.session) { server = server };
            };
          },
        )

    abbrev connect : Action Startup (KongConfig T W)
    connect s = elim (setup_kong_config T W s.setting) [
      | panics ↦ panics
      | blocks ↦ blocks
      | returns (result, setting) ↦ returns (
        context "unable to build the kong admin api developer" result,
        record s { setting = setting },
      )
    ]

    abbrev build_proxy : Result Fields → Action Startup (Resolver V)
    build_proxy root s = elim (new_cache_based_proxy V root s.registry) [
      | panics ↦ panics
      | blocks ↦ blocks
      | returns (result, registry) ↦ returns (result, record s { registry = registry })
    ]

    -- The root document is asked for within `initialize`. The proxy is added to the manager.
    unfoldable pub setup_proxy_server :
        W.Client → M.Manager → Action Startup (Resolver V × M.Manager)
    setup_proxy_server client mgr = do
      timeout ← reads (λ s. S.parse_duration (s.setting.config.proxy_timeout_seconds <> "s"))
      root ← fetch_root client
      proxy ← build_proxy root
      mgr' ← on_manager S.add mgr
      reads (λ _. ok (proxy, mgr'))

    -- The server starts to listen in a goroutine.
    abbrev pub start_webhook : Action Startup (Unit {0})
    start_webhook s = elim (setup_admission_server X s.setting.config) [
      | err e ↦ returns (err e, s)
      | ok server ↦ returns (ok tt, record s { webhook = some server })
    ]

    abbrev check_readiness : Resolver V → M.Manager → Action Startup M.Manager
    check_readiness proxy mgr s = elim (checked (S.add_readyz_check mgr)) [
      | err e ↦ returns (err (wrap "unable to setup readyz" e), s)
      | ok mgr' ↦ returns (ok mgr', record s { readiness = some proxy })
    ]

    -- `mgr.Start`
    abbrev start_manager : M.Manager → Action Startup (Unit {0})
    start_manager mgr s = elim (S.start mgr) [
      | panics ↦ panics
      | blocks ↦ blocks
      | returns e ↦ returns (as_result e, record s { running = some mgr })
    ]

    -- `Run` up to the manager.
    unfoldable pub prepare : Action Startup (W.Client × M.Manager)
    unfolding database_of
    prepare = do
      logger ← reads (λ s. setup_loggers s.setting.config)
      kubeconfig ← reads (λ s.
          let c = s.setting.config in
          context ("get kubeconfig from file " <> quoted c.kubeconfig_path)
            (get_kubeconfig S.build_config_from_flags c))
      kong ← connect
      answer ← fetch_root kong.client
      root ← reads (λ _. context "could not retrieve Kong admin root" answer)
      mode ← reads (λ _. database_of root)
      options ← reads (λ s.
          context "unable to setup controller options" (setup_controller_options s.setting.config))
      mgr ←
          reads
            (λ _. context "unable to start controller manager" (S.new_manager kubeconfig options))
      reads (λ _. ok (kong.client, mgr))

    -- `Run` from the controllers on.
    unfoldable pub finish : Resolver V → M.Manager → Action Startup (Unit {0})
    finish proxy mgr = do
      mgr₁ ← reads (λ s.
          checked (setup_all M (setup_controllers M s.setting.config.controller_class_name) mgr))
      mgr₂ ← reads (λ _. context "unable to setup healthz" (checked (S.add_healthz_check mgr₁)))
      mgr₃ ← check_readiness proxy mgr₂
      start_manager mgr₃

    unfoldable pub run : Action Startup (Unit {0})
    run = do
      prepared ← prepare
      start_webhook
      served ←
          wrapped "unable to initialize proxy cache server"
            (setup_proxy_server prepared.0 prepared.1)
      finish served.0 served.1
