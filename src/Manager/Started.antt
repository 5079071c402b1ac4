-- ===== src/Manager/Started.antt =====
-- What holds once `Run` has started the manager.
use kong_portal_controller.Base.Action.{wrapped, bind_broken}
use kong_portal_controller.Base.{
  ◌≡◌, ◌↔◌, ◌∙◌, false, none, some, arith, Option, Error, Result, ok, Result-cases, Returns-cases,
  inl, inr, returns, string_eq, nat_eq,
}
use kong_portal_controller.Admission.Tls.{TlsLib, TlsServer}
use kong_portal_controller.AdminApi.{CertLib}
use kong_portal_controller.AdminApi.Workspace.{WorkspaceLib}
use kong_portal_controller.Proxy.Startup.{
  Fields, VersionLib, Resolver, new_cache_based_proxy, is_ready, IsSupported, built_resolver,
}
use kong_portal_controller.Manager.Options.{Options, setup_controller_options}
use kong_portal_controller.Manager.Webhook.{setup_admission_server}
use kong_portal_controller.Manager.Controllers.{ManagerLib}
use kong_portal_controller.Manager.Run.{
  StartLib, Startup, as_result, start_webhook, run, prepare, finish, setup_proxy_server,
}

module _ (T : CertLib) (W : WorkspaceLib) (X : TlsLib) (V : VersionLib) (M : ManagerLib)
    (S : StartLib W M) where
  proxy_built :
      (client : W.Client) (mgr : M.Manager) (s s' : Startup T W X V M) (p : Resolver V)
      (mgr' : M.Manager)
      → wrapped "unable to initialize proxy cache server"
          (setup_proxy_server T W X V M S client mgr)
          s
        ≡ returns (ok (p, mgr'), s')
      → (root : Result Fields) × (new_cache_based_proxy V root s.registry
          ≡ returns (ok p, s'.registry))
        × (s'.webhook ≡ s.webhook)
        × (s'.setting.config ≡ s.setting.config)
  unfolding setup_proxy_server
  proxy_built client mgr s s' p mgr' h =
      ((S.root client s.setting.session.server).0, ground arith, ground arith, ground arith)

  proxy-running :
      (client : W.Client) (mgr : M.Manager) (s s' : Startup T W X V M)
      (r : Result (Resolver V × M.Manager))
      → wrapped "unable to initialize proxy cache server"
          (setup_proxy_server T W X V M S client mgr)
          s
        ≡ returns (r, s')
      → s'.running ≡ s.running
  unfolding setup_proxy_server
  proxy-running client mgr s s' r h = ground arith

  prepare-running :
      (s s' : Startup T W X V M) (r : Result (W.Client × M.Manager))
      → prepare T W X V M S s ≡ returns (r, s')
      → s'.running ≡ s.running
  unfolding prepare
  prepare-running s s' r h = ground arith

  prepared :
      (s s' : Startup T W X V M) (client : W.Client) (mgr : M.Manager)
      → prepare T W X V M S s ≡ returns (ok (client, mgr), s')
      → (o : Options) × (setup_controller_options s'.setting.config ≡ ok o)
  unfolding prepare
  prepared s s' client mgr h = elim (Result-cases (setup_controller_options s'.setting.config)) [
    | inl fine ↦ fine
    | inr (e, bad) ↦ absurd (ground arith)
  ]

  finish-result :
      (proxy : Resolver V) (mgr mgr' : M.Manager) (s s' : Startup T W X V M) (r : Result (Unit {0}))
      → finish T W X V M S proxy mgr s ≡ returns (r, s')
      → s.running ≡ none
      → s'.running ≡ some mgr'
      → (e : Option Error) × (S.start mgr' ≡ returns e) × (r ≡ as_result e)
  unfolding finish
  finish-result proxy mgr mgr' s s' r h fresh started = elim (Returns-cases (S.start mgr')) [
    | inl (e, back) ↦ (e, back, ground arith)
    | inr (inl crash) ↦ absurd (ground arith)
    | inr (inr stuck) ↦ absurd (ground arith)
  ]

  finish-running :
      (proxy : Resolver V) (mgr mgr' : M.Manager) (s s' : Startup T W X V M) (r : Result (Unit {0}))
      → finish T W X V M S proxy mgr s ≡ returns (r, s')
      → s.running ≡ none
      → s'.running ≡ some mgr'
      → ((e : Option Error) × (S.start mgr' ≡ returns e) × (r ≡ as_result e))
        × (s'.readiness ≡ some proxy)
        × (s'.webhook ≡ s.webhook)
        × (s'.setting ≡ s.setting)
  unfolding finish
  finish-running proxy mgr mgr' s s' r h fresh started = (
    finish-result proxy mgr mgr' s s' r h fresh started,
    ground arith,
    ground arith,
    ground arith,
  )

  webhook_started :
      (s s' : Startup T W X V M) (u : Unit {0})
      → start_webhook T W X V M S s ≡ returns (ok u, s')
      → (server : TlsServer X.KeyPair) × (s'.webhook ≡ some server)
        × (setup_admission_server X s'.setting.config ≡ ok server)
        × (s'.setting ≡ s.setting)
  webhook_started s s' u h = elim (Result-cases (setup_admission_server X s.setting.config)) [
    | inl (server, fine) ↦ (server, ground arith, ground arith, ground arith)
    | inr (e, bad) ↦ absurd (ground arith)
  ]

  webhook-running :
      (s s' : Startup T W X V M) (r : Result (Unit {0}))
      → start_webhook T W X V M S s ≡ returns (r, s')
      → s'.running ≡ s.running
  webhook-running s s' r h = ground arith

  abbrev Fresh : Startup T W X V M → Type 0
  Fresh s = s.running ≡ none

  -- Once `Run` has started the manager, and returns, its reply is that of the manager, the options are those of a
  -- configuration that is accepted, the webhook serves with the TLS settings of the configuration,
  -- and the readiness check asks a proxy over a Kong with a supported database mode. The check fails
  -- exactly if that mode is "off".
  pub run-started :
      (s s' : Startup T W X V M) (reply : Result (Unit {0})) (mgr : M.Manager)
      → s.running ≡ none
      → run T W X V M S s ≡ returns (reply, s')
      → s'.running ≡ some mgr
      → ((e : Option Error) × (S.start mgr ≡ returns e) × (reply ≡ as_result e))
        × ((o : Options) × (setup_controller_options s'.setting.config ≡ ok o))
        × ((server : TlsServer X.KeyPair) × (s'.webhook ≡ some server)
            × (setup_admission_server X s'.setting.config ≡ ok server))
        × ((p : Resolver V) × (s'.readiness ≡ some p)
            × IsSupported V p.dbmode
            × ((is_ready V p ≡ false) ↔ (p.dbmode ≡ "off")))
  unfolding run
  run-started s s' reply mgr fresh h started =
      let broken : ¬ Fresh s' = λ none_running. absurd (ground arith) in
      let ((client, m), s₁, e₁, fresh₁, h₁) =
        bind_broken Fresh (prepare T W X V M S) _ s s' reply
          (λ x y r e f. prepare-running x y r e ∙ f) fresh broken h in
      let (u, s₂, e₂, fresh₂, h₂) =
        bind_broken Fresh (start_webhook T W X V M S) _ s₁ s' reply
          (λ x y r e f. webhook-running x y r e ∙ f) fresh₁ broken h₁ in
      let ((p, m'), s₃, e₃, fresh₃, h₃) =
        bind_broken Fresh
          (wrapped "unable to initialize proxy cache server"
            (setup_proxy_server T W X V M S client m))
          _ s₂ s' reply (λ x y r e f. proxy-running client m x y r e ∙ f) fresh₂ broken h₂ in
      let (o, accepted) = prepared s s₁ client m e₁ in
      let (server, serves, made, kept) = webhook_started s₁ s₂ u e₂ in
      let (root, built, webhook, config) = proxy_built client m s₂ s₃ p m' e₃ in
      let (replied, ready, webhook', setting) =
        finish-running p m' mgr s₃ s' reply h₃ fresh₃ started in
      let (supported, memory, unready, leader) =
        built_resolver V root p s₂.registry s₃.registry built in
      (
        replied,
        (o, ground arith),
        (server, webhook' ∙ webhook ∙ serves, ground arith),
        (p, ready, supported, unready),
      )
