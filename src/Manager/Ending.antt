-- ===== src/Manager/Ending.antt =====
-- `Run` returns, and with what.
use kong_portal_controller.Base.Action.{wrapped, ends, ends_returns, ends-bind, bind_ok}
use mathlib.Core.Path.{subst}
use kong_portal_controller.Metrics.{ctrl_func_metrics, collectors}
use kong_portal_controller.Base.{
  sym, ap, ◌∙◌, ◌≢◌, ◌⊎◌, inl, inr, none, Option, Error, Option-cases, Result-cases, some, String,
  ◌≡◌, true, false, arith, Result, ok, err, returns, string_eq, nat_eq,
}
use kong_portal_controller.Admission.Tls.{TlsLib}
use kong_portal_controller.AdminApi.{CertLib}
use kong_portal_controller.AdminApi.Workspace.{WorkspaceLib, Session, get_kong_client_for_workspace}
use kong_portal_controller.Proxy.Startup.{Fields, VersionLib, Resolver, new_cache_based_proxy}
use kong_portal_controller.Manager.Kong.{Setting, setup_kong_config, get_kong_client}
use kong_portal_controller.Manager.Controllers.{ManagerLib, setup_controllers, setup_all}
use kong_portal_controller.Manager.Started.{run-started}
use kong_portal_controller.Manager.Run.{
  StartLib, Startup, as_result, start_webhook, run, prepare, finish, setup_proxy_server,
}

client_ends :
    (W : WorkspaceLib) (url name : String) (s : Session W)
    → s.locked ≡ false
    → ends (get_kong_client_for_workspace W url name s) ≡ true
unfolding get_kong_client_for_workspace
client_ends W url name s free = ground arith

abbrev CanRegister : (V : VersionLib) → V.metrics.Registry → Type 0
CanRegister V registry =
    (registry' : V.metrics.Registry) × (V.metrics.must_register
        (collectors V.metrics (ctrl_func_metrics V.metrics)) registry
      ≡ some registry')

proxy_ends :
    (V : VersionLib) (root : Result Fields) (registry : V.metrics.Registry)
    → CanRegister V registry
    → ends (new_cache_based_proxy V root registry) ≡ true
unfolding new_cache_based_proxy
proxy_ends V (err e) registry h = ground arith
proxy_ends V (ok root) registry (registry', made) = ground arith

built_client_ends :
    (T : CertLib) (W : WorkspaceLib) (s : Setting T W)
    → s.session.locked ≡ false
    → ends (get_kong_client T W s) ≡ true
unfolding get_kong_client
built_client_ends T W s free =
    ground (arith, client_ends W s.config.kong_admin_url s.config.kong_workspace s.session free)

config_ends :
    (T : CertLib) (W : WorkspaceLib) (s : Setting T W)
    → s.session.locked ≡ false
    → ends (setup_kong_config T W s) ≡ true
unfolding setup_kong_config
config_ends T W s free = ground (arith, built_client_ends T W s free)

module _ (T : CertLib) (W : WorkspaceLib) (X : TlsLib) (V : VersionLib) (M : ManagerLib)
    (S : StartLib W M) where
  -- The context ends at some time, so that `mgr.Start` returns.
  abbrev pub ManagerEnds : Type 0
  ManagerEnds = (mgr : M.Manager) → ends (S.start mgr) ≡ true

  prepare-ends :
      (s : Startup T W X V M)
      → s.setting.session.locked ≡ false
      → ends (prepare T W X V M S s) ≡ true
  unfolding prepare
  prepare-ends s free = ground (arith, config_ends T W s.setting free)

  setup_proxy_ends :
      (client : W.Client) (mgr : M.Manager) (s : Startup T W X V M)
      → CanRegister V s.registry
      → ends (setup_proxy_server T W X V M S client mgr s) ≡ true
  unfolding setup_proxy_server
  setup_proxy_ends client mgr s metrics =
      ground (arith, proxy_ends V (S.root client s.setting.session.server).0 s.registry metrics)

  finish-ends :
      (p : Resolver V) (mgr : M.Manager) (s : Startup T W X V M)
      → ManagerEnds
      → ends (finish T W X V M S p mgr s) ≡ true
  unfolding finish
  finish-ends p mgr s over =
      let mgr₁ = (setup_all M (setup_controllers M s.setting.config.controller_class_name) mgr).1 in
      let mgr₃ = (S.add_readyz_check (S.add_healthz_check mgr₁).1).1 in ground (arith, over mgr₃)

  finish-started :
      (p : Resolver V) (mgr : M.Manager) (s s' : Startup T W X V M) (u : Unit {0})
      → finish T W X V M S p mgr s ≡ returns (ok u, s')
      → s'.running ≢ none
  unfolding finish
  finish-started p mgr s s' u h none_running = absurd (ground arith)

  prepare-registry :
      (s s' : Startup T W X V M) (r : Result (W.Client × M.Manager))
      → prepare T W X V M S s ≡ returns (r, s')
      → s'.registry ≡ s.registry
  unfolding prepare
  prepare-registry s s' r h = ground arith

  webhook-registry :
      (s s' : Startup T W X V M) (r : Result (Unit {0}))
      → start_webhook T W X V M S s ≡ returns (r, s')
      → s'.registry ≡ s.registry
  webhook-registry s s' r h = ground arith

  abbrev Registers : Startup T W X V M → Type 0
  Registers s = CanRegister V s.registry

  run-ends :
      (s : Startup T W X V M)
      → s.setting.session.locked ≡ false
      → Registers s
      → ManagerEnds
      → ends (run T W X V M S s) ≡ true
  unfolding run
  run-ends s free metrics over =
      ends-bind Registers (prepare T W X V M S) _ s
        (λ x y r e m. subst (CanRegister V) (sym (prepare-registry x y r e)) m) metrics
        (prepare-ends s free)
        (λ prepared s₁ metrics₁.
          ends-bind Registers (start_webhook T W X V M S) _ s₁
            (λ x y r e m. subst (CanRegister V) (sym (webhook-registry x y r e)) m) metrics₁
            (ground arith)
            (λ u s₂ metrics₂.
              ends-bind (λ _. Unit {0})
                (wrapped "unable to initialize proxy cache server"
                  (setup_proxy_server T W X V M S prepared.0 prepared.1))
                _ s₂ (λ x y r e m. tt) tt
                (ground (arith, setup_proxy_ends prepared.0 prepared.1 s₂ metrics₂))
                (λ served s₃ _. finish-ends served.0 served.1 s₃ over)))

  run_ok-started :
      (s s' : Startup T W X V M) (u : Unit {0})
      → run T W X V M S s ≡ returns (ok u, s')
      → s'.running ≢ none
  unfolding run
  run_ok-started s s' u h =
      let (prepared, s₁, e₁, h₁) = bind_ok (prepare T W X V M S) _ s s' u h in
      let (v, s₂, e₂, h₂) = bind_ok (start_webhook T W X V M S) _ s₁ s' u h₁ in
      let (served, s₃, e₃, h₃) =
        bind_ok
          (wrapped "unable to initialize proxy cache server"
            (setup_proxy_server T W X V M S prepared.0 prepared.1))
          _ s₂ s' u h₂ in
      finish-started served.0 served.1 s₃ s' u h₃

  -- `Run` returns if the workspace lock is free at the start, the metrics can be registered and the
  -- context ends at some time. From a state with no manager it either ends with an error before a
  -- manager runs, or it has started one and replies what `mgr.Start` of that manager returned.
  pub run-returns :
      (s : Startup T W X V M)
      → s.setting.session.locked ≡ false
      → Registers s
      → ManagerEnds
      → s.running ≡ none
      → (reply : Result (Unit {0})) × (s' : Startup T W X V M) × (run T W X V M S s
          ≡ returns (reply, s'))
        × (((e : Error) × (reply ≡ err e) × (s'.running ≡ none))
            ⊎ ((mgr : M.Manager) × (e : Option Error) × (s'.running ≡ some mgr)
                × (S.start mgr ≡ returns e)
                × (reply ≡ as_result e)))
  run-returns s free metrics over fresh =
      let ((reply, s'), ran) = ends_returns _ (run-ends s free metrics over) in
      (
        reply,
        s',
        ran,
        elim (Option-cases s'.running) [
          | inr (mgr, started) ↦
              let ((e, back, replied), options, webhook, proxy) =
                run-started T W X V M S s s' reply mgr fresh ran started in
              inr (mgr, e, started, back, replied)
          | inl none_running ↦ elim (Result-cases reply) [
            | inr (e, bad) ↦ inl (e, bad, none_running)
            | inl (u, fine) ↦ absurd (
                run_ok-started s s' u (ran ∙ ap (λ (r : Result (Unit {0})). returns (r, s')) fine)
                  none_running)
          ]
        ],
      )
