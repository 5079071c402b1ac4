-- ===== src/Reconciler/Simulation.antt =====
-- Each run of the controller is a history of its promise.
use kong_portal_controller.Proxy.Contract.{table_of, files_of}
use kong_portal_controller.Proxy.Interface.{cached_proxy}
use kong_portal_controller.Base.{
  List, [], ◌∷◌, String, ◌≡◌, refl, sym, ◌∙◌, arith, string_eq, nat_eq,
}
use mathlib.Core.Path.{subst}
use kong_portal_controller.Service.Client.{KongClient, IsFilesApi}
use kong_portal_controller.Store.Cache.{CacheLib, IsCache}
use kong_portal_controller.Reconciler.{KubeClient, World}
use kong_portal_controller.Reconciler.Invariant.{KeepsNames, IsCoherentWorld}
use kong_portal_controller.Reconciler.Mirror.{
  Mirror, Event, asked, changed, restarts, Turn, History, start, later,
}
use kong_portal_controller.Reconciler.Effects.{view}
use kong_portal_controller.Reconciler.Refinement.{Serves, reconcile-Serves}
use kong_portal_controller.Reconciler.Trace.{
  Step, reconciled, cluster_changed, Reach, here, next, Reach-IsCoherent,
}
use kong_portal_controller.Reconciler.Trace as Trace

module _ (C : CacheLib) (K : KongClient) (R : KubeClient) (class : String) where
  event_of : {u v : World (cached_proxy C K) R} → Step C K R class u v → Event R
  event_of (reconciled now namespace name w w' reply e) = asked now namespace name w.cluster reply.1
  event_of (cluster_changed w s) = changed
  event_of (Trace.restarted w mem) = restarts

  -- The events of a run, the last one first: each reconciliation with its time, its name, the cluster
  -- at its beginning and the error of its reply, each change of the cluster, and each restart.
  unfoldable pub events_of :
      {u v : World (cached_proxy C K) R} → Reach C K R class u v → List (Event R)
  unfolding event_of
  events_of here = []
  events_of (next run step) = event_of step ∷ events_of run

module _ (C : CacheLib) (K : KongClient) (R : KubeClient) (class : String) (L : IsCache C)
    (A : IsFilesApi K) (N : KeepsNames R) where
  abbrev pub mirror : World (cached_proxy C K) R → Mirror
  mirror w = view (cached_proxy C K) (table_of C K L) (files_of C K A) w.memory w.backend

  Step-Turn :
      {u v : World (cached_proxy C K) R} (step : Step C K R class u v)
      → IsCoherentWorld (cached_proxy C K) (table_of C K L) R u
      → Turn R class (event_of C K R class step) (mirror u) (mirror v)
  unfolding event_of
  Step-Turn (reconciled now namespace name w w' reply e) ih =
      let P = cached_proxy C K in
      let T = table_of C K L in
      let F = files_of C K A in
      let (r, same, serves) = reconcile-Serves P R T F N now class namespace name w ih in
      let equal : r ≡ (reply, w') = cc (sym same ∙ e) in
      subst (Serves P R T F N now class namespace name (R.get namespace name w.cluster) w) equal
        serves
  Step-Turn (cluster_changed w s) ih = record { table = λ k. refl; files = λ q. refl }
  Step-Turn (Trace.restarted w mem) ih = (λ k. ground (arith, L.find-new k), λ q. refl)

  -- Over a lawful cache and Admin API and an API server that renames no object, every run from a coherent
  -- cache is a history of the mirror with exactly the events of the run: each reconciliation does to the
  -- published objects and to the files what `Request` allows for its name, the answer of the cluster
  -- at that point and the error that it replies, a change of the cluster does nothing to them, and a
  -- restart forgets what is published and leaves the files.
  pub Reach-History :
      {u v : World (cached_proxy C K) R}
      → IsCoherentWorld (cached_proxy C K) (table_of C K L) R u
      → (run : Reach C K R class u v)
      → History R class (mirror u) (events_of C K R class run) (mirror v)
  unfolding events_of event_of
  Reach-History ih here = start
  Reach-History ih (next run step) =
      later (Reach-History ih run) (Step-Turn step (Reach-IsCoherent C K R class L N ih run))
