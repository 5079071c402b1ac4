-- ===== src/Reconciler/Trace.antt =====
-- Runs of the controller: reconciliations in any order, mixed with changes that others make to the
-- cluster and with restarts, after which the cache is empty.
use kong_portal_controller.Proxy.Contract.{table_of}
use kong_portal_controller.Proxy.Interface.{cached_proxy}
use kong_portal_controller.Base.{
  ℕ, String, ◌≡◌, refl, sym, ◌∙◌, Option, arith, Error, returns, string_eq, nat_eq,
}
use mathlib.Core.Path.{subst}
use kong_portal_controller.Build.Folders.{IsManaged}
use kong_portal_controller.Service.Client.{KongClient, IsFilesApi}
use kong_portal_controller.Store.Cache.{CacheLib, IsCache, Memory}
use kong_portal_controller.Reconciler.{KubeClient, World, ReconcileResult, reconcile, Reply}
use kong_portal_controller.Reconciler.Invariant.{KeepsNames, IsCoherentWorld, reconcile-IsCoherent}
use kong_portal_controller.Reconciler.Safety.{reconcile-unmanaged}

module _ (C : CacheLib) (K : KongClient) (R : KubeClient) (class : String) where
  pub data Step : World (cached_proxy C K) R → World (cached_proxy C K) R → Type 0 where
    reconciled :
        (now : ℕ) (namespace name : String) (w w' : World (cached_proxy C K) R)
        (reply : ReconcileResult × Option Error)
        → reconcile (cached_proxy C K) R now class namespace name w ≡ returns (reply, w')
        → Step w w'
    cluster_changed :
        (w : World (cached_proxy C K) R) (s : R.Cluster) → Step w (record w { cluster = s })
    restarted :
        (w : World (cached_proxy C K) R) (mem : Memory)
        → Step w (record w { memory = mem; backend = record (w.backend) { cache = C.new_store } })

  pub data Reach (w : World (cached_proxy C K) R) : World (cached_proxy C K) R → Type 0 where
    here : Reach w w
    next : {u v : World (cached_proxy C K) R} → Reach w u → Step u v → Reach w v

  module _ (L : IsCache C) (N : KeepsNames R) where
    pub Step-IsCoherent :
        {u v : World (cached_proxy C K) R}
        → Step u v
        → IsCoherentWorld (cached_proxy C K) (table_of C K L) R u
        → IsCoherentWorld (cached_proxy C K) (table_of C K L) R v
    Step-IsCoherent (reconciled now namespace name w w' reply e) ih =
        let (r, same, keeps) =
          reconcile-IsCoherent (cached_proxy C K) (table_of C K L) R N now class namespace name w
            ih in
        let equal : r ≡ (reply, w') = cc (sym same ∙ e) in
        subst
          (λ (x : Reply (cached_proxy C K) R).
            IsCoherentWorld (cached_proxy C K) (table_of C K L) R x.1)
          equal keeps
    Step-IsCoherent (cluster_changed w s) ih = ih
    Step-IsCoherent (restarted w mem) ih = λ k q e. ground (arith, L.find-new k)

    pub Reach-IsCoherent :
        {u v : World (cached_proxy C K) R}
        → IsCoherentWorld (cached_proxy C K) (table_of C K L) R u
        → Reach u v
        → IsCoherentWorld (cached_proxy C K) (table_of C K L) R v
    Reach-IsCoherent ih here = ih
    Reach-IsCoherent ih (next run step) = Step-IsCoherent step (Reach-IsCoherent ih run)

    -- Over a lawful cache and an API server that renames no object, and however a run goes that starts
    -- with a coherent cache, the next reconciliation returns (it neither panics nor blocks) and leaves
    -- the cache coherent.
    pub Reach-returns :
        (u v : World (cached_proxy C K) R) (now : ℕ) (namespace name : String)
        → IsCoherentWorld (cached_proxy C K) (table_of C K L) R u
        → Reach u v
        → (reply : Reply (cached_proxy C K) R) × (reconcile
              (cached_proxy C K)
              R
              now
              class
              namespace
              name
              v
            ≡ returns reply)
          × IsCoherentWorld (cached_proxy C K) (table_of C K L) R reply.1
    Reach-returns u v now namespace name ih run =
        reconcile-IsCoherent (cached_proxy C K) (table_of C K L) R N now class namespace name v
          (Reach-IsCoherent ih run)

  module _ (L : IsCache C) (A : IsFilesApi K) (q : String) (outside : ¬ IsManaged q) where
    Step-unmanaged :
        {u v : World (cached_proxy C K) R}
        → Step u v
        → A.contents_at v.backend.server q ≡ A.contents_at u.backend.server q
    Step-unmanaged (reconciled now namespace name w w' reply e) =
        reconcile-unmanaged C K A q outside L R now class namespace name w (reply, w') e
    Step-unmanaged (cluster_changed w s) = refl
    Step-unmanaged (restarted w mem) = refl

    -- Along every run, a file of Kong outside the folders content, base/assets and specs keeps its
    -- contents, or stays absent.
    pub Reach-unmanaged :
        {u v : World (cached_proxy C K) R}
        → Reach u v
        → A.contents_at v.backend.server q ≡ A.contents_at u.backend.server q
    Reach-unmanaged here = refl
    Reach-unmanaged (next run step) = Step-unmanaged step ∙ Reach-unmanaged run
