-- ===== src/Reconciler/Orphans.antt =====
-- Files whose object the controller does not know: none is in the cluster or in the cache.
use kong_portal_controller.Proxy.Contract.{table_of, files_of}
use kong_portal_controller.Proxy.Interface.{cached_proxy}
use kong_portal_controller.Base.{
  ℕ, String, ◌≡◌, ◌≢◌, refl, sym, ◌∙◌, Option, none, some, arith, Error, string_eq, nat_eq,
}
use mathlib.Core.Path.{subst}
use kong_portal_controller.Api.{KongFile}
use kong_portal_controller.Build.{build}
use kong_portal_controller.Service.Client.{KongClient, IsFilesApi}
use kong_portal_controller.Store.Cache.{CacheLib, IsCache, Memory}
use kong_portal_controller.Proxy.Laws.{path_of}
use kong_portal_controller.Reconciler.{KubeClient, World, mark_validated}
use kong_portal_controller.Reconciler.Invariant.{KeepsNames, IsCoherentWorld}
use kong_portal_controller.Reconciler.Mirror.{
  Mirror, Same, Published, Retracted, Request, unanswered, unknown, removed, deletion_unanswered,
  deleted, skipped, refused, published,
}
use kong_portal_controller.Reconciler.Effects.{view}
use kong_portal_controller.Reconciler.Refinement.{Serves, reconcile-Serves}
use kong_portal_controller.Reconciler.Trace.{
  Step, reconciled, cluster_changed, restarted, Step-IsCoherent,
}

module _ (q : String) where
  -- No published object has the file.
  abbrev IsUnlisted : Mirror → Type 0
  IsUnlisted m = (k : String) (o : KongFile) → m.published k ≡ some o → path_of (build o) ≢ q

  -- The file is as it was, and still no published object has it.
  abbrev IsKept : Mirror → Mirror → Type 0
  IsKept m m' = (m'.file q ≡ m.file q) × IsUnlisted m'

  Same-IsKept : (m m' : Mirror) → IsUnlisted m → Same m m' → IsKept m m'
  Same-IsKept m m' ih same = (same.files q, λ k o e. ih k o (sym (same.table k) ∙ e))

  Retracted-IsKept :
      (failed : Option Error) (obj : KongFile) (m m' : Mirror)
      → IsUnlisted m
      → path_of (build obj) ≢ q
      → Retracted failed obj m m'
      → IsKept m m'
  Retracted-IsKept failed obj m m' ih apart gone =
      (gone.others q (λ e. apart (sym e)), λ k o e. ground (arith, ih k o, gone.table k))

  Published-IsKept :
      (failed : Option Error) (obj stored : KongFile) (m m' : Mirror)
      → IsUnlisted m
      → path_of (build obj) ≢ q
      → path_of (build stored) ≢ q
      → Published failed obj stored m m'
      → IsKept m m'
  Published-IsKept failed obj stored m m' ih apart apart' new =
      (new.others q (λ e. apart (sym e)), λ k o e. ground (arith, ih k o, new.table k))

  module _ (R : KubeClient) where
    -- No object of the cluster has the file, and the answers to status updates keep it so.
    pub record IsAbsent (s : R.Cluster) : Type 0 where
      pub objects :
          (namespace name : String)
          → (R.get namespace name s).0 ≡ none
          → path_of (build (R.get namespace name s).1) ≢ q
      pub answers :
          (obj : KongFile)
          → path_of (build obj) ≢ q
          → path_of (build (R.update_status obj s).0.1) ≢ q

    mark_validated-path :
        (obj : KongFile) → path_of (build (mark_validated obj)) ≡ path_of (build obj)
    unfolding build
    mark_validated-path obj = refl

    Request-IsKept :
        (now : ℕ) (class namespace name : String) (s : R.Cluster) (answer : Option Error × KongFile)
        (failed : Option Error) (m m' : Mirror)
        → IsUnlisted m
        → IsAbsent s
        → (answer.0 ≡ none → path_of (build answer.1) ≢ q)
        → Request R now class namespace name s answer failed m m'
        → IsKept m m'
    Request-IsKept now class namespace name s answer failed m m' ih absent apart request =
        elim request [
          | unanswered e bad other told same ↦ Same-IsKept m m' ih same
          | unknown e bad gone free told same ↦ Same-IsKept m m' ih same
          | removed e old bad gone listed out ↦
              Retracted-IsKept failed old m m' ih (ih _ old listed) out
          | deletion_unanswered e fine past told same ↦ Same-IsKept m m' ih same
          | deleted fine past out ↦ Retracted-IsKept failed answer.1 m m' ih (apart fine) out
          | skipped fine live reason told same ↦ Same-IsKept m m' ih same
          | refused e fine live ours new told sent ↦
              Published-IsKept failed answer.1 answer.1 m m' ih (apart fine) (apart fine) sent
          | published fine live ours new told sent ↦
              Published-IsKept none answer.1 _ m m' ih (apart fine)
                (absent.answers (mark_validated answer.1)
                  (rw (mark_validated-path answer.1) (apart fine)))
                sent
        ]

module _ (C : CacheLib) (K : KongClient) (R : KubeClient) (class : String) where
  -- A run in which every step begins with a cluster that satisfies `P`.
  pub data ReachWithin (P : R.Cluster → Type 0) (w : World (cached_proxy C K) R)
      : World (cached_proxy C K) R → Type 0 where
    still : ReachWithin P w w
    further :
        {u v : World (cached_proxy C K) R}
        → ReachWithin P w u
        → P u.cluster
        → Step C K R class u v
        → ReachWithin P w v

  module _ (L : IsCache C) (A : IsFilesApi K) (N : KeepsNames R) (q : String) where
    abbrev listed : World (cached_proxy C K) R → Mirror
    listed w = view (cached_proxy C K) (table_of C K L) (files_of C K A) w.memory w.backend

    Step-IsKept :
        {u v : World (cached_proxy C K) R}
        → Step C K R class u v
        → IsCoherentWorld (cached_proxy C K) (table_of C K L) R u
        → IsAbsent q R u.cluster
        → IsUnlisted q (listed u)
        → IsKept q (listed u) (listed v)
    Step-IsKept (reconciled now namespace name w w' reply e) coherent absent ih =
        let (r, same, serves) =
          reconcile-Serves (cached_proxy C K) R (table_of C K L) (files_of C K A) N now class
            namespace name w coherent in
        let equal : r ≡ (reply, w') = cc (sym same ∙ e) in
        let moved =
          subst
            (Serves (cached_proxy C K) R (table_of C K L) (files_of C K A) N now class namespace
              name (R.get namespace name w.cluster) w)
            equal serves in
        Request-IsKept q R now class namespace name w.cluster _ _ _ _ ih absent
          (absent.objects namespace name) moved
    Step-IsKept (cluster_changed w s) coherent absent ih = (refl, ih)
    Step-IsKept (restarted w mem) coherent absent ih =
        (refl, λ k o e. absurd (ground (arith, L.find-new k)))

    run-IsKept :
        {u v : World (cached_proxy C K) R}
        → IsCoherentWorld (cached_proxy C K) (table_of C K L) R u
        → IsUnlisted q (listed u)
        → ReachWithin (IsAbsent q R) u v
        → IsCoherentWorld (cached_proxy C K) (table_of C K L) R v × IsKept q (listed u) (listed v)
    run-IsKept coherent ih still = (coherent, (refl, ih))
    run-IsKept coherent ih (further run absent step) =
        let (coherent', (same, ih')) = run-IsKept coherent ih run in
        let (same', ih'') = Step-IsKept step coherent' absent ih' in
        (Step-IsCoherent C K R class L N step coherent', (same' ∙ same, ih''))

    -- After a restart, a file that no object has stays in Kong: over a lawful cache and Admin API and an
    -- API server that renames no object, every run from there keeps its contents, or its absence, if at the
    -- beginning of each of its steps no object of the cluster has the path of the file, nor the answer to
    -- a status update of an object with another path.
    pub restart-orphaned :
        (w v : World (cached_proxy C K) R) (mem : Memory)
        → ReachWithin
            (IsAbsent q R)
            (record w { memory = mem; backend = record (w.backend) { cache = C.new_store } })
            v
        → A.contents_at v.backend.server q ≡ A.contents_at w.backend.server q
    restart-orphaned w v mem run =
        (run-IsKept (λ k r e. absurd (ground (arith, L.find-new k)))
          (λ k o e. absurd (ground (arith, L.find-new k))) run).1.0
