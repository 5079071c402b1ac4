-- ===== src/Reconciler/Sync.antt =====
-- New objects: what a reconciliation sends to Kong, keeps in the cache and writes to the cluster.
use kong_portal_controller.Proxy.Interface.{cached_proxy}
use kong_portal_controller.Base.{
  ℕ, String, ◌≡◌, refl, ◌∙◌, ◌≢◌, true, false, none, some, arith, Error, returns, string_eq, nat_eq,
  if◌then◌else◌,
}
use kong_portal_controller.Api.{KongFile}
use kong_portal_controller.Annotations.{matches_controller_class_name}
use kong_portal_controller.Build.{build}
use kong_portal_controller.Service
use kong_portal_controller.Service.Client.{KongClient, IsFilesApi}
use kong_portal_controller.Store.{kong_file}
use kong_portal_controller.Store.Cache.{CacheLib, IsCache, Memory, Ref, alloc, assign}
use kong_portal_controller.Proxy.{update_object}
use kong_portal_controller.Proxy.Laws.{
  path_of, contents_of, update_object-cache, update_object-done, update_object-others,
}
use kong_portal_controller.Reconciler.{
  KubeClient, World, done, reconcile, reconcile_new, reconcile_found, mark_validated,
}
use kong_portal_controller.Reconciler.Invariant.{key_of_file}

module _ (C : CacheLib) (K : KongClient) (R : KubeClient) where
  -- The cluster holds the object, it is not being deleted, and it belongs to the class.
  pub record IsLive (class namespace name : String) (obj : KongFile)
      (w : World (cached_proxy C K) R) : Type 0 where
    pub got : R.get namespace name w.cluster ≡ (none, obj)
    pub kept : R.is_zero obj.meta.deletion_timestamp ≡ true
    pub ours : matches_controller_class_name obj.meta class ≡ true

  -- The world after `Get` has filled a new object.
  abbrev pub fetched : KongFile → World (cached_proxy C K) R → World (cached_proxy C K) R
  fetched obj w = record w { memory = (alloc obj w.memory).1 }

  pub reconcile-live :
      (now : ℕ) (class namespace name : String) (obj : KongFile) (w : World (cached_proxy C K) R)
      → IsLive class namespace name obj w
      → reconcile (cached_proxy C K) R now class namespace name w
        ≡ returns (
            if obj.status.validated
            then ((done, none), fetched obj w)
            else reconcile_new (cached_proxy C K) R w.memory.next (fetched obj w))
  unfolding reconcile reconcile_found
  reconcile-live now class namespace name obj w live =
      ground (arith, live.got, live.kept, live.ours)

  -- A validated object is left alone: whatever its specification says now, nothing is sent to Kong,
  -- nothing enters the cache, and the cluster keeps its status.
  pub validated-skipped :
      (now : ℕ) (class namespace name : String) (obj : KongFile) (w : World (cached_proxy C K) R)
      → IsLive class namespace name obj w
      → obj.status.validated ≡ true
      → reconcile (cached_proxy C K) R now class namespace name w
        ≡ returns ((done, none), fetched obj w)
  validated-skipped now class namespace name obj w live old =
      reconcile-live now class namespace name obj w live ∙ ground arith

  -- An object that Kong refuses is reported with Kong's error, and its status is not written, so the
  -- next reconciliation sends it again.
  pub refused-retried :
      (now : ℕ) (class namespace name : String) (obj : KongFile) (e : Error)
      (w : World (cached_proxy C K) R)
      → IsLive class namespace name obj w
      → obj.status.validated ≡ false
      → (Service.update K (build obj) w.backend.server).0.1 ≡ some e
      → let P = cached_proxy C K in
        (w' : World P R) × (reconcile P R now class namespace name w ≡ returns ((done, some e), w'))
        × (w'.cluster ≡ w.cluster)
        × (w'.backend.server ≡ (Service.update K (build obj) w.backend.server).1)
  unfolding reconcile_new update_object
  refused-retried now class namespace name obj e w live new bad = (
    record (fetched obj w) {
      backend = (update_object C K (fetched obj w).memory (kong_file w.memory.next) w.backend).1;
    },
    reconcile-live now class namespace name obj w live ∙ ground arith,
    refl,
    ground arith,
  )

  -- The world after a new object was sent and the answer to its status was stored.
  abbrev pub accepted : KongFile → World (cached_proxy C K) R → World (cached_proxy C K) R
  accepted obj w =
      let mem : Memory = (fetched obj w).memory in
      let written = R.update_status (mark_validated obj) w.cluster in
      record {
        memory = assign w.memory.next written.0.1 mem;
        backend = (update_object C K mem (kong_file w.memory.next) w.backend).1;
        cluster = written.1;
      }

  pub reconcile-accepted :
      (now : ℕ) (class namespace name : String) (obj : KongFile) (w : World (cached_proxy C K) R)
      → IsLive class namespace name obj w
      → obj.status.validated ≡ false
      → (Service.update K (build obj) w.backend.server).0.1 ≡ none
      → reconcile (cached_proxy C K) R now class namespace name w
        ≡ returns ((done, (R.update_status (mark_validated obj) w.cluster).0.0), accepted obj w)
  unfolding reconcile_new update_object
  reconcile-accepted now class namespace name obj w live new fine =
      reconcile-live now class namespace name obj w live ∙ ground (arith, new, fine)

  pub accepted-server :
      (obj : KongFile) (w : World (cached_proxy C K) R)
      → (accepted obj w).backend.server ≡ (Service.update K (build obj) w.backend.server).1
  unfolding update_object
  accepted-server obj w = ground arith

  pub accepted-files :
      (A : IsFilesApi K) (obj : KongFile) (w : World (cached_proxy C K) R)
      → (Service.update K (build obj) w.backend.server).0.1 ≡ none
      → let w₁ = accepted obj w in
        (A.contents_at w₁.backend.server (path_of (build obj)) ≡ some (contents_of (build obj)))
        × ((other : String)
            → other ≢ path_of (build obj)
            → A.contents_at w₁.backend.server other ≡ A.contents_at w.backend.server other)
  accepted-files A obj w fine =
      let mem : Memory = (alloc obj w.memory).1 in
      let here : mem.cell w.memory.next ≡ obj = ground arith in
      let sent : (update_object C K mem (kong_file w.memory.next) w.backend).0 ≡ none =
        unfold update_object in ground (arith, here, fine) in
      (
        ground (arith, here, update_object-done C K A mem w.memory.next w.backend sent),
        λ other apart.
            ground (arith, here, update_object-others C K A mem w.memory.next w.backend other),
      )

  -- A new object that Kong accepts: Kong has the built contents under the built path and no other file
  -- has changed, the cache holds the object as the API server answered it, and the status that was
  -- written says that the object is validated. The reply is the error of that write, if any.
  pub accepted-stored :
      (L : IsCache C) (A : IsFilesApi K) (now : ℕ) (class namespace name : String) (obj : KongFile)
      (w : World (cached_proxy C K) R) (other : String)
      → IsLive class namespace name obj w
      → obj.status.validated ≡ false
      → (Service.update K (build obj) w.backend.server).0.1 ≡ none
      → other ≢ path_of (build obj)
      → let written = R.update_status (mark_validated obj) w.cluster in
        (w' : World (cached_proxy C K) R) × (reconcile
            (cached_proxy C K)
            R
            now
            class
            namespace
            name
            w
          ≡ returns ((done, written.0.0), w'))
        × (A.contents_at w'.backend.server (path_of (build obj)) ≡ some (contents_of (build obj)))
        × (A.contents_at w'.backend.server other ≡ A.contents_at w.backend.server other)
        × (L.find w'.backend.cache (key_of_file obj) ≡ some w.memory.next)
        × (w'.memory.cell w.memory.next ≡ written.0.1)
        × (w'.cluster ≡ written.1)
  accepted-stored L A now class namespace name obj w other live new fine apart =
      let mem : Memory = (fetched obj w).memory in
      let r : Ref = w.memory.next in
      let here : mem.cell r ≡ obj = ground arith in
      let sent : (update_object C K mem (kong_file r) w.backend).0 ≡ none =
        unfold update_object in ground (arith, here, fine) in
      (
        accepted obj w,
        reconcile-accepted now class namespace name obj w live new fine,
        ground (arith, here, update_object-done C K A mem r w.backend sent),
        ground (arith, here, update_object-others C K A mem r w.backend other),
        ground (arith, here, update_object-cache C K L mem r w.backend (key_of_file obj)),
        ground arith,
        refl,
      )
