-- ===== src/Reconciler/Safety.antt =====
-- What no reconciliation does: touch a file of Kong outside the three folders, or write the status of
-- an object that Kong has not accepted. Both hold along every run.
use kong_portal_controller.Proxy.Contract.{table_of}
use kong_portal_controller.Proxy.Interface.{cached_proxy}
use kong_portal_controller.Base.{
  ℕ, String, ◌≡◌, ◌≢◌, ◌⊎◌, inl, inr, true, false, some, arith, returns, Option-cases, Bool-cases,
  string_eq, nat_eq,
}
use kong_portal_controller.Api.{KongFile}
use kong_portal_controller.Annotations.{matches_controller_class_name}
use kong_portal_controller.Build.{build}
use kong_portal_controller.Build.Folders.{IsManaged, build-IsManaged}
use kong_portal_controller.Service.{is_empty_string}
use kong_portal_controller.Service.Client.{KongClient, IsFilesApi}
use kong_portal_controller.Service.Files.{get-keeps, blank-path-refused}
use kong_portal_controller.Store.{kong_file}
use kong_portal_controller.Store.Cache.{CacheLib, IsCache, Memory, Ref, alloc}
use kong_portal_controller.Proxy.{Backend, update_object, delete_object, object_exists}
use kong_portal_controller.Proxy.Laws.{
  key_at, path_of, contents_of, build-path, update_object-done, update_object-others,
  delete_object-others,
}
use kong_portal_controller.Reconciler.{
  KubeClient, World, reconcile, reconcile_missing, reconcile_deleted, reconcile_new,
  reconcile_found, Reply, with_name,
}
use kong_portal_controller.Reconciler.Invariant.{ensure_proxy_delete_object-removal}

module _ (C : CacheLib) (K : KongClient) (A : IsFilesApi K) (q : String)
    (outside : ¬ IsManaged q) where
  blank_or_apart :
      (obj : KongFile) → (is_empty_string (build obj).path ≡ true) ⊎ (q ≢ path_of (build obj))
  blank_or_apart obj = elim (Bool-cases (is_empty_string (build obj).path)) [
    | inl blank ↦ inl blank
    | inr full ↦ inr (λ same. outside (rw same (build-IsManaged obj _ (build-path obj) full)))
  ]

  update_object-unmanaged :
      (mem : Memory) (r : Ref) (b : Backend C K)
      → A.contents_at (update_object C K mem (kong_file r) b).1.server q ≡ A.contents_at b.server q
  update_object-unmanaged mem r b = elim (blank_or_apart (mem.cell r)) [
    | inl blank ↦
        unfold update_object in
        ground (arith, blank-path-refused K (build (mem.cell r)) b.server blank)
    | inr apart ↦ update_object-others C K A mem r b q apart
  ]

  delete_object-unmanaged :
      (mem : Memory) (r : Ref) (b : Backend C K)
      → A.contents_at (delete_object C K mem (kong_file r) b).1.server q ≡ A.contents_at b.server q
  delete_object-unmanaged mem r b = elim (blank_or_apart (mem.cell r)) [
    | inl blank ↦
        unfold delete_object in
        ground (arith, blank-path-refused K (build (mem.cell r)) b.server blank)
    | inr apart ↦ delete_object-others C K A mem r b q apart
  ]

  object_exists-unmanaged :
      (mem : Memory) (r : Ref) (b : Backend C K)
      → A.contents_at (object_exists C K mem (kong_file r) b).1.server q ≡ A.contents_at b.server q
  unfolding object_exists
  object_exists-unmanaged mem r b = ground (arith, get-keeps K A (build (mem.cell r)) b.server q)

  module _ (L : IsCache C) (R : KubeClient) where
    found-unmanaged :
        (now : ℕ) (class : String) (r : Ref) (w : World (cached_proxy C K) R)
        → A.contents_at (reconcile_found (cached_proxy C K) R now class r w).1.backend.server q
          ≡ A.contents_at w.backend.server q
    unfolding reconcile_found reconcile_new reconcile_deleted
    found-unmanaged now class r w = ground (
      arith,
      update_object-unmanaged w.memory r w.backend,
      object_exists-unmanaged w.memory r w.backend,
      delete_object-unmanaged w.memory r (object_exists C K w.memory (kong_file r) w.backend).1,
    )

    missing-unmanaged :
        (r : Ref) (w : World (cached_proxy C K) R) (reply : Reply (cached_proxy C K) R)
        → reconcile_missing (cached_proxy C K) R r w ≡ returns reply
        → A.contents_at reply.1.backend.server q ≡ A.contents_at w.backend.server q
    unfolding reconcile_missing
    missing-unmanaged r w reply e =
        elim (Option-cases (L.find w.backend.cache (key_at w.memory r))) [
          | inl absent ↦ ground (
            arith,
            ensure_proxy_delete_object-removal (cached_proxy C K) (table_of C K L) w.memory r
                w.backend,
          )
          | inr (cached, present) ↦ ground (
            arith,
            ensure_proxy_delete_object-removal (cached_proxy C K) (table_of C K L) w.memory r
                w.backend,
            delete_object-unmanaged w.memory cached w.backend,
          )
        ]

    -- A reconciliation changes no file outside the folders content, base/assets and specs.
    pub reconcile-unmanaged :
        (now : ℕ) (class namespace name : String) (w : World (cached_proxy C K) R)
        (reply : Reply (cached_proxy C K) R)
        → reconcile (cached_proxy C K) R now class namespace name w ≡ returns reply
        → A.contents_at reply.1.backend.server q ≡ A.contents_at w.backend.server q
    unfolding reconcile
    reconcile-unmanaged now class namespace name w reply e =
        let got = (R.get namespace name w.cluster).1 in
        let fresh : KongFile → World (cached_proxy C K) R =
          λ obj. record w { memory = (alloc obj w.memory).1 } in
        ground (
          arith,
          found-unmanaged now class w.memory.next (fresh got),
          missing-unmanaged w.memory.next (fresh (with_name namespace name got)) reply,
        )

module _ (C : CacheLib) (K : KongClient) (R : KubeClient) where
  missing-cluster :
      (r : Ref) (w : World (cached_proxy C K) R) (reply : Reply (cached_proxy C K) R)
      → reconcile_missing (cached_proxy C K) R r w ≡ returns reply
      → reply.1.cluster ≡ w.cluster
  unfolding reconcile_missing
  missing-cluster r w reply e = ground arith

  deleted-cluster :
      (r : Ref) (w : World (cached_proxy C K) R)
      → (reconcile_deleted (cached_proxy C K) R r w).1.cluster ≡ w.cluster
  unfolding reconcile_deleted
  deleted-cluster r w = ground arith

  module _ (A : IsFilesApi K) where
    found-writes :
        (now : ℕ) (class : String) (r : Ref) (w : World (cached_proxy C K) R)
        → (reconcile_found (cached_proxy C K) R now class r w).1.cluster ≢ w.cluster
        → let obj = w.memory.cell r in
          (obj.status.validated ≡ false)
          × (matches_controller_class_name obj.meta class ≡ true)
          × (A.contents_at
                (reconcile_found (cached_proxy C K) R now class r w).1.backend.server
                (path_of (build obj))
              ≡ some (contents_of (build obj)))
    unfolding reconcile_found reconcile_new
    found-writes now class r w changed =
        ground (arith, deleted-cluster r w, update_object-done C K A w.memory r w.backend)

    -- The cluster is written only for a new object of the class, once Kong has its file: after a
    -- reconciliation that changed the cluster, the object that it read there was not validated and
    -- belongs to the class, and Kong holds the built contents under the built path.
    pub status_written_after_file :
        (now : ℕ) (class namespace name : String) (w : World (cached_proxy C K) R)
        (reply : Reply (cached_proxy C K) R)
        → reconcile (cached_proxy C K) R now class namespace name w ≡ returns reply
        → reply.1.cluster ≢ w.cluster
        → let obj = (R.get namespace name w.cluster).1 in
          (obj.status.validated ≡ false)
          × (matches_controller_class_name obj.meta class ≡ true)
          × (A.contents_at reply.1.backend.server (path_of (build obj))
              ≡ some (contents_of (build obj)))
    unfolding reconcile
    status_written_after_file now class namespace name w reply e changed =
        let got = (R.get namespace name w.cluster).1 in
        let fresh : KongFile → World (cached_proxy C K) R =
          λ obj. record w { memory = (alloc obj w.memory).1 } in
        let here : (fresh got).memory.cell w.memory.next ≡ got = ground arith in
        ground (
          arith,
          here,
          found-writes now class w.memory.next (fresh got),
          missing-cluster w.memory.next (fresh (with_name namespace name got)) reply,
        )
