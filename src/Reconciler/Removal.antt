-- ===== src/Reconciler/Removal.antt =====
-- Objects that are gone from the cluster: when their file leaves Kong, and when it stays there.
use kong_portal_controller.Proxy.Contract.{table_of}
use kong_portal_controller.Proxy.Interface.{cached_proxy}
use kong_portal_controller.Base.{
  ℕ, String, ◌≡◌, refl, ◌∙◌, ◌≢◌, true, none, some, arith, Error, returns, string_eq, nat_eq,
}
use kong_portal_controller.Api.{KongFile}
use kong_portal_controller.Build.{build}
use kong_portal_controller.Service
use kong_portal_controller.Service.Client.{KongClient, IsFilesApi}
use kong_portal_controller.Store.{kong_file, key_of}
use kong_portal_controller.Store.Cache.{CacheLib, IsCache, Memory, Ref, alloc}
use kong_portal_controller.Proxy.{Backend, delete_object}
use kong_portal_controller.Proxy.Laws.{
  key_at, path_of, delete_object-cache, delete_object-done, delete_object-others,
}
use kong_portal_controller.Reconciler.{
  KubeClient, World, done, again, reconcile, reconcile_missing, with_name,
}
use kong_portal_controller.Reconciler.Invariant.{IsCoherent, ensure_proxy_delete_object-removal}

module _ (C : CacheLib) (K : KongClient) (R : KubeClient) where
  -- The cluster answers that it has no such object.
  pub record IsGone (namespace name : String) (s : R.Cluster) : Type 0 where
    pub failure : Error
    pub left : KongFile
    pub answer : R.get namespace name s ≡ (some failure, left)
    pub not_found : R.is_not_found failure ≡ true

  -- The world after the request's name was written into a new object.
  abbrev pub named :
      (namespace name : String) → KongFile → World (cached_proxy C K) R → World (cached_proxy C K) R
  named namespace name left w = record w {
    memory = (alloc (with_name namespace name left) w.memory).1;
  }

  module _ (L : IsCache C) where
    -- Where the cache has no object of that name, nothing is done and the request is finished.
    pub absent-ignored :
        (now : ℕ) (class namespace name : String) (w : World (cached_proxy C K) R)
        (gone : IsGone namespace name w.cluster)
        → L.find w.backend.cache (key_of namespace name) ≡ none
        → reconcile (cached_proxy C K) R now class namespace name w
          ≡ returns ((done, none), named namespace name gone.left w)
    unfolding reconcile reconcile_missing
    absent-ignored now class namespace name w gone absent =
        let w' = named namespace name gone.left w in
        ground (
          arith,
          gone.answer,
          gone.not_found,
          ensure_proxy_delete_object-removal (cached_proxy C K) (table_of C K L) w'.memory
              w.memory.next w.backend,
        )

    -- Where the cache has one, it is deleted from the proxy, and the reply is what that gave.
    pub cached-deleted :
        (now : ℕ) (class namespace name : String) (q : Ref) (w : World (cached_proxy C K) R)
        (gone : IsGone namespace name w.cluster)
        → L.find w.backend.cache (key_of namespace name) ≡ some q
        → let w' = named namespace name gone.left w in
          let removed = delete_object C K w'.memory (kong_file q) w.backend in
          reconcile (cached_proxy C K) R now class namespace name w
          ≡ returns (
            (elim removed.0 [ none ↦ again | some e ↦ done ], removed.0),
            record w' { backend = removed.1 },
          )
    unfolding reconcile reconcile_missing
    cached-deleted now class namespace name q w gone present =
        let w' = named namespace name gone.left w in
        ground (
          arith,
          gone.answer,
          gone.not_found,
          ensure_proxy_delete_object-removal (cached_proxy C K) (table_of C K L) w'.memory
              w.memory.next w.backend,
        )

    -- A pointer of a coherent cache does not move when another object is allocated.
    old-cell :
        (mem : Memory) (b : Backend C K) (obj : KongFile) (k : String) (q : Ref)
        → IsCoherent (cached_proxy C K) (table_of C K L) mem b
        → L.find b.cache k ≡ some q
        → ((alloc obj mem).1.cell q ≡ mem.cell q) × (key_at mem q ≡ k)
    old-cell mem b obj k q ih e = ground (arith, ih k q)

    -- The world after the cached object at `q` was deleted from the proxy.
    abbrev pub removed :
        (namespace name : String)
        → KongFile
        → Ref
        → World (cached_proxy C K) R
        → World (cached_proxy C K) R
    removed namespace name left q w =
        let w' = named namespace name left w in
        record w' { backend = (delete_object C K w'.memory (kong_file q) w.backend).1 }

    removed-absent :
        (namespace name : String) (left : KongFile) (q : Ref) (w : World (cached_proxy C K) R)
        → IsCoherent (cached_proxy C K) (table_of C K L) w.memory w.backend
        → L.find w.backend.cache (key_of namespace name) ≡ some q
        → L.find (removed namespace name left q w).backend.cache (key_of namespace name) ≡ none
    removed-absent namespace name left q w ih present =
        let w' = named namespace name left w in
        ground (
          arith,
          old-cell w.memory w.backend (with_name namespace name left) (key_of namespace name) q ih
              present,
          delete_object-cache C K L w'.memory q w.backend (key_of namespace name),
        )

    -- What the deletion of a cached object leaves where Kong accepts it.
    pub reconcile-removed :
        (A : IsFilesApi K) (now : ℕ) (class namespace name : String) (q : Ref)
        (w : World (cached_proxy C K) R) (gone : IsGone namespace name w.cluster)
        → IsCoherent (cached_proxy C K) (table_of C K L) w.memory w.backend
        → L.find w.backend.cache (key_of namespace name) ≡ some q
        → (Service.delete K (build (w.memory.cell q)) w.backend.server).0.1 ≡ none
        → let w₁ = removed namespace name gone.left q w in
          let path = path_of (build (w.memory.cell q)) in
          (reconcile (cached_proxy C K) R now class namespace name w ≡ returns ((again, none), w₁))
          × (A.contents_at w₁.backend.server path ≡ none)
          × ((other : String)
              → other ≢ path
              → A.contents_at w₁.backend.server other ≡ A.contents_at w.backend.server other)
          × (L.find w₁.backend.cache (key_of namespace name) ≡ none)
    reconcile-removed A now class namespace name q w gone ih present fine =
        let w' = named namespace name gone.left w in
        let (same, key) =
          old-cell w.memory w.backend (with_name namespace name gone.left) (key_of namespace name) q
            ih present in
        let accepted : (delete_object C K w'.memory (kong_file q) w.backend).0 ≡ none =
          unfold delete_object in ground (arith, same, fine) in
        (
          cached-deleted now class namespace name q w gone present ∙ ground (arith, accepted),
          ground (arith, same, delete_object-done C K A w'.memory q w.backend accepted),
          λ other apart.
              ground (arith, same, delete_object-others C K A w'.memory q w.backend other),
          removed-absent namespace name gone.left q w ih present,
        )

    -- The object is gone from the cluster and the cache holds it: if Kong accepts the deletion, the
    -- file leaves Kong, no other file changes, the object leaves the cache, and the request is to be
    -- repeated. The repetition finds nothing to do and ends.
    pub removed-then-done :
        (A : IsFilesApi K) (now later : ℕ) (class namespace name other : String) (q : Ref)
        (w : World (cached_proxy C K) R) (gone : IsGone namespace name w.cluster)
        → IsCoherent (cached_proxy C K) (table_of C K L) w.memory w.backend
        → L.find w.backend.cache (key_of namespace name) ≡ some q
        → (Service.delete K (build (w.memory.cell q)) w.backend.server).0.1 ≡ none
        → other ≢ path_of (build (w.memory.cell q))
        → let P = cached_proxy C K in
          (w₁ w₂ : World P R) × (reconcile P R now class namespace name w
            ≡ returns ((again, none), w₁))
          × (A.contents_at w₁.backend.server (path_of (build (w.memory.cell q))) ≡ none)
          × (A.contents_at w₁.backend.server other ≡ A.contents_at w.backend.server other)
          × (L.find w₁.backend.cache (key_of namespace name) ≡ none)
          × (reconcile P R later class namespace name w₁ ≡ returns ((done, none), w₂))
          × (w₂.backend ≡ w₁.backend)
    removed-then-done A now later class namespace name other q w gone ih present fine apart =
        let w₁ = removed namespace name gone.left q w in
        let (reply, absent, others, out) =
          reconcile-removed A now class namespace name q w gone ih present fine in
        (
          w₁,
          named namespace name gone.left w₁,
          reply,
          absent,
          others other apart,
          out,
          absent-ignored later class namespace name w₁ gone out,
          refl,
        )

    -- If Kong refuses the deletion, the error is reported once. The object has left the cache by then,
    -- so the repetition ends with no error and no further request, whatever Kong still holds.
    pub refused-forgotten :
        (now later : ℕ) (class namespace name : String) (q : Ref) (e : Error)
        (w : World (cached_proxy C K) R) (gone : IsGone namespace name w.cluster)
        → IsCoherent (cached_proxy C K) (table_of C K L) w.memory w.backend
        → L.find w.backend.cache (key_of namespace name) ≡ some q
        → (Service.delete K (build (w.memory.cell q)) w.backend.server).0.1 ≡ some e
        → let P = cached_proxy C K in
          (w₁ w₂ : World P R) × (reconcile P R now class namespace name w
            ≡ returns ((done, some e), w₁))
          × (w₁.backend.server ≡ (Service.delete K (build (w.memory.cell q)) w.backend.server).1)
          × (L.find w₁.backend.cache (key_of namespace name) ≡ none)
          × (reconcile P R later class namespace name w₁ ≡ returns ((done, none), w₂))
          × (w₂.backend ≡ w₁.backend)
    refused-forgotten now later class namespace name q e w gone ih present bad =
        let w' = named namespace name gone.left w in
        let (same, key) =
          old-cell w.memory w.backend (with_name namespace name gone.left) (key_of namespace name) q
            ih present in
        let failed : (delete_object C K w'.memory (kong_file q) w.backend).0 ≡ some e =
          unfold delete_object in ground (arith, same, bad) in
        let w₁ = removed namespace name gone.left q w in
        let out = removed-absent namespace name gone.left q w ih present in
        (
          w₁,
          named namespace name gone.left w₁,
          cached-deleted now class namespace name q w gone present ∙ ground (arith, failed),
          unfold delete_object in ground (arith, same),
          out,
          absent-ignored later class namespace name w₁ gone out,
          refl,
        )
