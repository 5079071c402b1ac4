-- ===== src/Reconciler/Traffic.antt =====
-- The requests that a reconciliation sends to Kong.
use kong_portal_controller.Proxy.Interface.{cached_proxy}
use kong_portal_controller.Base.{
  ℕ, ◌+◌, ◌≤◌, String, ◌≡◌, ◌⊎◌, inl, inr, false, Option, List, ◌∷◌, arith, Error, returns,
  Option-cases, Bool-cases, string_eq, nat_eq,
}
use kong_portal_controller.Api.{KongFile}
use kong_portal_controller.Build.{build}
use kong_portal_controller.Build.Folders.{IsManaged, build-IsManaged}
use kong_portal_controller.Service.{is_empty_string}
use kong_portal_controller.Service.Client.{File, KongClient}
use kong_portal_controller.Service.Traffic.{
  Sent, length, recorded, Sends, put_of, get_of, delete_of, update-recorded, get-recorded,
  delete-recorded,
}
use kong_portal_controller.Store
use kong_portal_controller.Store.{Object, kong_file, key_func}
use kong_portal_controller.Store.Cache.{CacheLib, Memory, Ref, alloc}
use kong_portal_controller.Proxy.{
  Backend, update_object, delete_object, object_exists, object_exists_in_cache,
}
use kong_portal_controller.Proxy.Laws.{path_of, build-path}
use kong_portal_controller.Reconciler.{
  KubeClient, World, with_name, ReconcileResult, ensure_proxy_delete_object, reconcile,
  reconcile_missing, reconcile_deleted, reconcile_new, reconcile_found,
}

module _ (C : CacheLib) (K : KongClient) where
  -- The cache and Kong, without the record.
  abbrev pub unrecorded : Backend C (recorded K) → Backend C K
  unrecorded b = record { cache = b.cache; server = b.server.0 }

  update_object-recorded :
      (mem : Memory) (r : Ref) (b : Backend C (recorded K))
      → let x = update_object C (recorded K) mem (kong_file r) b in
        let y = update_object C K mem (kong_file r) (unrecorded b) in
        (x.0 ≡ y.0)
        × (unrecorded x.1 ≡ y.1)
        × Sends K (put_of K (build (mem.cell r))) (build (mem.cell r)) b.server.1 x.1.server.1
  unfolding update_object
  update_object-recorded mem r b =
      ground (arith, update-recorded K (build (mem.cell r)) b.server.0 b.server.1)

  delete_object-recorded :
      (mem : Memory) (r : Ref) (b : Backend C (recorded K))
      → let x = delete_object C (recorded K) mem (kong_file r) b in
        let y = delete_object C K mem (kong_file r) (unrecorded b) in
        (x.0 ≡ y.0)
        × (unrecorded x.1 ≡ y.1)
        × Sends K (delete_of K (build (mem.cell r))) (build (mem.cell r)) b.server.1 x.1.server.1
  unfolding delete_object
  delete_object-recorded mem r b =
      ground (arith, delete-recorded K (build (mem.cell r)) b.server.0 b.server.1)

  object_exists-recorded :
      (mem : Memory) (r : Ref) (b : Backend C (recorded K))
      → let x = object_exists C (recorded K) mem (kong_file r) b in
        let y = object_exists C K mem (kong_file r) (unrecorded b) in
        (x.0 ≡ y.0)
        × (unrecorded x.1 ≡ y.1)
        × Sends K (get_of K (build (mem.cell r))) (build (mem.cell r)) b.server.1 x.1.server.1
  unfolding object_exists
  object_exists-recorded mem r b =
      ground (arith, get-recorded K (build (mem.cell r)) b.server.0 b.server.1)

module _ (C : CacheLib) (K : KongClient) (R : KubeClient) where
  -- The world, without the record.
  abbrev pub forget : World (cached_proxy C (recorded K)) R → World (cached_proxy C K) R
  forget u = record { memory = u.memory; backend = unrecorded C K u.backend; cluster = u.cluster }

  -- The record, the last request first.
  abbrev pub log : World (cached_proxy C (recorded K)) R → List Sent
  log u = u.backend.server.1

  new-recorded :
      (r : Ref) (u : World (cached_proxy C (recorded K)) R)
      → let x = reconcile_new (cached_proxy C (recorded K)) R r u in
        let y = reconcile_new (cached_proxy C K) R r (forget u) in
        (x.0 ≡ y.0)
        × (forget x.1 ≡ y.1)
        × Sends K (put_of K (build (u.memory.cell r))) (build (u.memory.cell r)) (log u) (log x.1)
  unfolding reconcile_new
  new-recorded r u = ground (arith, update_object-recorded C K u.memory r u.backend)

  -- Nothing, or one or two requests about one file, whose path is not blank: a PUT, a DELETE, a GET, or a
  -- GET and then a DELETE.
  abbrev pub IsTraffic : File → List Sent → List Sent → Type 0
  IsTraffic f before after =
      (after ≡ before)
      ⊎ ((is_empty_string f.path ≡ false)
          × ((after ≡ put_of K f ∷ before)
              ⊎ ((after ≡ delete_of K f ∷ before)
                  ⊎ ((after ≡ get_of K f ∷ before)
                      ⊎ (after ≡ delete_of K f ∷ get_of K f ∷ before)))))

  deleted-recorded :
      (r : Ref) (u : World (cached_proxy C (recorded K)) R)
      → let x = reconcile_deleted (cached_proxy C (recorded K)) R r u in
        let y = reconcile_deleted (cached_proxy C K) R r (forget u) in
        (x.0 ≡ y.0) × (forget x.1 ≡ y.1) × IsTraffic (build (u.memory.cell r)) (log u) (log x.1)
  unfolding reconcile_deleted
  deleted-recorded r u =
      let asked = object_exists C (recorded K) u.memory (kong_file r) u.backend in
      ground (
        arith,
        object_exists-recorded C K u.memory r u.backend,
        delete_object-recorded C K u.memory r asked.1,
      )

  found-recorded :
      (now : ℕ) (class : String) (r : Ref) (u : World (cached_proxy C (recorded K)) R)
      → let x = reconcile_found (cached_proxy C (recorded K)) R now class r u in
        let y = reconcile_found (cached_proxy C K) R now class r (forget u) in
        (x.0 ≡ y.0) × (forget x.1 ≡ y.1) × IsTraffic (build (u.memory.cell r)) (log u) (log x.1)
  unfolding reconcile_found
  found-recorded now class r u = ground (arith, deleted-recorded r u, new-recorded r u)

  missing-recorded :
      (r : Ref) (u v : World (cached_proxy C (recorded K)) R)
      (reply : ReconcileResult × Option Error)
      → reconcile_missing (cached_proxy C (recorded K)) R r u ≡ returns (reply, v)
      → (reconcile_missing (cached_proxy C K) R r (forget u) ≡ returns (reply, forget v))
        × ((obj : KongFile) × IsTraffic (build obj) (log u) (log v))
  unfolding reconcile_missing ensure_proxy_delete_object object_exists_in_cache Store.get
  missing-recorded r u v reply h =
      let found = C.get (key_func u.memory) r u.backend.cache in
      elim (Option-cases found.error) [
        | inr (e, failed) ↦ (ground arith, (u.memory.cell r, ground arith))
        | inl fine ↦ elim (Bool-cases found.exists) [
          | inr absent ↦ (ground arith, (u.memory.cell r, ground arith))
          | inl present ↦ elim (Option-cases found.item) [
            | inl nothing ↦ absurd (ground arith)
            | inr (q, held) ↦
                let sent = delete_object-recorded C K u.memory q u.backend in
                (ground (arith, sent), (u.memory.cell q, ground (arith, sent)))
          ]
        ]
      ]

  IsTraffic-length :
      (f : File) (before after : List Sent)
      → IsTraffic f before after
      → length after ≤ length before + 2
  IsTraffic-length f before after h = ground arith

  IsTraffic-IsManaged :
      (obj : KongFile) (before after : List Sent)
      → IsTraffic (build obj) before after
      → (after ≡ before) ⊎ (IsManaged (path_of (build obj)) × IsTraffic (build obj) before after)
  IsTraffic-IsManaged obj before after h = elim h [
    | inl same ↦ inl same
    | inr (visible, some_sent) ↦ inr (
      build-IsManaged obj (path_of (build obj)) (build-path obj) visible,
      inr (visible, some_sent),
    )
  ]

  any-recorded :
      (now : ℕ) (class namespace name : String) (u v : World (cached_proxy C (recorded K)) R)
      (reply : ReconcileResult × Option Error)
      → reconcile (cached_proxy C (recorded K)) R now class namespace name u ≡ returns (reply, v)
      → (reconcile (cached_proxy C K) R now class namespace name (forget u)
          ≡ returns (reply, forget v))
        × ((obj : KongFile) × IsTraffic (build obj) (log u) (log v))
  unfolding reconcile
  any-recorded now class namespace name u v reply h =
      let got = R.get namespace name u.cluster in
      elim (Option-cases got.0) [
        | inl fine ↦
            let (r, mem) = alloc got.1 u.memory in
            let found = found-recorded now class r (record u { memory = mem }) in
            (ground (arith, found), (mem.cell r, ground (arith, found)))
        | inr (e, failed) ↦ elim (Bool-cases (R.is_not_found e)) [
          | inr other ↦ (ground arith, (got.1, ground arith))
          | inl absent ↦
              let (r, mem) = alloc (with_name namespace name got.1) u.memory in
              let there = missing-recorded r (record u { memory = mem }) v reply (ground arith) in
              (ground (arith, there.0), there.1)
        ]
      ]

  -- With a client that writes down what it sends, a reconciliation that returns gives the same reply and
  -- leaves the same world as without. It sends at most two requests, and they are all about one file, the
  -- built one of one object, in one of the three managed folders: a PUT, a DELETE, a GET, or a GET and
  -- then a DELETE.
  pub reconcile-IsTraffic :
      (now : ℕ) (class namespace name : String) (u v : World (cached_proxy C (recorded K)) R)
      (reply : ReconcileResult × Option Error)
      → reconcile (cached_proxy C (recorded K)) R now class namespace name u ≡ returns (reply, v)
      → (reconcile (cached_proxy C K) R now class namespace name (forget u)
          ≡ returns (reply, forget v))
        × (length (log v) ≤ length (log u) + 2)
        × ((log v ≡ log u)
            ⊎ ((obj : KongFile) × IsManaged (path_of (build obj))
                × IsTraffic (build obj) (log u) (log v)))
  reconcile-IsTraffic now class namespace name u v reply h =
      let (same, (obj, traffic)) = any-recorded now class namespace name u v reply h in
      (
        same,
        IsTraffic-length (build obj) (log u) (log v) traffic,
        elim (IsTraffic-IsManaged obj (log u) (log v) traffic) [
          | inl unchanged ↦ inl unchanged
          | inr (managed, sent) ↦ inr (obj, managed, sent)
        ],
      )
