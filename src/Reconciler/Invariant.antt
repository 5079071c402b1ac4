-- ===== src/Reconciler/Invariant.antt =====
-- The invariant of a proxy with a table of its objects: each pointer in the table is allocated, and the
-- object there carries the name under which it is kept. The table of the proxy of this repository is
-- its cache.
use kong_portal_controller.Proxy.Interface.{Proxy}
use kong_portal_controller.Proxy.Contract.{IsTable}
use kong_portal_controller.Base.{
  ℕ, ◌<◌, String, ◌≡◌, inl, inr, Bool, true, false, Option, none, some, arith, Error, Outcome,
  returns, Option-cases, Bool-cases, string_eq, nat_eq,
}
use kong_portal_controller.Api.{KongFile}
use kong_portal_controller.Store.{kong_file, key_of}
use kong_portal_controller.Store.Cache.{Memory, Ref, alloc, assign}
use kong_portal_controller.Proxy.Laws.{key_at}
use kong_portal_controller.Reconciler.{
  KubeClient, World, ReconcileResult, done, again, reconcile, reconcile_missing, reconcile_deleted,
  reconcile_new, reconcile_found, ensure_proxy_delete_object, mark_validated, Reply, with_name,
}

abbrev pub key_of_file : KongFile → String
key_of_file obj = key_of obj.meta.namespace obj.meta.name

-- The API server never renames an object.
abbrev pub KeepsNames : KubeClient → Type 0
KeepsNames R =
    (obj : KongFile) (s : R.Cluster) → key_of_file (R.update_status obj s).0.1 ≡ key_of_file obj

module _ (P : Proxy) (T : IsTable P) where
  abbrev pub IsCoherent : Memory → P.State → Type 0
  IsCoherent mem s =
      (k : String) (r : Ref) → T.find s k ≡ some r → (r < mem.next) × (key_at mem r ≡ k)

  -- Allocation.
  pub alloc-IsCoherent :
      (mem : Memory) (s : P.State) (obj : KongFile)
      → IsCoherent mem s
      → IsCoherent (alloc obj mem).1 s
  alloc-IsCoherent mem s obj ih k r e = ground (arith, ih k r)

  pub assign-IsCoherent :
      (mem : Memory) (s : P.State) (r : Ref) (obj : KongFile)
      → key_of_file obj ≡ key_at mem r
      → IsCoherent mem s
      → IsCoherent (assign r obj mem) s
  assign-IsCoherent mem s r obj same ih k q e = ground (arith, ih k q)

  pub update_object-IsCoherent :
      (mem : Memory) (r : Ref) (b : P.State)
      → r < mem.next
      → IsCoherent mem b
      → IsCoherent mem (P.update_object mem (kong_file r) b).1
  update_object-IsCoherent mem r b h ih k q e = ground (arith, ih k q, T.find-update mem r b k)

  pub delete_object-IsCoherent :
      (mem : Memory) (r : Ref) (b : P.State)
      → IsCoherent mem b
      → IsCoherent mem (P.delete_object mem (kong_file r) b).1
  delete_object-IsCoherent mem r b ih k q e = ground (arith, ih k q, T.find-delete mem r b k)

  -- What `DeleteObject` of a cached object leaves.
  abbrev pub removal_reply :
      Option Error × P.State → Outcome ((ReconcileResult × Bool × Option Error) × P.State)
  removal_reply (some e, b) = returns ((done, true, some e), b)
  removal_reply (none, b) = returns ((again, true, none), b)

  abbrev pub removal :
      Memory → Option Ref → P.State → Outcome ((ReconcileResult × Bool × Option Error) × P.State)
  removal mem none b = returns ((done, false, none), b)
  removal mem (some q) b = removal_reply (P.delete_object mem (kong_file q) b)

  -- `EnsureProxyDeleteObject` deletes the object that the table holds under the name, if there is one.
  pub ensure_proxy_delete_object-removal :
      (mem : Memory) (r : Ref) (b : P.State)
      → ensure_proxy_delete_object P mem (kong_file r) b ≡ removal mem (T.find b (key_at mem r)) b
  unfolding ensure_proxy_delete_object
  ensure_proxy_delete_object-removal mem r b = ground (arith, T.known mem r b)

  module _ (R : KubeClient) where
    abbrev pub IsCoherentWorld : World P R → Type 0
    IsCoherentWorld w = IsCoherent w.memory w.backend

  module _ (R : KubeClient) (N : KeepsNames R) where
    missing-IsCoherent :
        (r : Ref) (w : World P R)
        → IsCoherentWorld R w
        → (reply : Reply P R) × (reconcile_missing P R r w ≡ returns reply)
          × IsCoherentWorld R reply.1
    unfolding reconcile_missing
    missing-IsCoherent r w ih = elim (Option-cases (T.find w.backend (key_at w.memory r))) [
      | inl absent ↦ (
        ((done, none), w),
        ground (arith, ensure_proxy_delete_object-removal w.memory r w.backend),
        ih,
      )
      | inr (q, present) ↦
          elim (Option-cases (P.delete_object w.memory (kong_file q) w.backend).0) [
            | inl fine ↦ (
              (
                (again, none),
                record w { backend = (P.delete_object w.memory (kong_file q) w.backend).1 },
              ),
              ground (arith, ensure_proxy_delete_object-removal w.memory r w.backend),
              delete_object-IsCoherent w.memory q w.backend ih,
            )
            | inr (e, bad) ↦ (
              (
                (done, some e),
                record w { backend = (P.delete_object w.memory (kong_file q) w.backend).1 },
              ),
              ground (arith, ensure_proxy_delete_object-removal w.memory r w.backend),
              delete_object-IsCoherent w.memory q w.backend ih,
            )
          ]
    ]

    deleted-IsCoherent :
        (r : Ref) (w : World P R)
        → IsCoherentWorld R w
        → IsCoherentWorld R (reconcile_deleted P R r w).1
    unfolding reconcile_deleted
    deleted-IsCoherent r w ih k q e = ground (
      arith,
      ih k q,
      T.find-exists w.memory r w.backend k,
      T.find-delete w.memory r (P.object_exists w.memory (kong_file r) w.backend).1 k,
    )

    new-IsCoherent :
        (r : Ref) (w : World P R)
        → r < w.memory.next
        → IsCoherentWorld R w
        → IsCoherentWorld R (reconcile_new P R r w).1
    unfolding reconcile_new
    new-IsCoherent r w h ih k q e = ground (
      arith,
      update_object-IsCoherent w.memory r w.backend h ih k q,
      N (mark_validated (w.memory.cell r)) w.cluster,
    )

    found-IsCoherent :
        (now : ℕ) (class : String) (r : Ref) (w : World P R)
        → r < w.memory.next
        → IsCoherentWorld R w
        → IsCoherentWorld R (reconcile_found P R now class r w).1
    unfolding reconcile_found
    found-IsCoherent now class r w h ih k q e =
        ground (arith, ih k q, deleted-IsCoherent r w ih k q, new-IsCoherent r w h ih k q)

    -- From a coherent table every reconciliation returns, with no panic, and keeps the table coherent.
    pub reconcile-IsCoherent :
        (now : ℕ) (class namespace name : String) (w : World P R)
        → IsCoherentWorld R w
        → (reply : Reply P R) × (reconcile P R now class namespace name w ≡ returns reply)
          × IsCoherentWorld R reply.1
    unfolding reconcile
    reconcile-IsCoherent now class namespace name w ih =
        let got : KongFile = (R.get namespace name w.cluster).1 in
        let fresh : KongFile → World P R = λ obj. record w { memory = (alloc obj w.memory).1 } in
        elim (Option-cases (R.get namespace name w.cluster).0) [
          | inl fine ↦ (
            reconcile_found P R now class w.memory.next (fresh got),
            ground arith,
            found-IsCoherent now class w.memory.next (fresh got) (omega arith)
                (alloc-IsCoherent w.memory w.backend got ih),
          )
          | inr (e, bad) ↦ elim (Bool-cases (R.is_not_found e)) [
            | inl gone ↦
                let named : KongFile = with_name namespace name got in
                let (reply, same, keeps) =
                  missing-IsCoherent w.memory.next (fresh named)
                    (alloc-IsCoherent w.memory w.backend named ih) in
                (reply, ground (arith, same), keeps)
            | inr other ↦ (
              ((done, some e), fresh got),
              ground arith,
              alloc-IsCoherent w.memory w.backend got ih,
            )
          ]
        ]
