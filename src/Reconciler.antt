-- ===== src/Reconciler.antt =====
-- internal/controllers/developer/kongfile_controller.go: the reconciler of KongFiles. Log lines are
-- left out. The proxy is a parameter: the proxy over the cache and the file service is one instance.
pub mod Invariant
pub mod Sync
pub mod Retry
pub mod Pass
pub mod CatchUp
pub mod Health
pub mod Order
pub mod Sharing
pub mod Traffic
pub mod Removal
pub mod Deletion
pub mod Safety
pub mod Trace
pub mod Lifecycle
pub mod Mirror
pub mod Effects
pub mod Serving
pub mod Refinement
pub mod Simulation
pub mod Orphans
pub mod Edits
pub mod Reclassed
use kong_portal_controller.Base.{
  ℕ, zero, String, ap, Bool, true, false, not, ◌&&◌, Option, none, some, Error, Result, err, ◌>>=◌,
  ◌>>◌, Outcome, returns, panics, blocks, ltb, string_eq, nat_eq, if◌then◌else◌,
}
use kong_portal_controller.Api.{KongFile}
use kong_portal_controller.Annotations.{matches_controller_class_name}
use kong_portal_controller.Service.Client.{KongClient}
use kong_portal_controller.Store.{Object, kong_file}
use kong_portal_controller.Store.Cache.{CacheLib, Memory, Ref, alloc, assign}
use kong_portal_controller.Proxy.Interface.{Proxy}

-- What the reconciler uses of sigs.k8s.io/controller-runtime and k8s.io/apimachinery. `get` gives the
-- error of `client.Get` and the content that it leaves in the object; `update_status` that of
-- `Status().Update`, which writes the server's answer into the object.
pub record KubeClient : Type 1 where
  pub Cluster : Type 0
  pub get : String → String → Cluster → Option Error × KongFile
  pub update_status : KongFile → Cluster → (Option Error × KongFile) × Cluster
  pub is_not_found : Error → Bool
  pub is_zero : Option ℕ → Bool

-- `ctrl.Result`, of which the reconciler sets `Requeue`.
pub record ReconcileResult : Type 0 where
  pub requeue : Bool

abbrev pub done : ReconcileResult
done = record { requeue = false }

abbrev pub again : ReconcileResult
again = record { requeue = true }

-- `time.Now().After(t.Time)`. The code asks it only of a pointer that is not nil.
abbrev pub is_past : ℕ → Option ℕ → Bool
is_past now none = false
is_past now (some t) = ltb t now

abbrev pub with_name : String → String → KongFile → KongFile
with_name namespace name obj = record obj {
  meta = record (obj.meta) { namespace = namespace; name = name };
}

abbrev pub mark_validated : KongFile → KongFile
mark_validated obj = record obj { status = record { validated = true } }

module _ (P : Proxy) where
  -- `EnsureProxyDeleteObject`. `DeleteObject` of an interface that is nil panics in its `default` case.
  unfoldable pub ensure_proxy_delete_object :
      Memory → Object → P.State → Outcome ((ReconcileResult × Bool × Option Error) × P.State)
  ensure_proxy_delete_object mem obj b =
      let (cached, exists, failed) = P.object_exists_in_cache mem obj b in
      elim failed [
        | some e ↦ returns ((done, false, some e), b)
        | none ↦
            if exists
            then elim cached [
              | none ↦ panics
              | some item ↦
                  let (deleted, b') = P.delete_object mem item b in
                  elim deleted [
                    | some e ↦ returns ((done, true, some e), b')
                    | none ↦ returns ((again, true, none), b')
                  ]
            ]
            else returns ((done, false, none), b)
      ]

module _ (P : Proxy) (R : KubeClient) where
  pub record World : Type 0 where
    pub memory : Memory
    pub backend : P.State
    pub cluster : R.Cluster

  abbrev pub Reply : Type 0
  Reply = (ReconcileResult × Option Error) × World

  -- The object is gone from the cluster. `mem` holds it, with the request's name, at `r`.
  unfoldable pub reconcile_missing : Ref → World → Outcome Reply
  unfolding ensure_proxy_delete_object
  reconcile_missing r w = elim (ensure_proxy_delete_object P w.memory (kong_file r) w.backend) [
    | panics ↦ panics
    | blocks ↦ blocks
    | returns ((result, exists, e), b) ↦ returns ((result, e), record w { backend = b })
  ]

  -- The object is being deleted.
  unfoldable pub reconcile_deleted : Ref → World → Reply
  reconcile_deleted r w =
      let ((exists, failed), b) = P.object_exists w.memory (kong_file r) w.backend in
      elim failed [
        | some e ↦ ((done, some e), record w { backend = b })
        | none ↦
            if exists
            then (let (deleted, b') = P.delete_object w.memory (kong_file r) b in
                elim deleted [
                  | some e ↦ ((done, some e), record w { backend = b' })
                  | none ↦ ((again, none), record w { backend = b' })
                ])
            else ((done, none), record w { backend = b })
      ]

  -- The object is new: it is sent to Kong and then marked as validated, in the object that the cache
  -- holds too and in the cluster.
  unfoldable pub reconcile_new : Ref → World → Reply
  reconcile_new r w =
      let (failed, b) = P.update_object w.memory (kong_file r) w.backend in
      elim failed [
        | some e ↦ ((done, some e), record w { backend = b })
        | none ↦
            let ((refused, answer), cluster) =
              R.update_status (mark_validated (w.memory.cell r)) w.cluster in
            (
              (done, refused),
              record { memory = assign r answer w.memory; backend = b; cluster = cluster },
            )
      ]

  unfoldable pub reconcile_found : ℕ → String → Ref → World → Reply
  unfolding reconcile_deleted reconcile_new
  reconcile_found now class r w =
      let obj = w.memory.cell r in
      if not (R.is_zero obj.meta.deletion_timestamp) && is_past now obj.meta.deletion_timestamp
      then reconcile_deleted r w
      else if not (matches_controller_class_name obj.meta class)
      then ((done, none), w)
      else if not obj.status.validated
      then reconcile_new r w
      else ((done, none), w)

  unfoldable pub reconcile : ℕ → String → String → String → World → Outcome Reply
  unfolding reconcile_missing reconcile_found
  reconcile now class namespace name w =
      let (failed, got) = R.get namespace name w.cluster in
      elim failed [
        | some e ↦
            if R.is_not_found e
            then (let (r, mem) = alloc (with_name namespace name got) w.memory in
                reconcile_missing r (record w { memory = mem }))
            else (let (r, mem) = alloc got w.memory in
                returns ((done, some e), record w { memory = mem }))
        | none ↦
            let (r, mem) = alloc got w.memory in
            returns (reconcile_found now class r (record w { memory = mem }))
      ]
