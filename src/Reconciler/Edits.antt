-- ===== src/Reconciler/Edits.antt =====
-- Changes to the specification of an object that was sent before.
use kong_portal_controller.Proxy.Interface.{cached_proxy}
use kong_portal_controller.Base.{ℕ, String, ◌≡◌, ◌≢◌, true, false, none, some, returns}
use kong_portal_controller.Api.{KongFile}
use kong_portal_controller.Build.{build}
use kong_portal_controller.Service
use kong_portal_controller.Service.Client.{KongClient, IsFilesApi}
use kong_portal_controller.Store.Cache.{CacheLib}
use kong_portal_controller.Proxy.Laws.{path_of, contents_of}
use kong_portal_controller.Reconciler.{KubeClient, World, done, reconcile, mark_validated}
use kong_portal_controller.Reconciler.Sync.{
  IsLive, fetched, accepted, reconcile-accepted, accepted-files, validated-skipped,
}

module _ (C : CacheLib) (K : KongClient) (R : KubeClient) (A : IsFilesApi K) where
  -- A new object is reconciled and Kong accepts it. Then the cluster has another version of it, with any
  -- specification, that carries the status `validated`. The reconciliation of that version ends without
  -- an error, Kong still has the contents that were built from the first version under the path of the
  -- first version, and every other file, the path of the new version among them, is as it was before the first reconciliation.
  pub edited-stale :
      (now later : ℕ) (class namespace name : String) (obj edited : KongFile)
      (w : World (cached_proxy C K) R) (s : R.Cluster) (q : String)
      → IsLive C K R class namespace name obj w
      → obj.status.validated ≡ false
      → (Service.update K (build obj) w.backend.server).0.1 ≡ none
      → IsLive C K R class namespace name edited (record w { cluster = s })
      → edited.status.validated ≡ true
      → q ≢ path_of (build obj)
      → let P = cached_proxy C K in
        (w₁ w₂ : World P R) × (reconcile P R now class namespace name w
          ≡ returns ((done, (R.update_status (mark_validated obj) w.cluster).0.0), w₁))
        × (reconcile P R later class namespace name (record w₁ { cluster = s })
            ≡ returns ((done, none), w₂))
        × (A.contents_at w₂.backend.server (path_of (build obj)) ≡ some (contents_of (build obj)))
        × (A.contents_at w₂.backend.server q ≡ A.contents_at w.backend.server q)
  edited-stale now later class namespace name obj edited w s q live new fine live' old apart =
      let w₁ = record (accepted C K R obj w) { cluster = s } in
      let (has, kept) = accepted-files C K R A obj w fine in
      let still : IsLive C K R class namespace name edited w₁ = record {
        got = live'.got;
        kept = live'.kept;
        ours = live'.ours;
      } in
      (
        accepted C K R obj w,
        fetched C K R edited w₁,
        reconcile-accepted C K R now class namespace name obj w live new fine,
        validated-skipped C K R later class namespace name edited w₁ still old,
        has,
        kept q apart,
      )
