-- ===== src/Reconciler/Serving.antt =====
-- What a reconciliation of an object that the cluster has does to the abstract view: the object is
-- being deleted, or it is new.
use kong_portal_controller.Proxy.Interface.{Proxy}
use kong_portal_controller.Proxy.Contract.{IsTable, IsPublisher}
use kong_portal_controller.Base.{
  ℕ, String, ◌≡◌, refl, sym, inl, inr, true, false, Option, none, some, arith, Error, Option-cases,
  string_eq, nat_eq,
}
use mathlib.Core.Path.{subst}
use kong_portal_controller.Api.{KongFile}
use kong_portal_controller.Annotations.{matches_controller_class_name}
use kong_portal_controller.Store.{kong_file}
use kong_portal_controller.Store.Cache.{Ref, alloc, assign}
use kong_portal_controller.Reconciler.{
  KubeClient, World, done, again, reconcile_deleted, reconcile_new, mark_validated, Reply,
}
use kong_portal_controller.Reconciler.Invariant.{KeepsNames, IsCoherentWorld}
use kong_portal_controller.Reconciler.Mirror.{
  Mirror, Same, Published, Retracted, Request, is_deleted,
}
use kong_portal_controller.Reconciler.Effects.{
  view, alloc-Same, deleted-Retracted, updated-Published, stored-Published, exists-Same,
  Same-Retracted, Same-Published, Same-trans,
}

module _ (P : Proxy) (R : KubeClient) (T : IsTable P) (F : IsPublisher P) (N : KeepsNames R)
    (now : ℕ) (class namespace name : String) where
  abbrev pub view_of : World P R → Mirror
  view_of w = view P T F w.memory w.backend

  abbrev pub fresh : KongFile → World P R → World P R
  fresh obj w = record w { memory = (alloc obj w.memory).1 }

  -- The request that takes `w` to `reply`, where the cluster answered as given.
  abbrev pub Serves : Option Error × KongFile → World P R → Reply P R → Type 0
  Serves answer w reply =
      Request R now class namespace name w.cluster answer reply.0.1 (view_of w) (view_of reply.1)

  pub deleted-Serves :
      (obj : KongFile) (w : World P R)
      → IsCoherentWorld P T R w
      → is_deleted R now class namespace name obj ≡ true
      → Serves (none, obj) w (reconcile_deleted P R w.memory.next (fresh obj w))
  deleted-Serves obj w ih past =
      let r : Ref = w.memory.next in
      let w₁ = fresh obj w in
      let here : w₁.memory.cell r ≡ obj = ground arith in
      let asked = P.object_exists w₁.memory (kong_file r) w₁.backend in
      let told = F.exists-told w₁.memory r w₁.backend in
      let before : Same (view_of w) (view P T F w₁.memory asked.1) =
        Same-trans (alloc-Same P T F w.memory w.backend obj ih)
          (exists-Same P T F w₁.memory w₁.backend r) in
      elim (Option-cases asked.0.1) [
        | inr (e, bad) ↦
            let same : reconcile_deleted P R r w₁
                ≡ ((done, some e), record w₁ { backend = asked.1 }) =
              unfold reconcile_deleted in ground (arith, bad) in
            subst (Serves (none, obj) w) (sym same)
              (Request.deletion_unanswered e refl past refl before)
        | inl fine ↦
            let removed = P.delete_object w₁.memory (kong_file r) asked.1 in
            let same : reconcile_deleted P R r w₁ ≡ (
              (elim removed.0 [ none ↦ again | some e ↦ done ], removed.0),
              record w₁ { backend = removed.1 },
            ) =
              unfold reconcile_deleted in ground (arith, fine, told) in
            subst (Serves (none, obj) w) (sym same) (
              Request.deleted refl past (
                subst
                  (λ (o : KongFile).
                    Retracted removed.0 o (view_of w) (view P T F w₁.memory removed.1))
                  here (Same-Retracted before (deleted-Retracted P T F w₁.memory asked.1 r))))
      ]

  pub new-Serves :
      (obj : KongFile) (w : World P R)
      → IsCoherentWorld P T R w
      → is_deleted R now class namespace name obj ≡ false
      → matches_controller_class_name obj.meta class ≡ true
      → obj.status.validated ≡ false
      → Serves (none, obj) w (reconcile_new P R w.memory.next (fresh obj w))
  new-Serves obj w ih live ours new =
      let r : Ref = w.memory.next in
      let w₁ = fresh obj w in
      let here : w₁.memory.cell r ≡ obj = ground arith in
      let before : Same (view_of w) (view_of w₁) = alloc-Same P T F w.memory w.backend obj ih in
      let sent = P.update_object w₁.memory (kong_file r) w₁.backend in
      let written = R.update_status (mark_validated obj) w.cluster in
      elim (Option-cases sent.0) [
        | inr (e, bad) ↦
            let same : reconcile_new P R r w₁ ≡ ((done, some e), record w₁ { backend = sent.1 }) =
              unfold reconcile_new in ground (arith, bad) in
            subst (Serves (none, obj) w) (sym same) (
              Request.refused e refl live ours new refl (
                subst
                  (λ (o : KongFile).
                    Published (some e) o o (view_of w) (view P T F w₁.memory sent.1))
                  here
                  (subst
                    (λ (f : Option Error).
                      Published f (w₁.memory.cell r) (w₁.memory.cell r) (view_of w)
                        (view P T F w₁.memory sent.1))
                    bad (Same-Published before (updated-Published P T F w₁.memory w.backend r)))))
        | inl fine ↦
            let same : reconcile_new P R r w₁ ≡ (
              (done, written.0.0),
              record {
                memory = assign r written.0.1 w₁.memory;
                backend = sent.1;
                cluster = written.1;
              },
            ) =
              unfold reconcile_new in ground (arith, fine, here) in
            subst (Serves (none, obj) w) (sym same) (
              Request.published refl live ours new refl (
                stored-Published P T F w.memory w.backend obj written.0.1 ih
                  (N (mark_validated obj) w.cluster) fine))
      ]
