-- ===== src/Reconciler/Refinement.antt =====
-- The reconciler keeps the promise of `Mirror` over every proxy that keeps its contract.
use kong_portal_controller.Proxy.Interface.{Proxy}
use kong_portal_controller.Proxy.Contract.{IsTable, IsPublisher}
use kong_portal_controller.Base.{
  ℕ, String, ◌≡◌, refl, sym, inl, inr, true, Option, none, some, arith, Error, returns,
  Option-cases, Bool-cases, string_eq, nat_eq,
}
use mathlib.Core.Path.{subst}
use kong_portal_controller.Api.{KongFile}
use kong_portal_controller.Annotations.{matches_controller_class_name}
use kong_portal_controller.Store.{key_of, kong_file}
use kong_portal_controller.Store.Cache.{Ref}
use kong_portal_controller.Proxy.Laws.{key_at}
use kong_portal_controller.Reconciler.{
  KubeClient, World, done, again, reconcile, reconcile_missing, reconcile_deleted, reconcile_new,
  reconcile_found, Reply, with_name,
}
use kong_portal_controller.Reconciler.Invariant.{
  KeepsNames, IsCoherentWorld, ensure_proxy_delete_object-removal,
}
use kong_portal_controller.Reconciler.Mirror.{Mirror, Same, Retracted, Request, is_deleted}
use kong_portal_controller.Reconciler.Effects.{view, alloc-Same, deleted-Retracted, Same-Retracted}
use kong_portal_controller.Reconciler.Serving

module _ (P : Proxy) (R : KubeClient) (T : IsTable P) (F : IsPublisher P) (N : KeepsNames R)
    (now : ℕ) (class namespace name : String) where
  abbrev view_of : World P R → Mirror
  view_of w = Serving.view_of P R T F N now class namespace name w

  abbrev fresh : KongFile → World P R → World P R
  fresh obj w = Serving.fresh P R T F N now class namespace name obj w

  abbrev pub Serves : Option Error × KongFile → World P R → Reply P R → Type 0
  Serves answer w reply = Serving.Serves P R T F N now class namespace name answer w reply

  found-Serves :
      (obj : KongFile) (w : World P R)
      → IsCoherentWorld P T R w
      → Serves (none, obj) w (reconcile_found P R now class w.memory.next (fresh obj w))
  found-Serves obj w ih =
      let r : Ref = w.memory.next in
      let w₁ = fresh obj w in
      let here : w₁.memory.cell r ≡ obj = ground arith in
      let before : Same (view_of w) (view_of w₁) = alloc-Same P T F w.memory w.backend obj ih in
      let found = reconcile_found P R now class r w₁ in
      elim (Bool-cases (is_deleted R now class namespace name obj)) [
        | inl past ↦
            let same : found ≡ reconcile_deleted P R r w₁ =
              unfold reconcile_found in ground (arith, here, past) in
            subst (Serves (none, obj) w) (sym same)
              (Serving.deleted-Serves P R T F N now class namespace name obj w ih past)
        | inr live ↦ elim (Bool-cases (matches_controller_class_name obj.meta class)) [
          | inr other ↦
              let same : found ≡ ((done, none), w₁) =
                unfold reconcile_found in ground (arith, here, live, other) in
              subst (Serves (none, obj) w) (sym same)
                (Request.skipped refl live (inl other) refl before)
          | inl ours ↦ elim (Bool-cases obj.status.validated) [
            | inl old ↦
                let same : found ≡ ((done, none), w₁) =
                  unfold reconcile_found in ground (arith, here, live, ours, old) in
                subst (Serves (none, obj) w) (sym same)
                  (Request.skipped refl live (inr old) refl before)
            | inr new ↦
                let same : found ≡ reconcile_new P R r w₁ =
                  unfold reconcile_found in ground (arith, here, live, ours, new) in
                subst (Serves (none, obj) w) (sym same)
                  (Serving.new-Serves P R T F N now class namespace name obj w ih live ours new)
          ]
        ]
      ]

  missing-Serves :
      (e : Error) (left : KongFile) (w : World P R)
      → IsCoherentWorld P T R w
      → R.is_not_found e ≡ true
      → (reply : Reply P R) × (reconcile_missing P R w.memory.next
            (fresh (with_name namespace name left) w)
          ≡ returns reply)
        × Serves (some e, left) w reply
  missing-Serves e left w ih gone =
      let r : Ref = w.memory.next in
      let obj : KongFile = with_name namespace name left in
      let w₁ = fresh obj w in
      let key : key_at w₁.memory r ≡ key_of namespace name = ground arith in
      let before : Same (view_of w) (view_of w₁) = alloc-Same P T F w.memory w.backend obj ih in
      let removal = ensure_proxy_delete_object-removal P T w₁.memory r w.backend in
      elim (Option-cases (T.find w.backend (key_of namespace name))) [
        | inl absent ↦ (
          ((done, none), w₁),
          unfold reconcile_missing in ground (arith, removal, key, absent),
          Request.unknown e refl gone (ground (arith, absent)) refl before,
        )
        | inr (q, present) ↦
            let out = P.delete_object w₁.memory (kong_file q) w.backend in
            (
              ((elim out.0 [ none ↦ again | some e ↦ done ], out.0), record w₁ { backend = out.1 }),
              unfold reconcile_missing in ground (arith, removal, key, present),
              Request.removed e (w.memory.cell q) refl gone (ground (arith, present)) (
                  subst
                    (λ (o : KongFile). Retracted out.0 o (view_of w) (view P T F w₁.memory out.1))
                    (ground (arith, ih (key_of namespace name) q present))
                    (Same-Retracted before (deleted-Retracted P T F w₁.memory w.backend q))),
            )
      ]

  -- Over every proxy that keeps the contract of `IsTable` and `IsPublisher`, from a coherent table of its
  -- objects, and with an API server that renames no object, every reconciliation returns, and it does to
  -- the published objects and to the files of the portal what `Request` allows for the answer of the
  -- cluster and the error of the reply, and nothing else.
  pub reconcile-Serves :
      (w : World P R)
      → IsCoherentWorld P T R w
      → (reply : Reply P R) × (reconcile P R now class namespace name w ≡ returns reply)
        × Serves (R.get namespace name w.cluster) w reply
  reconcile-Serves w ih =
      let got : KongFile = (R.get namespace name w.cluster).1 in
      elim (Option-cases (R.get namespace name w.cluster).0) [
        | inl fine ↦
            let answer : R.get namespace name w.cluster ≡ (none, got) = ground (arith, fine) in
            let found = reconcile_found P R now class w.memory.next (fresh got w) in
            (
              found,
              unfold reconcile in ground (arith, fine),
              subst (λ a. Serves a w found) (sym answer) (found-Serves got w ih),
            )
        | inr (e, bad) ↦
            let answer : R.get namespace name w.cluster ≡ (some e, got) = ground (arith, bad) in
            elim (Bool-cases (R.is_not_found e)) [
              | inl gone ↦
                  let (reply, same, serves) = missing-Serves e got w ih gone in
                  (
                    reply,
                    unfold reconcile in ground (arith, bad, gone, same),
                    subst (λ a. Serves a w reply) (sym answer) serves,
                  )
              | inr other ↦ (
                ((done, some e), fresh got w),
                unfold reconcile in ground (arith, bad, other),
                subst (λ a. Serves a w ((done, some e), fresh got w)) (sym answer)
                    (Request.unanswered e refl other refl
                      (alloc-Same P T F w.memory w.backend got ih)),
              )
            ]
      ]
