-- ===== src/Reconciler/Order.antt =====
-- The order in which new objects are served does not matter.
use kong_portal_controller.Proxy.Interface.{cached_proxy}
use kong_portal_controller.Base.{
  String, ◌≡◌, refl, ◌≢◌, ◌↔◌, ◌⊎◌, inl, inr, sym, ◌∙◌, ap, List, [], ◌∷◌, string_dec,
}
use mathlib.Core.List.{Memᴰ}
use mathlib.Core.List.Memᴰ
use kong_portal_controller.Api.{KongFile}
use kong_portal_controller.Build.{build}
use kong_portal_controller.Service.Client.{KongClient, IsFilesApi}
use kong_portal_controller.Store.Cache.{CacheLib}
use kong_portal_controller.Proxy.Laws.{path_of}
use kong_portal_controller.Reconciler.{KubeClient, World}
use kong_portal_controller.Reconciler.Pass.{IsApiServer, Pass, AllNew, AllApart}
use kong_portal_controller.Reconciler.CatchUp.{Pass-IsCaughtUp}

-- The path of one of the objects, or of none.
path-cases :
    (q : String) (objs : List KongFile)
    → ((obj : KongFile) × Memᴰ obj objs × (q ≡ path_of (build obj)))
      ⊎ ((obj : KongFile) → Memᴰ obj objs → q ≢ path_of (build obj))
path-cases q [] = inr (λ obj m. absurd (Memᴰ.not-nil m))
path-cases q (obj ∷ objs) = elim (string_dec q (path_of (build obj))) [
  | yes same ↦ inl (obj, Memᴰ.head refl, same)
  | no apart ↦ elim (path-cases q objs) [
    | inl (o, m, same) ↦ inl (o, Memᴰ.tail m, same)
    | inr none_same ↦ inr (λ o m. elim (Memᴰ.cases_cons m) [
      | inl here ↦ λ e. apart (e ∙ ap (λ (x : KongFile). path_of (build x)) here)
      | inr later ↦ none_same o later
    ])
  ]
]

module _ (C : CacheLib) (K : KongClient) (R : KubeClient) (class : String) (A : IsFilesApi K)
    (S : IsApiServer R) where
  -- New objects, no two of which share a name or a path, are served without an error in two orders, from
  -- the same world. Then Kong has the same files in the end.
  pub pass_order :
      (objs objs' : List KongFile) (w u v : World (cached_proxy C K) R) (q : String)
      → AllNew C K R class objs w
      → AllApart objs
      → AllApart objs'
      → ((obj : KongFile) → Memᴰ obj objs ↔ Memᴰ obj objs')
      → Pass C K R class objs w u
      → Pass C K R class objs' w v
      → A.contents_at u.backend.server q ≡ A.contents_at v.backend.server q
  pass_order objs objs' w u v q new apart apart' same first second =
      let new' : AllNew C K R class objs' w = λ obj m. new obj ((same obj).1 m) in
      let one = Pass-IsCaughtUp C K R class A S objs w u new apart first in
      let two = Pass-IsCaughtUp C K R class A S objs' w v new' apart' second in
      elim (path-cases q objs) [
        | inl (obj, m, here) ↦
            ap (A.contents_at u.backend.server) here
            ∙ (one.stored obj m
                ∙ (sym (two.stored obj ((same obj).0 m))
                    ∙ ap (A.contents_at v.backend.server) (sym here)))
        | inr away ↦
            one.other_files q away ∙ sym (two.other_files q (λ obj m. away obj ((same obj).1 m)))
      ]
