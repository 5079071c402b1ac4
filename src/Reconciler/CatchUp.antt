-- ===== src/Reconciler/CatchUp.antt =====
-- New objects that are served without an error are caught up with, and then nothing happens.
use kong_portal_controller.Proxy.Interface.{cached_proxy}
use kong_portal_controller.Base.{
  ℕ, String, ◌≡◌, refl, sym, ◌∙◌, ◌≢◌, inl, inr, false, none, some, List, [], ◌∷◌, arith, returns,
  Option-cases, string_eq, nat_eq,
}
use mathlib.Core.Path.{subst}
use mathlib.Core.List.{Memᴰ}
use mathlib.Core.List.Memᴰ
use kong_portal_controller.Api.{KongFile}
use kong_portal_controller.Build.{build}
use kong_portal_controller.Service
use kong_portal_controller.Service.Client.{KongClient, IsFilesApi}
use kong_portal_controller.Store.{key_of}
use kong_portal_controller.Store.Cache.{CacheLib}
use kong_portal_controller.Proxy.Laws.{path_of, contents_of}
use kong_portal_controller.Reconciler.{
  KubeClient, World, ReconcileResult, reconcile, mark_validated,
}
use kong_portal_controller.Reconciler.Invariant.{key_of_file}
use kong_portal_controller.Reconciler.Sync.{
  IsLive, fetched, accepted, reconcile-accepted, refused-retried, validated-skipped, accepted-files,
}
use kong_portal_controller.Reconciler.Pass.{
  IsApiServer, Pass, finished, request, Holds, AllNew, AllApart, IsCaughtUp,
}

module _ (C : CacheLib) (K : KongClient) (R : KubeClient) (class : String) (A : IsFilesApi K)
    (S : IsApiServer R) where
  -- A new object that is served without an error was accepted by Kong and by the API server.
  served-accepted :
      (now : ℕ) (obj : KongFile) (result : ReconcileResult) (u v : World (cached_proxy C K) R)
      → Holds C K R class obj u
      → obj.status.validated ≡ false
      → reconcile (cached_proxy C K) R now class obj.meta.namespace obj.meta.name u
        ≡ returns ((result, none), v)
      → ((Service.update K (build obj) u.backend.server).0.1 ≡ none)
        × ((R.update_status (mark_validated obj) u.cluster).0.0 ≡ none)
        × (v ≡ accepted C K R obj u)
  served-accepted now obj result u v live new h =
      elim (Option-cases (Service.update K (build obj) u.backend.server).0.1) [
        | inr (e, bad) ↦
            let (u', refused, same, sent) =
              refused-retried C K R now class obj.meta.namespace obj.meta.name obj e u live new
                bad in
            absurd (ground (arith, refused, h))
        | inl fine ↦
            let ran =
              reconcile-accepted C K R now class obj.meta.namespace obj.meta.name obj u live new
                fine in
            (fine, ground (arith, ran, h), ground (arith, ran, h))
      ]

  -- After a new object was served: its file, the other files, its status, and the other objects.
  served-new :
      (obj : KongFile) (u : World (cached_proxy C K) R)
      → Holds C K R class obj u
      → (Service.update K (build obj) u.backend.server).0.1 ≡ none
      → (R.update_status (mark_validated obj) u.cluster).0.0 ≡ none
      → let v = accepted C K R obj u in
        (A.contents_at v.backend.server (path_of (build obj)) ≡ some (contents_of (build obj)))
        × ((q : String)
            → q ≢ path_of (build obj)
            → A.contents_at v.backend.server q ≡ A.contents_at u.backend.server q)
        × (R.get obj.meta.namespace obj.meta.name v.cluster ≡ (none, mark_validated obj))
        × ((namespace name : String)
            → key_of namespace name ≢ key_of_file obj
            → R.get namespace name v.cluster ≡ R.get namespace name u.cluster)
  served-new obj u live sent written =
      let (stored, others) = accepted-files C K R A obj u sent in
      (
        stored,
        others,
        S.write_done (mark_validated obj) obj u.cluster live.got refl refl written,
        λ namespace name apart. S.write_others (mark_validated obj) u.cluster namespace name apart,
      )

  -- The first request of a pass, and then the rest of it.
  IsCaughtUp-cons :
      (obj : KongFile) (objs : List KongFile) (w v : World (cached_proxy C K) R)
      → let u = accepted C K R obj w in
        Holds C K R class obj w
        → (Service.update K (build obj) w.backend.server).0.1 ≡ none
        → (R.update_status (mark_validated obj) w.cluster).0.0 ≡ none
        → ((o : KongFile)
            → Memᴰ o objs
            → (key_of_file o ≢ key_of_file obj) × (path_of (build o) ≢ path_of (build obj)))
        → IsCaughtUp C K R class A S objs u v
        → IsCaughtUp C K R class A S (obj ∷ objs) w v
  IsCaughtUp-cons obj objs w v live sent written apart later =
      let (stored, others, marked, kept) = served-new obj w live sent written in
      record {
        stored = λ o m. elim (Memᴰ.cases_cons m) [
          | inl here ↦
              rw here
                (later.other_files (path_of (build obj)) (λ p n e. (apart p n).1 (sym e)) ∙ stored)
          | inr there ↦ later.stored o there
        ];
        other_files = λ q h.
            later.other_files q (λ o m. h o (Memᴰ.tail m)) ∙ others q (h obj (Memᴰ.head refl));
        marked = λ o m. elim (Memᴰ.cases_cons m) [
          | inl here ↦ rw here (
              later.other_objects obj.meta.namespace obj.meta.name (λ p n e. (apart p n).0 (sym e))
              ∙ marked)
          | inr there ↦ later.marked o there
        ];
        other_objects = λ namespace name h.
            later.other_objects namespace name (λ o m. h o (Memᴰ.tail m))
            ∙ kept namespace name (h obj (Memᴰ.head refl));
      }

  -- The rest of the objects are as new as before.
  pub AllNew-tail :
      (obj : KongFile) (objs : List KongFile) (w : World (cached_proxy C K) R)
      → Holds C K R class obj w
      → (Service.update K (build obj) w.backend.server).0.1 ≡ none
      → (R.update_status (mark_validated obj) w.cluster).0.0 ≡ none
      → ((o : KongFile)
          → Memᴰ o objs
          → (key_of_file o ≢ key_of_file obj) × (path_of (build o) ≢ path_of (build obj)))
      → AllNew C K R class (obj ∷ objs) w
      → AllNew C K R class objs (accepted C K R obj w)
  AllNew-tail obj objs w live sent written apart new o m =
      let (stored, others, marked, kept) = served-new obj w live sent written in
      let (there, fresh) = new o (Memᴰ.tail m) in
      (
        record {
          got = kept o.meta.namespace o.meta.name (apart o m).0 ∙ there.got;
          kept = there.kept;
          ours = there.ours;
        },
        fresh,
      )

  pub Pass-IsCaughtUp :
      (objs : List KongFile) (w v : World (cached_proxy C K) R)
      → AllNew C K R class objs w
      → AllApart objs
      → Pass C K R class objs w v
      → IsCaughtUp C K R class A S objs w v
  Pass-IsCaughtUp [] w v new apart finished = record {
    stored = λ obj m. absurd (Memᴰ.not-nil m);
    other_files = λ q h. refl;
    marked = λ obj m. absurd (Memᴰ.not-nil m);
    other_objects = λ namespace name h. refl;
  }
  Pass-IsCaughtUp (obj ∷ objs) w v new (apart, rest) (request {v = u} now result served pass) =
      let (live, fresh) = new obj (Memᴰ.head refl) in
      let (sent, written, same) = served-accepted now obj result w u live fresh served in
      let moved : Pass C K R class objs (accepted C K R obj w) v =
        subst (λ (x : World (cached_proxy C K) R). Pass C K R class objs x v) same pass in
      IsCaughtUp-cons obj objs w v live sent written apart (
        Pass-IsCaughtUp objs (accepted C K R obj w) v
          (AllNew-tail obj objs w live sent written apart new) rest moved)

  -- Each of the objects is in the cluster, of the class, and validated.
  abbrev pub AllMarked : List KongFile → World (cached_proxy C K) R → Type 0
  AllMarked objs w =
      (obj : KongFile)
      → Memᴰ obj objs
      → IsLive C K R class obj.meta.namespace obj.meta.name (mark_validated obj) w

  Pass-idle :
      (objs : List KongFile) (w v : World (cached_proxy C K) R)
      → AllMarked objs w
      → Pass C K R class objs w v
      → (v.backend ≡ w.backend) × (v.cluster ≡ w.cluster)
  Pass-idle [] w v marked finished = (refl, refl)
  Pass-idle (obj ∷ objs) w v marked (request {v = u} now result served pass) =
      let live = marked obj (Memᴰ.head refl) in
      let skipped =
        validated-skipped C K R now class obj.meta.namespace obj.meta.name (mark_validated obj) w
          live refl in
      let same : u ≡ fetched C K R (mark_validated obj) w = ground (arith, skipped, served) in
      let moved : Pass C K R class objs (fetched C K R (mark_validated obj) w) v =
        subst (λ (x : World (cached_proxy C K) R). Pass C K R class objs x v) same pass in
      Pass-idle objs (fetched C K R (mark_validated obj) w) v
        (λ o m.
          let there = marked o (Memᴰ.tail m) in
          record { got = there.got; kept = there.kept; ours = there.ours })
        moved

  -- The controller catches up and then rests. The objects are new, no two of them share a name or a
  -- path, and a pass over them is served without an error. Then Kong has the built contents of each
  -- under its path, the cluster says of each that it is validated, and no other file and no other
  -- object has changed; and a second pass changes neither Kong, nor the cache, nor the cluster.
  pub passes-converge :
      (objs : List KongFile) (w u v : World (cached_proxy C K) R)
      → AllNew C K R class objs w
      → AllApart objs
      → Pass C K R class objs w u
      → Pass C K R class objs u v
      → IsCaughtUp C K R class A S objs w u × (v.backend ≡ u.backend) × (v.cluster ≡ u.cluster)
  passes-converge objs w u v new apart first second =
      let caught = Pass-IsCaughtUp objs w u new apart first in
      let marked : AllMarked objs u = λ obj m.
        let (live, fresh) = new obj m in
        record { got = caught.marked obj m; kept = live.kept; ours = live.ours } in
      let (backend, cluster) = Pass-idle objs u v marked second in (caught, backend, cluster)
