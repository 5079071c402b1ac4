-- ===== src/Reconciler/Effects.antt =====
-- What the operations of a proxy that keeps its contract do to the mirror.
use kong_portal_controller.Proxy.Interface.{Proxy}
use kong_portal_controller.Proxy.Contract.{IsTable, IsPublisher}
use kong_portal_controller.Base.{
  ◌≡◌, refl, ◌∙◌, inl, inr, Option, none, some, arith, Error, Option-cases, string_eq, nat_eq,
}
use kong_portal_controller.Api.{KongFile}
use kong_portal_controller.Store.{kong_file}
use kong_portal_controller.Store.Cache.{Memory, Ref, alloc, assign}
use kong_portal_controller.Reconciler.Invariant.{key_of_file, IsCoherent}
use kong_portal_controller.Reconciler.Mirror.{Mirror, Same, Published, Retracted}

abbrev pub entry : Memory → Option Ref → Option KongFile
entry mem none = none
entry mem (some r) = some (mem.cell r)

module _ (P : Proxy) (T : IsTable P) (F : IsPublisher P) where
  abbrev pub view : Memory → P.State → Mirror
  view mem b = record { published = λ k. entry mem (T.find b k); file = F.contents_at b }

  pub alloc-Same :
      (mem : Memory) (b : P.State) (obj : KongFile)
      → IsCoherent P T mem b
      → Same (view mem b) (view (alloc obj mem).1 b)
  alloc-Same mem b obj ih = record {
    table = λ k. elim (Option-cases (T.find b k)) [
      | inl absent ↦ ground arith
      | inr (r, present) ↦ ground (arith, ih k r present)
    ];
    files = λ q. refl;
  }

  pub deleted-Retracted :
      (mem : Memory) (b : P.State) (r : Ref)
      → let (failed, b') = P.delete_object mem (kong_file r) b in
        Retracted failed (mem.cell r) (view mem b) (view mem b')
  deleted-Retracted mem b r = record {
    gone = λ fine. F.delete-done mem r b fine;
    others = λ q apart. F.delete-others mem r b q apart;
    table = λ k. ground (arith, T.find-delete mem r b k);
  }

  pub updated-Published :
      (mem : Memory) (b : P.State) (r : Ref)
      → let (failed, b') = P.update_object mem (kong_file r) b in
        Published failed (mem.cell r) (mem.cell r) (view mem b) (view mem b')
  updated-Published mem b r = record {
    there = λ fine. F.update-done mem r b fine;
    others = λ q apart. F.update-others mem r b q apart;
    table = λ k. ground (arith, T.find-update mem r b k);
  }

  -- The answer of the API server is written into the new object, which is in the cache by then, and
  -- under its name alone.
  pub stored-Published :
      (mem : Memory) (b : P.State) (obj answer : KongFile)
      → IsCoherent P T mem b
      → key_of_file answer ≡ key_of_file obj
      → let mem' = (alloc obj mem).1 in
        let (failed, b') = P.update_object mem' (kong_file mem.next) b in
        failed ≡ none
        → Published none obj answer (view mem b) (view (assign mem.next answer mem') b')
  stored-Published mem b obj answer ih same fine = record {
    there = λ _. ground (arith, F.update-done (alloc obj mem).1 mem.next b fine);
    others = λ q apart. ground (arith, F.update-others (alloc obj mem).1 mem.next b q);
    table = λ k. elim (Option-cases (T.find b k)) [
      | inl absent ↦ ground (arith, T.find-update (alloc obj mem).1 mem.next b k)
      | inr (r, present) ↦
          ground (arith, ih k r present, T.find-update (alloc obj mem).1 mem.next b k)
    ];
  }

  pub exists-Same :
      (mem : Memory) (b : P.State) (r : Ref)
      → Same (view mem b) (view mem (P.object_exists mem (kong_file r) b).1)
  exists-Same mem b r = record {
    table = λ k. ground (arith, T.find-exists mem r b k);
    files = F.exists-others mem r b;
  }

pub Same-Retracted :
    {failed : Option Error} {obj : KongFile} {m m₁ m₂ : Mirror}
    → Same m m₁
    → Retracted failed obj m₁ m₂
    → Retracted failed obj m m₂
Same-Retracted s t = record {
  gone = t.gone;
  others = λ q apart. t.others q apart ∙ s.files q;
  table = λ k. ground (arith, t.table k, s.table k);
}

pub Same-Published :
    {failed : Option Error} {obj stored : KongFile} {m m₁ m₂ : Mirror}
    → Same m m₁
    → Published failed obj stored m₁ m₂
    → Published failed obj stored m m₂
Same-Published s t = record {
  there = t.there;
  others = λ q apart. t.others q apart ∙ s.files q;
  table = λ k. ground (arith, t.table k, s.table k);
}

pub Same-trans : {m m₁ m₂ : Mirror} → Same m m₁ → Same m₁ m₂ → Same m m₂
Same-trans s t = record { table = λ k. t.table k ∙ s.table k; files = λ q. t.files q ∙ s.files q }
