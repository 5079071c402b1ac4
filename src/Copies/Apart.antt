-- ===== src/Copies/Apart.antt =====
-- pkg/apis/v1/zz_generated.deepcopy.go: a copy of a list shares nothing with the original.
use kong_portal_controller.Base.{
  ℕ, ◌+◌, ◌<◌, ◌≤◌, ◌≡◌, refl, sym, ap, ◌∙◌, Option, none, some, List, [], ◌∷◌, arith, nat_eq,
}
use mathlib.Core.Path.{subst}
use kong_portal_controller.Store.Cache.{Ref}
use kong_portal_controller.Copies.{
  KongFileFields, zero_kong_file, MetaLib, KongFileList, Heap, alloc, put, deep_copy_into,
  make_items, copy_items, deep_copy_list,
}
use kong_portal_controller.Copies.Ranges.{
  read_meta, read_fields, read_file, read_files, read_list_meta, read_list, MetaIn, FileIn, AllIn,
  IsAllocated, ListIn, ItemsIn, KeepsNew, KeepsOld, read_list-SameIn, SameIn-trans, SameIn, Grown,
  IsMetaLib, read_file-SameIn, read_files-SameIn, number_at-SameIn, RefIn-wider, FileIn-SameIn,
  AllIn-SameIn,
}
use kong_portal_controller.Copies.Kept.{
  IsRun, Kept, FileIn-wider, SameIn-narrower, Kept-trans, Kept-lower, Kept-refl, alloc-Kept,
  put-here, put-read_meta, put-Grown-Kept,
}

module _ (L : MetaLib) where
  make_items-Kept :
      (is : List Ref) (h : Heap)
      → Kept h.next h (make_items L is h).1
        × IsRun h.next (make_items L is h).1.next is (make_items L is h).0
  unfolding make_items
  make_items-Kept [] h = (Kept-refl h.next h, omega arith)
  make_items-Kept (i ∷ is) h =
      let h₁ = (alloc zero_kong_file h).1 in
      let (kept, run) = make_items-Kept is h₁ in
      (
        Kept-trans (omega arith) (alloc-Kept h) (Kept-lower (omega arith) kept),
        (refl, omega (arith, kept.more), run),
      )

  -- The copy of one object into a new one.
  copied :
      (M : IsMetaLib L) (lo : ℕ) (i r : Ref) (h : Heap)
      → lo ≤ r
      → r < h.next
      → FileIn 0 lo lo h i
      → let k = deep_copy_into L i r h in
        (read_file k r ≡ read_file h i) × FileIn lo (r + 1) k.next k r × Kept r h k
  unfolding deep_copy_into
  copied M lo i r h above new (low, high, (a, d)) =
      let f = h.file i in
      let h₀ = put r f h in
      let (m, h₁) = L.copy_object_meta f.meta h₀ in
      let out : KongFileFields = record { meta = m; spec = f.spec; status = f.status } in
      let k = put r out h₁ in
      let grown = M.object_meta-kept f.meta h₀ in
      let (a', d') = M.object_meta-new f.meta h₀ in
      let below : lo ≤ h.next = omega arith in
      let there : MetaIn 0 h.next f.meta = (
        RefIn-wider f.meta.annotations (omega arith) below a,
        RefIn-wider f.meta.deletion_timestamp (omega arith) below d,
      ) in
      let same : read_meta k m ≡ read_meta h f.meta =
        put-read_meta r out h₁ m
        ∙ M.object_meta-same f.meta h₀ there
        ∙ put-read_meta r f h f.meta in
      (
        ap (read_fields k) (put-here r out h₁)
            ∙ ap (λ meta. record { meta = meta; spec = f.spec; status = f.status }) same,
        (
          above,
          omega arith,
          subst (λ (x : KongFileFields). MetaIn lo h₁.next x.meta) (sym (put-here r out h₁))
              (
                RefIn-wider m.annotations below (omega arith) a',
                RefIn-wider m.deletion_timestamp below (omega arith) d',
              ),
        ),
        put-Grown-Kept r f out h h₁ new grown,
      )

  -- The copies of objects that lie before `lo`, into new objects from `n` on.
  copy_items-copied :
      (M : IsMetaLib L) (lo n top : ℕ) (is outs : List Ref) (h : Heap)
      → lo ≤ n
      → top ≤ h.next
      → IsRun n top is outs
      → AllIn 0 lo lo h is
      → let k = copy_items L is outs h in
        (read_files k outs ≡ read_files h is) × AllIn lo k.next k.next k outs × Kept n h k
  unfolding copy_items
  copy_items-copied M lo n top [] [] h above used run there = (refl, tt, Kept-refl n h)
  copy_items-copied M lo n top [] (r ∷ rs) h above used run there = absurd run
  copy_items-copied M lo n top (i ∷ is) [] h above used run there = absurd run
  copy_items-copied M lo n top (i ∷ is) (r ∷ rs) h above used (here, low, run) (first, rest) =
      let h₁ = deep_copy_into L i r h in
      let (read₁, in₁, kept₁) =
        copied M lo i r h (omega (arith, here)) (omega (arith, here)) first in
      let old : SameIn 0 lo lo h h₁ =
        SameIn-narrower (omega arith) (omega (arith, here)) (omega arith) kept₁.kept in
      let (read₂, in₂, kept₂) =
        copy_items-copied M lo (n + 1) top is rs h₁ (omega arith) (omega (arith, kept₁.more)) run
          (AllIn-SameIn is old rest) in
      let k = copy_items L is rs h₁ in
      let same : SameIn lo (r + 1) h₁.next h₁ k =
        SameIn-narrower (omega arith) (omega (arith, here)) (omega arith) kept₂.kept in
      let here₁ = read_file-SameIn r same in₁ ∙ read₁ in
      let rest₁ = read_files-SameIn is old rest in
      (
        ground (arith, here₁, read₂, rest₁),
        (
          FileIn-wider k r (omega arith) (omega (arith, kept₁.more, kept₂.more, here)) kept₂.more
              (FileIn-SameIn r same in₁),
          in₂,
        ),
        Kept-trans (omega arith) (Kept-lower (omega (arith, here)) kept₁)
            (Kept-lower (omega arith) kept₂),
      )

  -- The copy of a list reads as the list, and lies in what the copying has allocated.
  list_copied :
      (M : IsMetaLib L) (l : KongFileList) (h : Heap)
      → IsAllocated h l
      → let (l', k) = deep_copy_list L l h in
        (read_list k l' ≡ read_list h l) × ListIn h.next k.next k l' × Grown h k
  unfolding deep_copy_list
  list_copied M l h (there, all) = by_items l.items all
    where
      by_items :
          (items : Option (List Ref))
          → ItemsIn 0 h.next h items
          → let (l', k) = deep_copy_list L (record { meta = l.meta; items = items }) h in
            (read_list k l' ≡ read_list h (record { meta = l.meta; items = items }))
            × ListIn h.next k.next k l'
            × Grown h k
      by_items none all = (
        ap (λ m. (m, none)) (M.list_meta-same l.meta h there),
        (M.list_meta-new l.meta h, tt),
        M.list_meta-kept l.meta h,
      )
      by_items (some items) all =
          let (meta, h₁) = L.copy_list_meta l.meta h in
          let grown = M.list_meta-kept l.meta h in
          let (made, run) = make_items-Kept items h₁ in
          let (outs, h₂) = make_items L items h₁ in
          let k = copy_items L items outs h₂ in
          let old : SameIn 0 h.next h.next h h₂ =
            SameIn-trans grown.kept
              (SameIn-narrower (omega arith) grown.more grown.more made.kept) in
          let (read, new, kept) =
            copy_items-copied M h.next h₁.next h₂.next items outs h₂ grown.more (omega arith) run
              (AllIn-SameIn items old all) in
          let later : SameIn h.next h₁.next h₁.next h₁ k =
            SameIn-trans (SameIn-narrower (omega arith) (omega arith) (omega arith) made.kept)
              (SameIn-narrower (omega arith) (omega arith) made.more kept.kept) in
          let count : read_list_meta k meta ≡ read_list_meta h₁ meta =
            ap (λ n. (meta.continue, n))
              (number_at-SameIn meta.remaining_item_count later (M.list_meta-new l.meta h)) in
          (
            ground (
              arith,
              count,
              M.list_meta-same l.meta h there,
              read,
              read_files-SameIn items old all,
            ),
            (
              RefIn-wider meta.remaining_item_count (omega arith)
                  (omega (arith, made.more, kept.more)) (M.list_meta-new l.meta h),
              new,
            ),
            record {
              more = omega (arith, grown.more, made.more, kept.more);
              kept = SameIn-trans old (
                  SameIn-narrower (omega arith) grown.more (omega (arith, grown.more, made.more))
                    kept.kept);
            },
          )

  -- The copy of a list all of which was allocated reads as the list, in metadata and objects: the names,
  -- annotations, deletion timestamps, specifications and statuses, in the same order. It goes on to do so
  -- whatever is changed of all that was there before the copying, the maps of annotations and what
  -- pointers point at included; and whatever is changed of what the copying has allocated, the original
  -- list reads as before.
  pub deep_copy_list-apart :
      (M : IsMetaLib L) (l : KongFileList) (h later later' : Heap)
      → IsAllocated h l
      → KeepsNew h (deep_copy_list L l h).1 later
      → KeepsOld h (deep_copy_list L l h).1 later'
      → (read_list later (deep_copy_list L l h).0 ≡ read_list h l)
        × (read_list later' l ≡ read_list h l)
  deep_copy_list-apart M l h later later' there new old =
      let (read, inside, grown) = list_copied M l h there in
      (
        read_list-SameIn (deep_copy_list L l h).0 new inside ∙ read,
        read_list-SameIn l (SameIn-trans grown.kept old) there,
      )
