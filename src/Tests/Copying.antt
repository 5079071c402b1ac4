-- ===== src/Tests/Copying.antt =====
-- The theorem on the deep copies at a concrete list, whose elements share one map of annotations.
use kong_portal_controller.Base.{
  ℕ, ◌≤◌, ◌≡◌, refl, ap, ◌∙◌, none, some, Option, [], ◌∷◌, arith, nat_eq, ltb, if◌then◌else◌,
}
use kong_portal_controller.Store.Cache.{Ref}
use kong_portal_controller.Copies.{
  MetaLib, KongFileList, MetaFields, KongFileFields, Heap, alloc_map, alloc_number, deep_copy_list,
  zero_kong_file,
}
use kong_portal_controller.Copies.Ranges.{
  IsMetaLib, map_at, number_at, RefIn, MetaIn, SameIn-trans, Grown, read_list, read_meta,
  RefIn-wider, map_at-SameIn, number_at-SameIn,
}
use kong_portal_controller.Copies.Apart.{deep_copy_list-apart}
use kong_portal_controller.Fixtures.Scenes.{page}

-- A copy of a map and of what a pointer points at: nil gives nil.
abbrev copy_map : Option Ref → Heap → Option Ref × Heap
copy_map none h = (none, h)
copy_map (some r) h = let (r', h') = alloc_map (h.map r) h in (some r', h')

abbrev copy_number : Option Ref → Heap → Option Ref × Heap
copy_number none h = (none, h)
copy_number (some r) h = let (r', h') = alloc_number (h.number r) h in (some r', h')

abbrev metas : MetaLib
metas = record {
  copy_object_meta = λ m h.
      let (a, h₁) = copy_map m.annotations h in
      let (d, h₂) = copy_number m.deletion_timestamp h₁ in
      (record m { annotations = a; deletion_timestamp = d }, h₂);
  copy_list_meta = λ m h.
      let (c, h₁) = copy_number m.remaining_item_count h in
      (record m { remaining_item_count = c }, h₁);
}

Grown-refl : (h : Heap) → Grown h h
Grown-refl h = record {
  more = omega arith;
  kept = record {
    file = λ q low high. refl;
    map = λ q low high. refl;
    number = λ q low high. refl;
  };
}

copy_map-Grown : (r : Option Ref) (h : Heap) → Grown h (copy_map r h).1
copy_map-Grown none h = Grown-refl h
copy_map-Grown (some r) h = record {
  more = omega arith;
  kept = record {
    file = λ q low high. refl;
    map = λ q low high. ground arith;
    number = λ q low high. refl;
  };
}

copy_number-Grown : (r : Option Ref) (h : Heap) → Grown h (copy_number r h).1
copy_number-Grown none h = Grown-refl h
copy_number-Grown (some r) h = record {
  more = omega arith;
  kept = record {
    file = λ q low high. refl;
    map = λ q low high. refl;
    number = λ q low high. ground arith;
  };
}

Grown-trans : (h k l : Heap) → Grown h k → Grown k l → Grown h l
Grown-trans h k l a b = record {
  more = omega (arith, a.more, b.more);
  kept = SameIn-trans a.kept (record {
    file = λ q low high. b.kept.file q low (omega (arith, a.more));
    map = λ q low high. b.kept.map q low (omega (arith, a.more));
    number = λ q low high. b.kept.number q low (omega (arith, a.more));
  });
}

copy_map-new : (r : Option Ref) (h : Heap) → RefIn h.next (copy_map r h).1.next (copy_map r h).0
copy_map-new none h = tt
copy_map-new (some r) h = (omega arith, omega arith)

copy_number-new :
    (r : Option Ref) (h : Heap) → RefIn h.next (copy_number r h).1.next (copy_number r h).0
copy_number-new none h = tt
copy_number-new (some r) h = (omega arith, omega arith)

copy_map-same : (r : Option Ref) (h : Heap) → map_at (copy_map r h).1 (copy_map r h).0 ≡ map_at h r
copy_map-same none h = refl
copy_map-same (some r) h = ground arith

copy_number-same :
    (r : Option Ref) (h : Heap) → number_at (copy_number r h).1 (copy_number r h).0 ≡ number_at h r
copy_number-same none h = refl
copy_number-same (some r) h = ground arith

metas-same :
    (m : MetaFields) (h : Heap)
    → MetaIn 0 h.next m
    → read_meta (metas.copy_object_meta m h).1 (metas.copy_object_meta m h).0 ≡ read_meta h m
metas-same m h (a, d) =
    let (a', h₁) = copy_map m.annotations h in
    let counted = copy_number-Grown m.deletion_timestamp h₁ in
    let mapped = copy_map-Grown m.annotations h in
    let new : RefIn 0 h₁.next a' =
      RefIn-wider a' (omega arith) (omega arith) (copy_map-new m.annotations h) in
    ground (
      arith,
      map_at-SameIn a' counted.kept new ∙ copy_map-same m.annotations h,
      copy_number-same m.deletion_timestamp h₁
          ∙ number_at-SameIn m.deletion_timestamp mapped.kept d,
    )

metas-new :
    (m : MetaFields) (h : Heap)
    → MetaIn h.next (metas.copy_object_meta m h).1.next (metas.copy_object_meta m h).0
metas-new m h =
    let (a', h₁) = copy_map m.annotations h in
    let counted = copy_number-Grown m.deletion_timestamp h₁ in
    let mapped = copy_map-Grown m.annotations h in
    (
      RefIn-wider a' (omega arith) counted.more (copy_map-new m.annotations h),
      RefIn-wider (copy_number m.deletion_timestamp h₁).0 mapped.more (omega arith)
          (copy_number-new m.deletion_timestamp h₁),
    )

metas-IsMetaLib : IsMetaLib metas
metas-IsMetaLib = record {
  object_meta-same = metas-same;
  object_meta-new = metas-new;
  object_meta-kept = λ m h.
      let h₁ = (copy_map m.annotations h).1 in
      Grown-trans h h₁ (copy_number m.deletion_timestamp h₁).1 (copy_map-Grown m.annotations h)
        (copy_number-Grown m.deletion_timestamp h₁);
  list_meta-same = λ m h i. ap (λ n. (m.continue, n)) (copy_number-same m.remaining_item_count h);
  list_meta-new = λ m h. copy_number-new m.remaining_item_count h;
  list_meta-kept = λ m h. copy_number-Grown m.remaining_item_count h;
}

-- At 0 a map of annotations, at 1 the instant of a deletion, at 2 and 3 two pages that share the two.
abbrev shared_meta : MetaFields
shared_meta = record {
  namespace = "team";
  name = "guide";
  annotations = some 0;
  deletion_timestamp = some 1;
}

abbrev shared_page : KongFileFields
shared_page = record { meta = shared_meta; spec = page.spec; status = page.status }

abbrev heap : Heap
heap = record {
  next = 4;
  file = λ r. shared_page;
  map = λ r. ("kubernetes.io/ingress.class", "kong") ∷ [];
  number = λ r. 7;
}

abbrev both : KongFileList
both = record {
  meta = record { continue = ""; remaining_item_count = none };
  items = some (3 ∷ 2 ∷ []);
}

abbrev copy : KongFileList × Heap
copy = deep_copy_list metas both heap

-- Everything before the copying is overwritten: the objects, the map and the instant.
abbrev overwritten : Heap
overwritten = record (copy.1) {
  file = λ r. if ltb r 4 then zero_kong_file else copy.1.file r;
  map = λ r. if ltb r 4 then [] else copy.1.map r;
  number = λ r. if ltb r 4 then 0 else copy.1.number r;
}

overwritten-new : {A : Type 0} (q : ℕ) (a b : A) → 4 ≤ q → (if ltb q 4 then a else b) ≡ b
overwritten-new q a b low = ground arith

deep_copy_list-apart_example :
    (read_list overwritten copy.0 ≡ read_list heap both)
    × (read_list copy.1 both ≡ read_list heap both)
deep_copy_list-apart_example =
    deep_copy_list-apart metas metas-IsMetaLib both heap overwritten copy.1
      (
        tt,
        (
          (omega arith, omega arith, ((omega arith, omega arith), (omega arith, omega arith))),
          (
            (omega arith, omega arith, ((omega arith, omega arith), (omega arith, omega arith))),
            tt,
          ),
        ),
      )
      (record {
        file = λ q low high. overwritten-new q zero_kong_file (copy.1.file q) low;
        map = λ q low high. overwritten-new q [] (copy.1.map q) low;
        number = λ q low high. overwritten-new q 0 (copy.1.number q) low;
      })
      (record { file = λ q low high. refl; map = λ q low high. refl; number = λ q low high. refl })
