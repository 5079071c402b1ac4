-- ===== src/Copies/Ranges.antt =====
-- What a heap holds at an address, between which addresses it lies, and what the copies of metadata
-- are relied on for.
use kong_portal_controller.Base.{
  ℕ, String, ◌<◌, ◌≤◌, ◌≡◌, refl, sym, ap, ◌∙◌, Option, none, some, List, [], ◌∷◌, arith, nat_eq,
}
use mathlib.Core.Path.{subst}
use kong_portal_controller.Api.{KongFile, ObjectMeta}
use kong_portal_controller.Store.Cache.{Ref}
use kong_portal_controller.Copies.{
  MetaFields, KongFileFields, ListMeta, KongFileList, Heap, MetaLib,
}

-- What a map and a pointer hold. A nil map is empty.
abbrev pub map_at : Heap → Option Ref → List (String × String)
map_at h none = []
map_at h (some r) = h.map r

abbrev pub number_at : Heap → Option Ref → Option ℕ
number_at h none = none
number_at h (some r) = some (h.number r)

abbrev pub read_meta : Heap → MetaFields → ObjectMeta
read_meta h m = record {
  namespace = m.namespace;
  name = m.name;
  annotations = map_at h m.annotations;
  deletion_timestamp = number_at h m.deletion_timestamp;
}

abbrev pub read_fields : Heap → KongFileFields → KongFile
read_fields h f = record { meta = read_meta h f.meta; spec = f.spec; status = f.status }

abbrev pub read_file : Heap → Ref → KongFile
read_file h r = read_fields h (h.file r)

abbrev pub read_files : Heap → List Ref → List KongFile
read_files h [] = []
read_files h (r ∷ rs) = read_file h r ∷ read_files h rs

abbrev pub read_list_meta : Heap → ListMeta → String × Option ℕ
read_list_meta h m = (m.continue, number_at h m.remaining_item_count)

-- The elements of a slice, which may be nil.
abbrev pub read_items : Heap → Option (List Ref) → Option (List KongFile)
read_items h none = none
read_items h (some rs) = some (read_files h rs)

-- All that a list holds.
abbrev pub read_list : Heap → KongFileList → (String × Option ℕ) × Option (List KongFile)
read_list h l = (read_list_meta h l.meta, read_items h l.items)

-- The reference is nil or one of the addresses from `lo` to before `hi`.
abbrev pub RefIn : ℕ → ℕ → Option Ref → Type 0
RefIn lo hi none = Unit
RefIn lo hi (some r) = (lo ≤ r) × (r < hi)

abbrev pub MetaIn : ℕ → ℕ → MetaFields → Type 0
MetaIn lo hi m = RefIn lo hi m.annotations × RefIn lo hi m.deletion_timestamp

-- The object lies between `lo` and `n`, and what its metadata refers to between `lo` and `hi`.
abbrev pub FileIn : ℕ → ℕ → ℕ → Heap → Ref → Type 0
FileIn lo n hi h r = (lo ≤ r) × (r < n) × MetaIn lo hi (h.file r).meta

abbrev pub AllIn : ℕ → ℕ → ℕ → Heap → List Ref → Type 0
AllIn lo n hi h [] = Unit
AllIn lo n hi h (r ∷ rs) = FileIn lo n hi h r × AllIn lo n hi h rs

abbrev pub ItemsIn : ℕ → ℕ → Heap → Option (List Ref) → Type 0
ItemsIn lo hi h none = Unit
ItemsIn lo hi h (some rs) = AllIn lo hi hi h rs

-- All that the list refers to lies between `lo` and `hi`.
abbrev pub ListIn : ℕ → ℕ → Heap → KongFileList → Type 0
ListIn lo hi h l = RefIn lo hi l.meta.remaining_item_count × ItemsIn lo hi h l.items

-- All that the list refers to was allocated.
abbrev pub IsAllocated : Heap → KongFileList → Type 0
IsAllocated h l = ListIn 0 h.next h l

-- The heaps have the same objects from `lo` to before `n`, and the same maps and numbers from `lo` to
-- before `hi`.
pub record SameIn (lo n hi : ℕ) (h k : Heap) : Type 0 where
  pub file : (q : Ref) → lo ≤ q → q < n → k.file q ≡ h.file q
  pub map : (q : Ref) → lo ≤ q → q < hi → k.map q ≡ h.map q
  pub number : (q : Ref) → lo ≤ q → q < hi → k.number q ≡ h.number q

-- The second heap has allocated, and has changed nothing that the first one has.
pub record Grown (h k : Heap) : Type 0 where
  pub more : h.next ≤ k.next
  pub kept : SameIn 0 h.next h.next h k

-- What `k` has allocated beyond `h` is the same in `later`; the rest of `later` is arbitrary.
abbrev pub KeepsNew : Heap → Heap → Heap → Type 0
KeepsNew h k later = SameIn h.next k.next k.next k later

-- What `h` had allocated is in `later` as it is in `k`; the rest of `later` is arbitrary.
abbrev pub KeepsOld : Heap → Heap → Heap → Type 0
KeepsOld h k later = SameIn 0 h.next h.next k later

-- A deep copy of metadata reads as the original, where all that this refers to was allocated; what the
-- copy refers to is new; and the copying changes nothing that was there.
pub record IsMetaLib (L : MetaLib) : Type 0 where
  pub object_meta-same :
      (m : MetaFields) (h : Heap)
      → MetaIn 0 h.next m
      → read_meta (L.copy_object_meta m h).1 (L.copy_object_meta m h).0 ≡ read_meta h m
  pub object_meta-new :
      (m : MetaFields) (h : Heap)
      → MetaIn h.next (L.copy_object_meta m h).1.next (L.copy_object_meta m h).0
  pub object_meta-kept : (m : MetaFields) (h : Heap) → Grown h (L.copy_object_meta m h).1
  pub list_meta-same :
      (m : ListMeta) (h : Heap)
      → RefIn 0 h.next m.remaining_item_count
      → read_list_meta (L.copy_list_meta m h).1 (L.copy_list_meta m h).0 ≡ read_list_meta h m
  pub list_meta-new :
      (m : ListMeta) (h : Heap)
      → RefIn h.next (L.copy_list_meta m h).1.next (L.copy_list_meta m h).0.remaining_item_count
  pub list_meta-kept : (m : ListMeta) (h : Heap) → Grown h (L.copy_list_meta m h).1

-- Heaps that are the same in a range read the same there.
pub map_at-SameIn :
    {lo n hi : ℕ} {h k : Heap} (r : Option Ref)
    → SameIn lo n hi h k
    → RefIn lo hi r
    → map_at k r ≡ map_at h r
map_at-SameIn none s i = refl
map_at-SameIn (some r) s (low, high) = s.map r low high

pub number_at-SameIn :
    {lo n hi : ℕ} {h k : Heap} (r : Option Ref)
    → SameIn lo n hi h k
    → RefIn lo hi r
    → number_at k r ≡ number_at h r
number_at-SameIn none s i = refl
number_at-SameIn (some r) s (low, high) = ground (arith, s.number r low high)

pub read_meta-SameIn :
    {lo n hi : ℕ} {h k : Heap} (m : MetaFields)
    → SameIn lo n hi h k
    → MetaIn lo hi m
    → read_meta k m ≡ read_meta h m
read_meta-SameIn m s (a, d) =
    ground (arith, map_at-SameIn m.annotations s a, number_at-SameIn m.deletion_timestamp s d)

pub read_file-SameIn :
    {lo n hi : ℕ} {h k : Heap} (r : Ref)
    → SameIn lo n hi h k
    → FileIn lo n hi h r
    → read_file k r ≡ read_file h r
read_file-SameIn {lo} {n} {hi} {h} {k} r s (low, high, m) =
    let f = h.file r in
    ap (read_fields k) (s.file r low high)
    ∙ ap (λ meta. record { meta = meta; spec = f.spec; status = f.status })
        (read_meta-SameIn f.meta s m)

pub read_files-SameIn :
    {lo n hi : ℕ} {h k : Heap} (rs : List Ref)
    → SameIn lo n hi h k
    → AllIn lo n hi h rs
    → read_files k rs ≡ read_files h rs
read_files-SameIn [] s i = refl
read_files-SameIn (r ∷ rs) s (i, is) =
    ground (arith, read_file-SameIn r s i, read_files-SameIn rs s is)

-- A reference in a range is in every wider one.
pub RefIn-wider :
    {lo hi lo' hi' : ℕ} (r : Option Ref) → lo' ≤ lo → hi ≤ hi' → RefIn lo hi r → RefIn lo' hi' r
RefIn-wider none a b i = tt
RefIn-wider (some r) a b (low, high) = (omega arith, omega arith)

pub FileIn-SameIn :
    {lo n hi : ℕ} {h k : Heap} (r : Ref)
    → SameIn lo n hi h k
    → FileIn lo n hi h r
    → FileIn lo n hi k r
FileIn-SameIn {lo} {n} {hi} r s (low, high, m) =
    (low, high, subst (λ f. MetaIn lo hi f.meta) (sym (s.file r low high)) m)

pub AllIn-SameIn :
    {lo n hi : ℕ} {h k : Heap} (rs : List Ref)
    → SameIn lo n hi h k
    → AllIn lo n hi h rs
    → AllIn lo n hi k rs
AllIn-SameIn [] s i = tt
AllIn-SameIn (r ∷ rs) s (i, is) = (FileIn-SameIn r s i, AllIn-SameIn rs s is)

read_items-SameIn :
    {lo hi : ℕ} {h k : Heap} (items : Option (List Ref))
    → SameIn lo hi hi h k
    → ItemsIn lo hi h items
    → read_items k items ≡ read_items h items
read_items-SameIn none s i = refl
read_items-SameIn (some rs) s i = ap some (read_files-SameIn rs s i)

pub read_list-SameIn :
    {lo hi : ℕ} {h k : Heap} (l : KongFileList)
    → SameIn lo hi hi h k
    → ListIn lo hi h l
    → read_list k l ≡ read_list h l
read_list-SameIn l s (m, i) =
    ground (arith, number_at-SameIn l.meta.remaining_item_count s m, read_items-SameIn l.items s i)

pub SameIn-trans :
    {lo n hi : ℕ} {h k l : Heap} → SameIn lo n hi h k → SameIn lo n hi k l → SameIn lo n hi h l
SameIn-trans a b = record {
  file = λ q low high. b.file q low high ∙ a.file q low high;
  map = λ q low high. b.map q low high ∙ a.map q low high;
  number = λ q low high. b.number q low high ∙ a.number q low high;
}
