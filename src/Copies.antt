-- ===== src/Copies.antt =====
-- pkg/apis/v1/zz_generated.deepcopy.go: the deep copies of the custom resource and of its list, on a
-- heap of their own, in which the map of the annotations and what the pointers of the metadata point at
-- have addresses too.
pub mod Ranges
pub mod Kept
pub mod Apart
use kong_portal_controller.Base.{
  ℕ, ◌+◌, String, ◌≡◌, true, false, Option, none, some, List, [], ◌∷◌, nat_eq, if◌then◌else◌, ◌==◌,
}
use kong_portal_controller.Api.{KongFile, KongFileSpec, KongFileStatus, ObjectMeta}
use kong_portal_controller.Store.{Object, kong_file}
use kong_portal_controller.Store.Cache.{Ref}

-- `metav1.ObjectMeta` as it lies in memory: the annotations are a map, which is a reference or nil, and
-- the deletion timestamp is a pointer.
pub record MetaFields : Type 0 where
  pub namespace : String
  pub name : String
  pub annotations : Option Ref
  pub deletion_timestamp : Option Ref

-- `metav1.ListMeta`: the count of the remaining items is a pointer.
pub record ListMeta : Type 0 where
  pub continue : String
  pub remaining_item_count : Option Ref

-- A KongFile as it lies in memory.
pub record KongFileFields : Type 0 where
  pub meta : MetaFields
  pub spec : KongFileSpec
  pub status : KongFileStatus

-- `KongFileList`. A slice that is not nil is the list of the addresses of its elements.
pub record KongFileList : Type 0 where
  pub meta : ListMeta
  pub items : Option (List Ref)

-- The KongFiles, the maps of annotations, and the instants and counts that pointers point at, by their
-- addresses. `next` is the first address that is not in use.
pub record Heap : Type 0 where
  pub next : Ref
  pub file : Ref → KongFileFields
  pub map : Ref → List (String × String)
  pub number : Ref → ℕ

-- `new` and `make` with the first contents of a KongFile.
abbrev pub alloc : KongFileFields → Heap → Ref × Heap
alloc f h =
    (h.next, record h { next = h.next + 1; file = λ r. if r == h.next then f else h.file r })

-- `*out = f`
abbrev pub put : Ref → KongFileFields → Heap → Heap
put out f h = record h { file = λ r. if r == out then f else h.file r }

abbrev pub alloc_map : List (String × String) → Heap → Ref × Heap
alloc_map m h =
    (h.next, record h { next = h.next + 1; map = λ r. if r == h.next then m else h.map r })

abbrev pub alloc_number : ℕ → Heap → Ref × Heap
alloc_number n h =
    (h.next, record h { next = h.next + 1; number = λ r. if r == h.next then n else h.number r })

-- The deep copies of k8s.io/apimachinery: the copy of the metadata, and the heap with what it has
-- allocated.
pub record MetaLib : Type 0 where
  pub copy_object_meta : MetaFields → Heap → MetaFields × Heap
  pub copy_list_meta : ListMeta → Heap → ListMeta × Heap

-- The zero value of the struct.
abbrev pub zero_kong_file : KongFileFields
zero_kong_file = record {
  meta = record { namespace = ""; name = ""; annotations = none; deletion_timestamp = none };
  spec = record { layout = ""; path = ""; title = ""; name = ""; content = ""; kind = "" };
  status = record { validated = false };
}

abbrev pub copy_spec : KongFileSpec → KongFileSpec
copy_spec spec = spec

abbrev pub copy_status : KongFileStatus → KongFileStatus
copy_status status = status

-- The copies by pointer: nil gives nil. A new specification or status is its value.
abbrev pub deep_copy_spec : Option KongFileSpec → Option KongFileSpec
deep_copy_spec none = none
deep_copy_spec (some spec) = some (copy_spec spec)

abbrev pub deep_copy_status : Option KongFileStatus → Option KongFileStatus
deep_copy_status none = none
deep_copy_status (some status) = some (copy_status status)

module _ (L : MetaLib) where
  -- The fields are copied first, the references of the metadata among them; then the metadata is copied
  -- into the new object.
  unfoldable pub deep_copy_into : Ref → Ref → Heap → Heap
  deep_copy_into in_ out h =
      let f = h.file in_ in
      let (meta, h₁) = L.copy_object_meta f.meta (put out f h) in
      put out (record { meta = meta; spec = copy_spec f.spec; status = copy_status f.status }) h₁

  -- A pointer that is nil gives nil.
  unfoldable pub deep_copy : Option Ref → Heap → Option Ref × Heap
  deep_copy none h = (none, h)
  deep_copy (some r) h =
      let (out, h') = alloc zero_kong_file h in (some out, deep_copy_into r out h')

  -- The interface `runtime.Object` is nil for a pointer that is nil.
  unfoldable pub deep_copy_object : Option Ref → Heap → Option Object × Heap
  unfolding deep_copy
  deep_copy_object in_ h =
      let (copied, h') = deep_copy in_ h in
      elim copied [ none ↦ (none, h') | some c ↦ (some (kong_file c), h') ]

  -- `make([]KongFile, len(*in))`
  unfoldable pub make_items : List Ref → Heap → List Ref × Heap
  make_items [] h = ([], h)
  make_items (i ∷ is) h =
      let (out, h₁) = alloc zero_kong_file h in
      let (outs, h₂) = make_items is h₁ in (out ∷ outs, h₂)

  -- The loop over the elements.
  unfoldable pub copy_items : List Ref → List Ref → Heap → Heap
  copy_items [] outs h = h
  copy_items (i ∷ is) [] h = h
  copy_items (i ∷ is) (out ∷ outs) h = copy_items is outs (deep_copy_into i out h)

  unfoldable pub deep_copy_list : KongFileList → Heap → KongFileList × Heap
  deep_copy_list l h =
      let (meta, h₁) = L.copy_list_meta l.meta h in
      elim l.items [
        | none ↦ (record { meta = meta; items = none }, h₁)
        | some items ↦
            let (outs, h₂) = make_items items h₁ in
            (record { meta = meta; items = some outs }, copy_items items outs h₂)
      ]

  -- `KongFileList.DeepCopy`. A pointer to a list is the list, or nil.
  unfoldable pub deep_copy_list_pointer : Option KongFileList → Heap → Option KongFileList × Heap
  unfolding deep_copy_list
  deep_copy_list_pointer none h = (none, h)
  deep_copy_list_pointer (some l) h = let (l', h') = deep_copy_list l h in (some l', h')
