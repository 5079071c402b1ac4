-- ===== src/Store/Cache.antt =====
-- What the store uses of k8s.io/client-go/tools/cache, and the memory that holds the objects.
use kong_portal_controller.Base.{
  ℕ, ◌+◌, String, ◌≡◌, Bool, true, false, Option, none, some, List, Error, Result, ok, ◌==◌,
  string_eq, nat_eq, if◌then◌else◌,
}
use kong_portal_controller.Api.{KongFile}

-- A pointer to a KongFile. The cache keeps pointers, and the reconciler writes through one.
abbrev pub Ref : Type 0
Ref = ℕ

-- The Go heap, as far as it holds KongFiles: `next` is the first address that is not in use.
pub record Memory : Type 0 where
  pub next : Ref
  pub cell : Ref → KongFile

-- `new` with its first contents.
abbrev pub alloc : KongFile → Memory → Ref × Memory
alloc obj mem = (
  mem.next,
  record { next = mem.next + 1; cell = λ r. if r == mem.next then obj else mem.cell r },
)

-- `*r = obj`
abbrev pub assign : Ref → KongFile → Memory → Memory
assign r obj mem = record mem { cell = λ q. if q == r then obj else mem.cell q }

-- `(item interface{}, exists bool, err error)`
pub record Lookup : Type 0 where
  pub item : Option Ref
  pub exists : Bool
  pub error : Option Error

abbrev pub KeyFunc : Type 0
KeyFunc = Ref → Result String

-- `cache.Store`. `cache.NewStore(keyFunc)` keeps the key function, which is an argument here.
pub record CacheLib : Type 1 where
  pub Indexer : Type 0
  pub new_store : Indexer
  pub add : KeyFunc → Ref → Indexer → Option Error × Indexer
  pub update : KeyFunc → Ref → Indexer → Option Error × Indexer
  pub delete : KeyFunc → Ref → Indexer → Option Error × Indexer
  pub get : KeyFunc → Ref → Indexer → Lookup
  pub get_by_key : String → Indexer → Lookup
  pub list_all : Indexer → Result (List Ref)

abbrev pub found : Option Ref → Lookup
found none = record { item = none; exists = false; error = none }
found (some r) = record { item = some r; exists = true; error = none }

-- The store is a map from keys to items, where the key function gives a key.
pub record IsCache (C : CacheLib) : Type 0 where
  pub find : C.Indexer → String → Option Ref
  pub find-new : (k : String) → find C.new_store k ≡ none
  pub get_by_key-find : (k : String) (s : C.Indexer) → C.get_by_key k s ≡ found (find s k)
  pub get-find :
      (key : KeyFunc) (r : Ref) (s : C.Indexer) (k : String)
      → key r ≡ ok k
      → C.get key r s ≡ found (find s k)
  pub find-add :
      (key : KeyFunc) (r : Ref) (s : C.Indexer) (k j : String)
      → key r ≡ ok k
      → find (C.add key r s).1 j ≡ (if j == k then some r else find s j)
  pub find-update :
      (key : KeyFunc) (r : Ref) (s : C.Indexer) (k j : String)
      → key r ≡ ok k
      → find (C.update key r s).1 j ≡ (if j == k then some r else find s j)
  pub find-delete :
      (key : KeyFunc) (r : Ref) (s : C.Indexer) (k j : String)
      → key r ≡ ok k
      → find (C.delete key r s).1 j ≡ (if j == k then none else find s j)
