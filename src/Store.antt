-- ===== src/Store.antt =====
-- internal/store/store.go: the cache of KongFiles. The read and write locks of `CacheStores` are
-- taken and released by `defer` around each call, so in a sequence of calls they change nothing.
pub mod Cache
pub mod Lister
pub mod Laws
use kong_portal_controller.Base.{
  ◌<◌, String, ◌<>◌, false, not, Option, none, some, List, Error, message, ok, err, string_eq,
  nat_eq,
}
use kong_portal_controller.Api.{KongFile}
use kong_portal_controller.Store.Cache.{CacheLib, Memory, Ref, KeyFunc, Lookup}

-- A `client.Object`: a KongFile, or an object of another type, with what `%T` and `%q` print for it.
pub data Object : Type 0 where
  kong_file : Ref → Object
  foreign : (type_name kind : String) → Object

-- Key of an object in the cache.
abbrev pub key_of : String → String → String
key_of namespace name = namespace <> ("/" <> name)

unfoldable pub key_func : Memory → KeyFunc
key_func mem r = let meta = (mem.cell r).meta in ok (key_of meta.namespace meta.name)

module _ (C : CacheLib) (mem : Memory) where
  unfoldable pub get : Object → C.Indexer → Lookup
  unfolding key_func
  get (kong_file r) s = C.get (key_func mem) r s
  get (foreign type_name kind) s = record {
    item = none;
    exists = false;
    error = some (message (type_name <> " is not a supported cache object type"));
  }

  unfoldable pub add : Object → C.Indexer → Option Error × C.Indexer
  unfolding key_func
  add (kong_file r) s = C.add (key_func mem) r s
  add (foreign type_name kind) s =
      (some (message ("cannot add unsupported kind " <> (kind <> " to the store"))), s)

  unfoldable pub update : Object → C.Indexer → Option Error × C.Indexer
  unfolding key_func
  update (kong_file r) s = C.update (key_func mem) r s
  update (foreign type_name kind) s =
      (some (message ("cannot add unsupported kind " <> (kind <> " to the store"))), s)

  unfoldable pub delete : Object → C.Indexer → Option Error × C.Indexer
  unfolding key_func
  delete (kong_file r) s = C.delete (key_func mem) r s
  delete (foreign type_name kind) s =
      (some (message ("cannot delete unsupported kind " <> (kind <> " from the store"))), s)
