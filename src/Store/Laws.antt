-- ===== src/Store/Laws.antt =====
-- What the store answers after a change.
use kong_portal_controller.Base.{
  String, ◌≡◌, refl, none, some, arith, ◌==◌, string_eq, nat_eq, if◌then◌else◌,
}
use kong_portal_controller.Store.{kong_file, key_func, key_of, get, add, update, delete}
use kong_portal_controller.Store.Cache.{CacheLib, IsCache, Memory, Ref, found}

-- The key of an object in the cache.
abbrev pub key_at : Memory → Ref → String
key_at mem r = let meta = (mem.cell r).meta in key_of meta.namespace meta.name

module _ (C : CacheLib) (L : IsCache C) (mem : Memory) where
  get-find : (q : Ref) (s : C.Indexer) → get C mem (kong_file q) s ≡ found (L.find s (key_at mem q))
  unfolding get key_func
  get-find q s = L.get-find (key_func mem) q s (key_at mem q) refl

  -- After `Add` or `Update`, `Get` of any object with the namespace and name of the one that was stored
  -- gives that one; after `Delete` it gives nothing; and `Get` of any other object answers as before.
  pub get-changed :
      (r q : Ref) (s : C.Indexer)
      → (get C mem (kong_file q) (add C mem (kong_file r) s).1
          ≡ (if key_at mem q == key_at mem r then found (some r) else get C mem (kong_file q) s))
        × (get C mem (kong_file q) (update C mem (kong_file r) s).1
            ≡ (if key_at mem q == key_at mem r then found (some r) else get C mem (kong_file q) s))
        × (get C mem (kong_file q) (delete C mem (kong_file r) s).1
            ≡ (if key_at mem q == key_at mem r then found none else get C mem (kong_file q) s))
  unfolding add update delete key_func
  get-changed r q s = (
    ground (
      arith,
      get-find q (C.add (key_func mem) r s).1,
      get-find q s,
      L.find-add (key_func mem) r s (key_at mem r) (key_at mem q) refl,
    ),
    ground (
      arith,
      get-find q (C.update (key_func mem) r s).1,
      get-find q s,
      L.find-update (key_func mem) r s (key_at mem r) (key_at mem q) refl,
    ),
    ground (
      arith,
      get-find q (C.delete (key_func mem) r s).1,
      get-find q s,
      L.find-delete (key_func mem) r s (key_at mem r) (key_at mem q) refl,
    ),
  )
