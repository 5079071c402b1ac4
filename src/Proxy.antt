-- ===== src/Proxy.antt =====
-- internal/dataplane/proxy/cached_proxy_resolver.go: the proxy's methods on objects, over the cache
-- and the file service.
pub mod Startup
pub mod Laws
pub mod Interface
pub mod Contract
use kong_portal_controller.Base.{
  ◌<◌, String, ◌<>◌, ap, Bool, true, false, not, Option, none, some, Error, message, err, string_eq,
  nat_eq,
}
use kong_portal_controller.Build.{build}
use kong_portal_controller.Service
use kong_portal_controller.Service.Client.{KongClient}
use kong_portal_controller.Store
use kong_portal_controller.Store.{Object, kong_file, foreign}
use kong_portal_controller.Store.Cache.{CacheLib, Memory, Ref}

module _ (C : CacheLib) (K : KongClient) where
  -- What the proxy's methods change: the cache, and the files of Kong behind the service.
  pub record Backend : Type 0 where
    pub cache : C.Indexer
    pub server : K.Server

abbrev unsupported : String → Error
unsupported kind = message ("cannot add unsupported kind " <> (kind <> " to the store"))

abbrev is_some {ℓ} : {A : Type ℓ} → Option A → Bool
is_some none = false
is_some (some a) = true

-- `cached.(client.Object)`
abbrev as_object : Option Ref → Option Object
as_object none = none
as_object (some r) = some (kong_file r)

module _ (C : CacheLib) (K : KongClient) (mem : Memory) where
  -- The result of the cache is not read.
  unfoldable pub update_object : Object → Backend C K → Option Error × Backend C K
  unfolding Store.update
  update_object (kong_file r) b =
      let cached = Store.update C mem (kong_file r) b.cache in
      let sent = Service.update K (build (mem.cell r)) b.server in
      (sent.0.1, record { cache = cached.1; server = sent.1 })
  update_object (foreign type_name kind) b = (some (unsupported kind), b)

  unfoldable pub delete_object : Object → Backend C K → Option Error × Backend C K
  unfolding Store.delete
  delete_object (kong_file r) b =
      let cached = Store.delete C mem (kong_file r) b.cache in
      let sent = Service.delete K (build (mem.cell r)) b.server in
      (sent.0.1, record { cache = cached.1; server = sent.1 })
  delete_object (foreign type_name kind) b = (some (unsupported kind), b)

  unfoldable pub object_exists : Object → Backend C K → (Bool × Option Error) × Backend C K
  object_exists (kong_file r) b =
      let asked = Service.get K (build (mem.cell r)) b.server in
      let b' = record b { server = asked.1 } in
      elim asked.0.1 [ some e ↦ ((false, some e), b') | none ↦ ((is_some asked.0.0, none), b') ]
  object_exists (foreign type_name kind) b = ((false, some (unsupported kind)), b)

  unfoldable pub object_exists_in_cache : Object → Backend C K → Option Object × Bool × Option Error
  unfolding Store.get
  object_exists_in_cache obj b =
      let cached = Store.get C mem obj b.cache in
      (as_object cached.item, cached.exists, cached.error)
