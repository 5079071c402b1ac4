-- ===== src/Proxy/Interface.antt =====
-- internal/dataplane/proxy/proxy.go: the interface that the reconciler sees of the proxy.
use kong_portal_controller.Base.{Bool, Option, Error}
use kong_portal_controller.Service.Client.{KongClient}
use kong_portal_controller.Store.{Object}
use kong_portal_controller.Store.Cache.{CacheLib, Memory}
use kong_portal_controller.Proxy.{
  Backend, update_object, delete_object, object_exists, object_exists_in_cache,
}

-- The methods on objects, with what they change. `Start`, `IsReady` and `NeedLeaderElection` are for the
-- manager, and are in Proxy/Startup.
pub record Proxy : Type 1 where
  pub State : Type 0
  pub update_object : Memory → Object → State → Option Error × State
  pub delete_object : Memory → Object → State → Option Error × State
  pub object_exists : Memory → Object → State → (Bool × Option Error) × State
  pub object_exists_in_cache : Memory → Object → State → Option Object × Bool × Option Error

-- The one implementation.
abbrev pub cached_proxy : CacheLib → KongClient → Proxy
cached_proxy C K = record {
  State = Backend C K;
  update_object = update_object C K;
  delete_object = delete_object C K;
  object_exists = object_exists C K;
  object_exists_in_cache = object_exists_in_cache C K;
}
