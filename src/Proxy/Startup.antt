-- ===== src/Proxy/Startup.antt =====
-- internal/dataplane/proxy/cached_proxy_resolver.go: the construction of the proxy from the root
-- document of the Admin API, and what it says of readiness and leader election.
use kong_portal_controller.Metrics.{
  RegistryLib, IsRegistry, CtrlFuncMetrics, ctrl_func_metrics, collectors, new_ctrl_func_metrics,
  metrics_made_once,
}
use kong_portal_controller.Base.Action.{Action}
use kong_portal_controller.Base.{
  ◌≢◌, String, ◌<>◌, ◌≡◌, ◌↔◌, ◌⊎◌, Bool, true, false, ◌||◌, Option, none, some, arith, Error,
  message, Result, ok, err, Outcome, returns, panics, blocks, ◌==◌, string_eq, nat_eq,
  if◌then◌else◌,
}

-- The values of a decoded JSON document, as far as they are told apart.
mutual
  pub data Value : Type 0 where
    string_value : String → Value
    map_value : Fields → Value
    other_value : Value

  pub data Fields : Type 0 where
    end : Fields
    field : String → Value → Fields → Fields

abbrev pub lookup_field : String → Fields → Option Value
lookup_field key end = none
lookup_field key (field k v m) = if k == key then some v else lookup_field key m

-- `m[key].(map[string]interface{})` and `m[key].(string)`; a missing key is no map and no string.
unfoldable pub as_fields : Option Value → Option Fields
as_fields (some (map_value m)) = some m
as_fields (some (string_value s)) = none
as_fields (some other_value) = none
as_fields none = none

unfoldable pub as_text : Option Value → Option String
as_text (some (string_value s)) = some s
as_text (some (map_value m)) = none
as_text (some other_value) = none
as_text none = none

-- What the start uses of go-kong, semver and client_golang.
pub record VersionLib : Type 1 where
  pub Version : Type 0
  pub zero_version : Version
  pub version_from_info : Fields → String
  pub parse_semantic_version : String → Result Version
  pub metrics : RegistryLib

module _ (V : VersionLib) where
  -- The fields of `CachedProxyResolver` that the start sets, and those of its `kongConfig`.
  pub record Resolver : Type 0 where
    pub in_memory : Bool
    pub kong_version : V.Version
    pub dbmode : String
    pub version : V.Version
    pub config_applied : Bool
    pub prom_metrics : Option (CtrlFuncMetrics V.metrics)

  abbrev pub blank_resolver : Resolver
  blank_resolver = record {
    in_memory = false;
    kong_version = V.zero_version;
    dbmode = "";
    version = V.zero_version;
    config_applied = false;
    prom_metrics = none;
  }

  -- The type that the two errors print after "got" is left out.
  abbrev invalid_root : Error
  invalid_root = message "invalid root configuration, expected a map[string]interface{}"

  abbrev invalid_database : Error
  invalid_database = message "invalid database developer, expected a string"

  -- The `switch` on the database mode.
  unfoldable pub in_memory_mode : String → Result Bool
  in_memory_mode mode =
      if mode == "off" || mode == ""
      then ok true
      else if mode == "postgres"
      then ok false
      else err (message (mode <> " is not a supported database backend"))

  -- The last part of `initialize`, after `InMemory` was set.
  unfoldable store_versions :
      Fields
      → String
      → Resolver
      → V.metrics.Registry
      → Outcome ((Option Error × Resolver) × V.metrics.Registry)
  unfolding new_ctrl_func_metrics
  store_versions root mode p registry = elim (V.parse_semantic_version (V.version_from_info root)) [
    | err e ↦ returns ((some e, p), registry)
    | ok v ↦ elim (new_ctrl_func_metrics V.metrics registry) [
      | panics ↦ panics
      | blocks ↦ blocks
      | returns (m, registry') ↦ returns (
        (none, record p { kong_version = v; dbmode = mode; version = v; prom_metrics = some m }),
        registry',
      )
    ]
  ]

  -- `root` is the answer of `kongRootWithTimeout`.
  unfoldable pub initialize :
      Result Fields
      → Resolver
      → V.metrics.Registry
      → Outcome ((Option Error × Resolver) × V.metrics.Registry)
  unfolding store_versions in_memory_mode
  initialize (err e) p registry = returns ((some e, p), registry)
  initialize (ok root) p registry = elim (as_fields (lookup_field "configuration" root)) [
    | none ↦ returns ((some invalid_root, p), registry)
    | some config ↦ elim (as_text (lookup_field "database" config)) [
      | none ↦ returns ((some invalid_database, p), registry)
      | some mode ↦ elim (in_memory_mode mode) [
        | err e ↦ returns ((some e, p), registry)
        | ok memory ↦ store_versions root mode (record p { in_memory = memory }) registry
      ]
    ]
  ]

  unfoldable pub new_cache_based_proxy : Result Fields → Action V.metrics.Registry Resolver
  unfolding initialize
  new_cache_based_proxy root registry = elim (initialize root blank_resolver registry) [
    | panics ↦ panics
    | blocks ↦ blocks
    | returns ((failed, p), registry') ↦
        returns (elim failed [ some e ↦ err e | none ↦ ok p ], registry')
  ]

  -- `Start` does nothing.
  unfoldable pub start : Resolver → Option Error
  start p = none

  unfoldable pub need_leader_election : Resolver → Bool
  need_leader_election p = if p.dbmode == "off" then false else true

  unfoldable pub is_ready : Resolver → Bool
  is_ready p = if p.dbmode == "off" then p.config_applied else true

  -- The modes that the start supports.
  abbrev pub IsSupported : String → Type 0
  IsSupported mode = (mode ≡ "off") ⊎ ((mode ≡ "") ⊎ (mode ≡ "postgres"))

  -- Where the metrics can be registered, the proxy is built exactly from a root document that has a
  -- supported database mode under configuration.database and a version that parses.
  pub new_cache_based_proxy_iff :
      (root : Fields) (config : Fields) (mode : String) (v : V.Version)
      (registry registry' : V.metrics.Registry)
      → V.metrics.must_register (collectors V.metrics (ctrl_func_metrics V.metrics)) registry
        ≡ some registry'
      → as_fields (lookup_field "configuration" root) ≡ some config
      → as_text (lookup_field "database" config) ≡ some mode
      → V.parse_semantic_version (V.version_from_info root) ≡ ok v
      → ((p : Resolver) × (new_cache_based_proxy (ok root) registry ≡ returns (ok p, registry')))
        ↔ IsSupported mode
  unfolding new_cache_based_proxy
  new_cache_based_proxy_iff root config mode v registry registry' made has_config has_mode parsed =
      (
        λ (p, e). ground arith,
        λ h. (
          record {
            in_memory = if mode == "off" || mode == "" then true else false;
            kong_version = v;
            dbmode = mode;
            version = v;
            config_applied = false;
            prom_metrics = some (ctrl_func_metrics V.metrics);
          },
          ground arith,
        ),
      )

  -- Of a proxy that was built: its mode is supported, it is in memory exactly in the modes "off" and
  -- "", and no configuration counts as applied. So in the mode "off" it is not ready and wants no
  -- leader, and in the others it is ready and wants one.
  pub built_resolver :
      (root : Result Fields) (p : Resolver) (registry registry' : V.metrics.Registry)
      → new_cache_based_proxy root registry ≡ returns (ok p, registry')
      → IsSupported p.dbmode
        × ((p.in_memory ≡ true) ↔ ((p.dbmode ≡ "off") ⊎ (p.dbmode ≡ "")))
        × ((is_ready p ≡ false) ↔ (p.dbmode ≡ "off"))
        × (need_leader_election p ≡ is_ready p)
  unfolding new_cache_based_proxy is_ready need_leader_election
  built_resolver (err e) p registry registry' h = ground arith
  built_resolver (ok root) p registry registry' h = ground arith

  built-metrics :
      (root : Result Fields) (p : Resolver) (registry registry' : V.metrics.Registry)
      → new_cache_based_proxy root registry ≡ returns (ok p, registry')
      → (m : CtrlFuncMetrics V.metrics) × (new_ctrl_func_metrics V.metrics registry
          ≡ returns (m, registry'))
  unfolding new_cache_based_proxy
  built-metrics (err e) p registry registry' h = absurd (ground arith)
  built-metrics (ok root) p registry registry' h = (ctrl_func_metrics V.metrics, ground arith)

  -- Over a registry that takes a metric at most once, a process builds at most one proxy: with the
  -- registry that the first one leaves, building another never succeeds, whatever Kong answers.
  pub built_once :
      (L : IsRegistry V.metrics) (root later : Result Fields) (p q : Resolver)
      (registry registry' last : V.metrics.Registry)
      → new_cache_based_proxy root registry ≡ returns (ok p, registry')
      → new_cache_based_proxy later registry' ≢ returns (ok q, last)
  built_once L root later p q registry registry' last first second =
      let (m, made) = built-metrics root p registry registry' first in
      let (m', again) = built-metrics later q registry' last second in
      ground (arith, metrics_made_once V.metrics L registry registry' m made)
