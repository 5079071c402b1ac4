-- ===== src/Manager.antt =====
-- internal/manager/config.go and setup.go: the configuration, and the pieces that it sets up.
pub mod Options
pub mod Kong
pub mod Webhook
pub mod Controllers
pub mod Run
pub mod Started
pub mod Ending
pub mod Flags
use kong_portal_controller.Base.{
  String, ap, Bool, Option, List, Result, ok, ◌>>=◌, ◌>>◌, string_eq, nat_eq,
}
use kong_portal_controller.Base.Int.{ℤ}
use kong_portal_controller.AdminApi.{HttpClientOpts}
use kong_portal_controller.Admission.Tls.{ServerConfig}

-- `Config`. `proxy_timeout_seconds`, a float32, is the text that `%g` prints for it, which is the only
-- use of the field.
pub record Config : Type 0 where
  pub log_level : String
  pub log_format : String
  pub log_reduce_redundancy : Bool
  pub kong_admin_api_config : HttpClientOpts
  pub kong_admin_token : String
  pub kong_workspace : String
  pub anonymous_reports : Bool
  pub enable_reverse_sync : Bool
  pub sync_period : ℤ
  pub api_server_host : String
  pub api_server_qps : ℤ
  pub api_server_burst : ℤ
  pub metrics_addr : String
  pub probe_addr : String
  pub kong_admin_url : String
  pub proxy_timeout_seconds : String
  pub kong_custom_entities_secret : String
  pub kubeconfig_path : String
  pub controller_class_name : String
  pub enable_leader_election : Bool
  pub leader_election_namespace : String
  pub leader_election_id : String
  pub concurrency : ℤ
  pub filter_tags : List String
  pub watch_namespaces : List String
  pub publish_service : String
  pub publish_status_address : List String
  pub admission_server : ServerConfig
  pub enable_profiling : Bool

-- `rest.Config`, as `clientcmd.BuildConfigFromFlags` gives it; the rate limits are set afterwards.
pub record RestConfig : Type 0 where
  pub host : String
  pub qps : ℤ
  pub burst : ℤ

unfoldable pub get_kubeconfig : (String → String → Result RestConfig) → Config → Result RestConfig
get_kubeconfig build_config_from_flags c = do
  config ← build_config_from_flags c.api_server_host c.kubeconfig_path
  ok (record config { qps = c.api_server_qps; burst = c.api_server_burst })

-- `client.New(conf, client.Options{})` is the last parameter.
unfoldable pub get_kube_client :
    {Client : Type 0}
    → (String → String → Result RestConfig)
    → (RestConfig → Result Client)
    → Config
    → Result Client
unfolding get_kubeconfig
get_kube_client build_config_from_flags new_client c = do
  conf ← get_kubeconfig build_config_from_flags c
  new_client conf
