-- ===== src/Manager/Flags.antt =====
-- internal/manager/config.go: `FlagSet`, the flags with their defaults. The usage texts are left out.
pub mod Bound
use kong_portal_controller.Base.{
  String, Bool, true, false, Option, none, some, List, [], ◌∷◌, ◌<>◌, Result, ok, err, ◌>>=◌, ◌==◌,
  string_eq, nat_eq, if◌then◌else◌,
}
use kong_portal_controller.Base.Int.{ℤ, pos}
use kong_portal_controller.Command.Env.{Flag, FlagLib}
use kong_portal_controller.Manager.{Config}

-- What a flag holds, by the method of pflag that declares it: `StringVar`, `BoolVar`, `StringSliceVar`,
-- `IntVar`, `DurationVar` (in nanoseconds) and `Float32Var` (as `%g` prints it).
pub data Value : Type 0 where
  string_var : String → Value
  bool_var : Bool → Value
  string_slice_var : List String → Value
  int_var : ℤ → Value
  duration_var : ℤ → Value
  float32_var : String → Value

-- The parsers that the flags' `Set` uses, and `os.LookupEnv`.
pub record PflagLib : Type 0 where
  pub parse_bool : String → Result Bool
  pub read_csv : String → Result (List String)
  pub parse_int : String → Result ℤ
  pub parse_duration : String → Result ℤ
  pub parse_float : String → Result String
  pub lookup_env : String → Option String

-- `Value.Set` of a flag that has not been set before: the first `Set` of a slice replaces its default.
unfoldable pub set : PflagLib → String → Value → Result Value
set P s (string_var old) = ok (string_var s)
set P s (bool_var old) = do b ← P.parse_bool s; ok (bool_var b)
set P s (string_slice_var old) = do l ← P.read_csv s; ok (string_slice_var l)
set P s (int_var old) = do n ← P.parse_int s; ok (int_var n)
set P s (duration_var old) = do n ← P.parse_duration s; ok (duration_var n)
set P s (float32_var old) = do x ← P.parse_float s; ok (float32_var x)

abbrev pub flag_lib : PflagLib → FlagLib
flag_lib P = record { Value = Value; set = set P; lookup_env = P.lookup_env }

-- internal/manager/consts.go, as `%v` prints the ports.
abbrev healthz_port : String
healthz_port = "10254"

abbrev metrics_port : String
metrics_port = "10255"

-- internal/annotations/annotations.go
abbrev default_controller_class : String
default_controller_class = "kong"

-- internal/dataplane/proxy/proxy.go
abbrev default_proxy_timeout_seconds : String
default_proxy_timeout_seconds = "10"

abbrev var : String → Value → Flag Value
var name default = record { name = name; changed = false; value = default }

-- The flags, each with its default, by name as `VisitAll` visits them.
abbrev pub flag_set : List (Flag Value)
flag_set =
    var "admission-webhook-cert" (string_var "")
    ∷ var "admission-webhook-cert-file" (string_var "")
    ∷ var "admission-webhook-key" (string_var "")
    ∷ var "admission-webhook-key-file" (string_var "")
    ∷ var "admission-webhook-listen" (string_var "off")
    ∷ var "anonymous-reports" (bool_var true)
    ∷ var "apiserver-burst" (int_var (pos 300))
    ∷ var "apiserver-host" (string_var "")
    ∷ var "apiserver-qps" (int_var (pos 100))
    ∷ var "controller-class" (string_var default_controller_class)
    ∷ var "debug-log-reduce-redundancy" (bool_var false)
    ∷ var "election-id" (string_var "4g374a9e.konghq.com")
    ∷ var "election-namespace" (string_var "")
    ∷ var "enable-reverse-sync" (bool_var false)
    ∷ var "health-probe-bind-address" (string_var (":" <> healthz_port))
    ∷ var "kong-admin-ca-cert" (string_var "")
    ∷ var "kong-admin-ca-cert-file" (string_var "")
    ∷ var "kong-admin-concurrency" (int_var (pos 10))
    ∷ var "kong-admin-filter-tag" (string_slice_var ("managed-by-portal-controller" ∷ []))
    ∷ var "kong-admin-header" (string_slice_var [])
    ∷ var "kong-admin-tls-client-cert" (string_var "")
    ∷ var "kong-admin-tls-client-cert-file" (string_var "")
    ∷ var "kong-admin-tls-client-key" (string_var "")
    ∷ var "kong-admin-tls-client-key-file" (string_var "")
    ∷ var "kong-admin-tls-server-name" (string_var "")
    ∷ var "kong-admin-tls-skip-verify" (bool_var false)
    ∷ var "kong-admin-token" (string_var "")
    ∷ var "kong-admin-url" (string_var "http://localhost:8001")
    ∷ var "kong-custom-entities-secret" (string_var "")
    ∷ var "kong-workspace" (string_var "")
    ∷ var "kubeconfig" (string_var "")
    ∷ var "log-format" (string_var "text")
    ∷ var "log-level" (string_var "info")
    ∷ var "metrics-bind-address" (string_var (":" <> metrics_port))
    ∷ var "profiling" (bool_var false)
    ∷ var "proxy-timeout-seconds" (float32_var default_proxy_timeout_seconds)
    ∷ var "publish-service" (string_var "")
    ∷ var "publish-status-address" (string_slice_var [])
    ∷ var "stderrthreshold" (int_var (pos 0))
    ∷ var "sync-period" (duration_var (pos 172800000000000))
    ∷ var "update-status-on-shutdown" (bool_var false)
    ∷ var "watch-namespace" (string_slice_var [])
    ∷ []

-- The value of the flag of this name.
unfoldable pub value_of : String → List (Flag Value) → Option Value
value_of name [] = none
value_of name (f ∷ fs) = if f.name == name then some f.value else value_of name fs

abbrev pub as_string : Option Value → String
as_string (some (string_var s)) = s
as_string (some (float32_var s)) = s
as_string (some (bool_var b)) = ""
as_string (some (string_slice_var l)) = ""
as_string (some (int_var n)) = ""
as_string (some (duration_var n)) = ""
as_string none = ""

abbrev pub as_bool : Option Value → Bool
as_bool (some (bool_var b)) = b
as_bool (some (string_var s)) = false
as_bool (some (float32_var s)) = false
as_bool (some (string_slice_var l)) = false
as_bool (some (int_var n)) = false
as_bool (some (duration_var n)) = false
as_bool none = false

abbrev pub as_list : Option Value → List String
as_list (some (string_slice_var l)) = l
as_list (some (string_var s)) = []
as_list (some (float32_var s)) = []
as_list (some (bool_var b)) = []
as_list (some (int_var n)) = []
as_list (some (duration_var n)) = []
as_list none = []

abbrev pub as_number : Option Value → ℤ
as_number (some (int_var n)) = n
as_number (some (duration_var n)) = n
as_number (some (string_var s)) = pos 0
as_number (some (float32_var s)) = pos 0
as_number (some (bool_var b)) = pos 0
as_number (some (string_slice_var l)) = pos 0
as_number none = pos 0

-- Each field is the storage of one flag, so it has the flag's value. No flag declares
-- `enable_leader_election`.
unfoldable pub config_of : List (Flag Value) → Config
config_of fs = record {
  log_level = as_string (value_of "log-level" fs);
  log_format = as_string (value_of "log-format" fs);
  log_reduce_redundancy = as_bool (value_of "debug-log-reduce-redundancy" fs);
  kong_admin_api_config = record {
    tls_skip_verify = as_bool (value_of "kong-admin-tls-skip-verify" fs);
    tls_server_name = as_string (value_of "kong-admin-tls-server-name" fs);
    ca_cert_path = as_string (value_of "kong-admin-ca-cert-file" fs);
    ca_cert = as_string (value_of "kong-admin-ca-cert" fs);
    headers = as_list (value_of "kong-admin-header" fs);
    tls_client_cert_path = as_string (value_of "kong-admin-tls-client-cert-file" fs);
    tls_client_cert = as_string (value_of "kong-admin-tls-client-cert" fs);
    tls_client_key_path = as_string (value_of "kong-admin-tls-client-key-file" fs);
    tls_client_key = as_string (value_of "kong-admin-tls-client-key" fs);
  };
  kong_admin_token = as_string (value_of "kong-admin-token" fs);
  kong_workspace = as_string (value_of "kong-workspace" fs);
  anonymous_reports = as_bool (value_of "anonymous-reports" fs);
  enable_reverse_sync = as_bool (value_of "enable-reverse-sync" fs);
  sync_period = as_number (value_of "sync-period" fs);
  api_server_host = as_string (value_of "apiserver-host" fs);
  api_server_qps = as_number (value_of "apiserver-qps" fs);
  api_server_burst = as_number (value_of "apiserver-burst" fs);
  metrics_addr = as_string (value_of "metrics-bind-address" fs);
  probe_addr = as_string (value_of "health-probe-bind-address" fs);
  kong_admin_url = as_string (value_of "kong-admin-url" fs);
  proxy_timeout_seconds = as_string (value_of "proxy-timeout-seconds" fs);
  kong_custom_entities_secret = as_string (value_of "kong-custom-entities-secret" fs);
  kubeconfig_path = as_string (value_of "kubeconfig" fs);
  controller_class_name = as_string (value_of "controller-class" fs);
  enable_leader_election = false;
  leader_election_namespace = as_string (value_of "election-namespace" fs);
  leader_election_id = as_string (value_of "election-id" fs);
  concurrency = as_number (value_of "kong-admin-concurrency" fs);
  filter_tags = as_list (value_of "kong-admin-filter-tag" fs);
  watch_namespaces = as_list (value_of "watch-namespace" fs);
  publish_service = as_string (value_of "publish-service" fs);
  publish_status_address = as_list (value_of "publish-status-address" fs);
  admission_server = record {
    listen_addr = as_string (value_of "admission-webhook-listen" fs);
    cert_path = as_string (value_of "admission-webhook-cert-file" fs);
    cert = as_string (value_of "admission-webhook-cert" fs);
    key_path = as_string (value_of "admission-webhook-key-file" fs);
    key = as_string (value_of "admission-webhook-key" fs);
  };
  enable_profiling = as_bool (value_of "profiling" fs);
}
