-- ===== src/Fixtures/Startup.antt =====
-- A configuration, and concrete libraries for the start of the controller.
use kong_portal_controller.Annotations.Filter.{Event, controller_class_filter}
use kong_portal_controller.Fixtures.Registries.{registries}
use kong_portal_controller.Metrics.{ctrl_func_metrics}
use kong_portal_controller.Base.{
  Bool, ◌==◌, string_eq, nat_eq, String, ◌<>◌, Bool, true, false, none, some, List, [], ◌∷◌, ◌++◌,
  message, Result, ok, err, ◌==◌, string_eq, nat_eq, if◌then◌else◌,
}
use kong_portal_controller.Base.Int.{pos}
use kong_portal_controller.AdminApi.{HttpClientOpts, CertLib, HttpDefaults, install}
use kong_portal_controller.AdminApi.Workspace.{WorkspaceLib, Session}
use kong_portal_controller.Admission.Tls.{TlsLib}
use kong_portal_controller.Manager.{Config}
use kong_portal_controller.Manager.Kong.{Setting}
use kong_portal_controller.Manager.Controllers.{ManagerLib}
use kong_portal_controller.Proxy.Startup.{
  string_value, map_value, Fields, end, field, VersionLib, Resolver,
}

abbrev pub options : HttpClientOpts
options = record {
  tls_skip_verify = false;
  tls_server_name = "";
  ca_cert_path = "";
  ca_cert = "";
  headers = "x-team: portal" ∷ "x-team:docs" ∷ "no colon" ∷ [];
  tls_client_cert_path = "cert.pem";
  tls_client_cert = "";
  tls_client_key_path = "key.pem";
  tls_client_key = "";
}

-- Every file holds "pem", and every key pair is accepted.
abbrev pub certs : CertLib
certs = record {
  CertPool = String;
  Certificate = String × String;
  read_file = λ path. ok "pem";
  append_certs = λ pem. some pem;
  x509_key_pair = λ cert key. ok (cert, key);
}

abbrev pub defaults : HttpDefaults certs
defaults = record { transport_tls = none; client_headers = none }

abbrev pub read_options : HttpClientOpts
read_options = record options { tls_client_cert = "pem"; tls_client_key = "pem" }

-- Any URL gives a client. The workspace exists, does not exist, or cannot be looked up, by its name.
abbrev pub exists_by_name : String → Result Bool
exists_by_name name =
    if name == "docs"
    then ok true
    else if name == "down"
    then err (message "no route")
    else ok false

abbrev pub workspaces : WorkspaceLib
workspaces = record {
  Client = String;
  Server = Unit {0};
  new_client = λ url. ok url;
  exists_by_name = λ client name s. (exists_by_name name, s);
  create_workspace = λ client name s. (none, s);
  set_workspace = λ name client. client <> ("/" <> name);
}

abbrev pub free : Session workspaces
free = record { locked = false; server = tt }

abbrev pub config : Config
config = record {
  log_level = "debug";
  log_format = "json";
  log_reduce_redundancy = false;
  kong_admin_api_config = options;
  kong_admin_token = "secret";
  kong_workspace = "docs";
  anonymous_reports = true;
  enable_reverse_sync = false;
  sync_period = pos 172800000000000;
  api_server_host = "";
  api_server_qps = pos 100;
  api_server_burst = pos 300;
  metrics_addr = ":10255";
  probe_addr = ":10254";
  kong_admin_url = "http://kong";
  proxy_timeout_seconds = "10";
  kong_custom_entities_secret = "";
  kubeconfig_path = "";
  controller_class_name = "kong";
  enable_leader_election = false;
  leader_election_namespace = "";
  leader_election_id = "4g374a9e.konghq.com";
  concurrency = pos 10;
  filter_tags = "managed-by-portal-controller" ∷ [];
  watch_namespaces = "default" ∷ [];
  publish_service = "kong/proxy";
  publish_status_address = [];
  admission_server = record {
    listen_addr = ":8080";
    cert_path = "";
    cert = "";
    key_path = "";
    key = "";
  };
  enable_profiling = false;
}

abbrev pub setting : Setting certs workspaces
setting = record { config = config; defaults = defaults; session = free }

abbrev pub token_options : HttpClientOpts
token_options = record read_options { headers = options.headers ++ "kong-admin-token:secret" ∷ [] }

abbrev pub setting_after : Setting certs workspaces
setting_after = record {
  config = record config { kong_admin_api_config = token_options };
  defaults = install certs token_options none (("pem", "pem") ∷ []);
  session = free;
}

abbrev pub tls : TlsLib
tls = record {
  KeyPair = String × String;
  read_file = λ path. ok path;
  x509_key_pair = λ cert key. ok (cert, key);
}

-- A manager that lists its controllers. Its cluster has the resource.
abbrev pub manager : ManagerLib
manager = record {
  Manager = List (Event → Bool);
  kind_for = λ gvr mgr. none;
  is_no_match = λ e. false;
  new_controller = λ filter mgr. (none, filter ∷ mgr);
}

-- The manager when the controller of the class `kong` was set up.
abbrev pub watching : List (Event → Bool)
watching = controller_class_filter "kong" false true ∷ []

abbrev pub versions : VersionLib
versions = record {
  Version = String;
  zero_version = "";
  version_from_info = λ root. "2.8.1";
  parse_semantic_version = λ v. ok v;
  metrics = registries;
}

abbrev pub configuration : Fields
configuration = field "database" (string_value "off") end

abbrev pub root : Fields
root = field "configuration" (map_value configuration) end

abbrev pub resolver : Resolver versions
resolver = record {
  in_memory = true;
  kong_version = "2.8.1";
  dbmode = "off";
  version = "2.8.1";
  config_applied = false;
  prom_metrics = some (ctrl_func_metrics registries);
}
