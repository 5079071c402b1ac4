-- ===== src/Tests/Flags.antt =====
-- The theorems on the flags at a concrete environment.
use kong_portal_controller.Base.{
  String, ◌≡◌, refl, true, false, Option, none, some, List, [], ◌∷◌, ok, err, message, returns,
  arith, ◌≢◌, ◌==◌, string_eq, string_dec, nat_eq, if◌then◌else◌,
}
use text.Mathlib.TextEquality.{eq_iff}
use kong_portal_controller.Annotations.{lookup}
use kong_portal_controller.AdminApi.{
  HttpClientOpts, make_http_client, load_root_cas, check_client_flags, read_client_cert,
  read_client_key, client_certificates, install,
}
use kong_portal_controller.AdminApi.Headers.{HttpRequest, round_trip}
use kong_portal_controller.AdminApi.Workspace.{get_kong_client_for_workspace}
use kong_portal_controller.Command.Env.{Flag, env_key, visit, bind_env_vars}
use kong_portal_controller.Manager.Kong.{Setting, add_token, get_kong_client}
use kong_portal_controller.Manager.Flags.{
  Value, string_var, PflagLib, set, flag_lib, value_of, config_of,
}
use kong_portal_controller.Manager.Flags.Bound.{flag_of, env_token_sent, bind_env_vars-precedence}
use kong_portal_controller.Fixtures.Startup.{certs, defaults, free, workspaces}

abbrev variables : String → Option String
variables key =
    if key == "CONTROLLER_KONG_ADMIN_TOKEN"
    then some "secret"
    else if key == "CONTROLLER_LOG_LEVEL"
    then some "debug"
    else none

abbrev pflag : PflagLib
pflag = record {
  parse_bool = λ s. if s == "true" then ok true else err (message "not a bool");
  read_csv = λ s. ok (s ∷ []);
  parse_int = λ s. err (message "not a number");
  parse_duration = λ s. err (message "not a duration");
  parse_float = λ s. ok s;
  lookup_env = variables;
}

abbrev incoming : HttpRequest
incoming = record { method = "GET"; url = "/files/x"; header = ("x-team", "a" ∷ "b" ∷ []) ∷ [] }

abbrev token_flag : Flag Value
token_flag = record { name = "kong-admin-token"; changed = false; value = string_var "" }

abbrev level_flag : Flag Value
level_flag = record { name = "log-level"; changed = true; value = string_var "warn" }

abbrev given : List (Flag Value)
given = level_flag ∷ token_flag ∷ []

abbrev bound : List (Flag Value)
bound = level_flag ∷ record token_flag { value = string_var "secret" } ∷ []

given-bound : bind_env_vars (flag_lib pflag) given ≡ (none, bound)
unfolding bind_env_vars visit set env_key string_dec
given-bound = refl

level_there : flag_of "log-level" given ≡ some level_flag
unfolding flag_of string_dec
level_there = refl

token_there : flag_of "kong-admin-token" given ≡ some token_flag
unfolding flag_of string_dec
token_there = refl

variable_there : variables "CONTROLLER_KONG_ADMIN_TOKEN" ≡ some "secret"
unfolding string_dec
variable_there = refl

full : ◌≢◌ {A = String} "secret" ""
full = ground (arith, eq_iff "secret" "")

abbrev setting : Setting certs workspaces
setting = record { config = config_of bound; defaults = defaults; session = free }

abbrev token_options : HttpClientOpts
token_options = add_token (config_of bound)

abbrev setting_after : Setting certs workspaces
setting_after = record {
  config = record (config_of bound) { kong_admin_api_config = token_options };
  defaults = install certs token_options none [];
  session = free;
}

built : get_kong_client certs workspaces setting ≡ returns (ok "", setting_after)
unfolding get_kong_client add_token make_http_client load_root_cas client_certificates string_dec
    check_client_flags read_client_cert read_client_key get_kong_client_for_workspace config_of
    value_of
built = refl

env_token_sent_example :
    lookup "kong-admin-token" (round_trip token_options.headers incoming).header
    ≡ some ("secret" ∷ [])
env_token_sent_example =
    env_token_sent pflag certs workspaces given bound token_flag "" "secret" setting setting_after
      "" token_options.headers incoming token_there refl refl variable_there full given-bound refl
      built refl

bind_env_vars-precedence_example : value_of "kong-admin-token" bound ≡ some (string_var "secret")
unfolding set env_key string_dec
bind_env_vars-precedence_example =
    bind_env_vars-precedence pflag "kong-admin-token" given bound token_flag given-bound token_there
