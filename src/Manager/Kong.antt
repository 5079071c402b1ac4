-- ===== src/Manager/Kong.antt =====
-- internal/manager/config.go: `GetKongClient`, from the configuration to a client of the Admin API;
-- setup.go: `setupKongConfig`.
use kong_portal_controller.Base.{
  String, ◌<>◌, ◌≡◌, ap, ◌∙◌, ◌≢◌, inl, inr, not, none, some, List, [], ◌∷◌, ◌++◌, arith, Result,
  ok, err, ◌>>=◌, context, Outcome, returns, panics, blocks, Option-cases, ◌==◌, string_eq, nat_eq,
  if◌then◌else◌,
}
use Prim.Native.String as Str
use text.Mathlib.TextLemmas.{cons-append, nil-append, append_assoc}
use kong_portal_controller.Annotations.{lookup}
use kong_portal_controller.Base.Int.{ℤ}
use kong_portal_controller.Base.Split.{cut, cut-append}
use kong_portal_controller.AdminApi.{HttpClientOpts, CertLib, HttpDefaults, make_http_client}
use kong_portal_controller.AdminApi.Headers.{HttpRequest, round_trip, round_trip-lookup, configured}
use kong_portal_controller.AdminApi.Laws.{make_http_client-headers}
use kong_portal_controller.AdminApi.Workspace.{WorkspaceLib, Session, get_kong_client_for_workspace}
use kong_portal_controller.Manager.{Config}

-- What the call reads and writes: the configuration, the defaults of net/http, and the session with
-- the Admin API.
module _ (T : CertLib) (W : WorkspaceLib) where
  pub record Setting : Type 0 where
    pub config : Config
    pub defaults : HttpDefaults T
    pub session : Session W

-- The token goes into the caller's headers.
unfoldable pub add_token : Config → HttpClientOpts
add_token c =
    let o = c.kong_admin_api_config in
    if not (c.kong_admin_token == "")
    then record o { headers = o.headers ++ ("kong-admin-token:" <> c.kong_admin_token) ∷ [] }
    else o

module _ (T : CertLib) (W : WorkspaceLib) where
  unfoldable pub get_kong_client : Setting T W → Outcome (Result W.Client × Setting T W)
  get_kong_client s =
      let (failed, opts, defaults) = make_http_client T (add_token s.config) s.defaults in
      let config : Config = record (s.config) { kong_admin_api_config = opts } in
      elim failed [
        | some e ↦ returns (err e, record s { config = config; defaults = defaults })
        | none ↦
            elim (get_kong_client_for_workspace W s.config.kong_admin_url s.config.kong_workspace
              s.session) [
                | panics ↦ panics
                | blocks ↦ blocks
                | returns (result, session) ↦
                    returns
                      (result, record { config = config; defaults = defaults; session = session })
              ]
      ]

  -- `configuration.Kong`: the URL, the concurrency and the client.
  pub record KongConfig : Type 0 where
    pub url : String
    pub concurrency : ℤ
    pub client : W.Client

  unfoldable pub setup_kong_config : Setting T W → Outcome (Result KongConfig × Setting T W)
  setup_kong_config s = elim (get_kong_client s) [
    | panics ↦ panics
    | blocks ↦ blocks
    | returns (result, s') ↦ returns (
      do
        client ← context "unable to build kong api client" result
        ok (record {
          url = s'.config.kong_admin_url;
          concurrency = s'.config.concurrency;
          client = client;
        }),
      s',
    )
  ]

token-cut :
    (token : String) → cut ":" ("kong-admin-token:" <> token) ≡ some ("kong-admin-token", token)
token-cut token =
    let split : "kong-admin-token:" <> token ≡ "kong-admin-token" <> Str.◌∷◌ ":" token =
      append_assoc "kong-admin-token" ":" token
      ∙ ap (λ (t : String). "kong-admin-token" <> t)
          (cons-append ":" "" token ∙ ap (λ (t : String). Str.◌∷◌ ":" t) (nil-append token)) in
    ap (cut ":") split ∙ cut-append ":" "kong-admin-token" token (omega arith)

configured-token :
    (token : String) (lines : List String)
    → configured "kong-admin-token" (lines ++ ("kong-admin-token:" <> token) ∷ []) ≡ some token
configured-token token [] = ground (arith, token-cut token)
configured-token token (line ∷ lines) = ground (arith, configured-token token lines)

add_token-headers :
    (c : Config)
    → c.kong_admin_token ≢ ""
    → (add_token c).headers
      ≡ c.kong_admin_api_config.headers ++ ("kong-admin-token:" <> c.kong_admin_token) ∷ []
unfolding add_token
add_token-headers c token = ground arith

get_kong_client-defaults :
    (T : CertLib) (W : WorkspaceLib) (s s' : Setting T W) (client : W.Client)
    → get_kong_client T W s ≡ returns (ok client, s')
    → s'.defaults ≡ (make_http_client T (add_token s.config) s.defaults).2
unfolding get_kong_client
get_kong_client-defaults T W s s' client h = ground arith

-- With a token in the configuration, every request through the client that is built carries the
-- header kong-admin-token with the token as its only value, whatever headers are configured beside it
-- and whatever the request has under that key.
pub token_sent :
    (T : CertLib) (W : WorkspaceLib) (s s' : Setting T W) (client : W.Client) (lines : List String)
    (req : HttpRequest)
    → s.config.kong_admin_token ≢ ""
    → get_kong_client T W s ≡ returns (ok client, s')
    → s'.defaults.client_headers ≡ some lines
    → lookup "kong-admin-token" (round_trip lines req).header
      ≡ some (s.config.kong_admin_token ∷ [])
unfolding get_kong_client
token_sent T W s s' client lines req token made installed =
    elim (Option-cases (make_http_client T (add_token s.config) s.defaults).0) [
      | inr (e, bad) ↦ absurd (ground arith)
      | inl fine ↦
          let built = make_http_client T (add_token s.config) s.defaults in
          let carried =
            make_http_client-headers T (add_token s.config) s.defaults built.1 built.2
              (ground arith) in
          let same : s'.defaults ≡ built.2 = get_kong_client-defaults T W s s' client made in
          let all : lines ≡ (add_token s.config).headers = ground (arith, carried, same) in
          let key : String = "kong-admin-token" in
          let last : configured key lines ≡ some s.config.kong_admin_token =
            ap (configured key) (all ∙ add_token-headers s.config token)
            ∙ configured-token s.config.kong_admin_token s.config.kong_admin_api_config.headers in
          (round_trip-lookup lines req key).0 ∙ ground (arith, last)
    ]
