-- ===== src/Tests/Client.antt =====
-- The theorems on the client of the Admin API at concrete settings.
use kong_portal_controller.Base.{
  String, ◌≡◌, refl, ◌≢◌, ◌⊎◌, inl, true, none, some, [], ◌∷◌, arith, message, wrap, err, returns,
  blocks, string_eq, nat_eq, string_dec,
}
use text.Mathlib.TextEquality.{eq_iff}
use kong_portal_controller.Annotations.{lookup}
use kong_portal_controller.AdminApi.{
  make_http_client, load_root_cas, client_certificates, install, both_set, check_client_flags,
  read_client_cert, read_client_key, HttpDefaults,
}
use kong_portal_controller.AdminApi.Headers.{HttpRequest, round_trip, configured, round_trip-lookup}
use kong_portal_controller.AdminApi.Laws.{IsFromFile, make_http_client-twice}
use kong_portal_controller.AdminApi.Workspace.{get_kong_client_for_workspace, failure-blocks}
use kong_portal_controller.Fixtures.Startup.{
  certs, defaults, free, options, read_options, workspaces,
}

made :
    make_http_client certs options defaults
    ≡ (none, read_options, install certs read_options none (("pem", "pem") ∷ []))
unfolding make_http_client load_root_cas client_certificates string_dec check_client_flags
    read_client_cert read_client_key
made = refl

cert_given : ◌≢◌ {A = String} "cert.pem" ""
cert_given = ground (arith, eq_iff "cert.pem" "")

pem_full : ◌≢◌ {A = String} "pem" ""
pem_full = ground (arith, eq_iff "pem" "")

abbrev made_defaults : HttpDefaults certs
made_defaults = install certs read_options none (("pem", "pem") ∷ [])

cert_file : IsFromFile certs "cert.pem" "pem"
cert_file = record { given = cert_given; read = refl; full = pem_full }

make_http_client-twice_example :
    (IsFromFile certs "cert.pem" "pem"
      × ◌≡◌ {A = String} "cert.pem" "cert.pem"
      × (make_http_client certs read_options made_defaults
          ≡ (some (both_set "kong-admin-tls-client-cert"), read_options, made_defaults)))
    ⊎ (IsFromFile certs "key.pem" "pem"
        × ◌≡◌ {A = String} "key.pem" "key.pem"
        × ◌≡◌ {A = String} "cert.pem" ""
        × (make_http_client certs read_options made_defaults
            ≡ (some (both_set "kong-admin-tls-client-key"), read_options, made_defaults)))
make_http_client-twice_example =
    make_http_client-twice certs options defaults made_defaults read_options "pem" made
      (inl cert_file)

abbrev incoming : HttpRequest
incoming = record { method = "GET"; url = "/files/x"; header = ("x-team", "a" ∷ "b" ∷ []) ∷ [] }

round_trip-lookup_example :
    (lookup "x-team" (round_trip options.headers incoming).header
      ≡ elim (configured "x-team" options.headers) [
        | some v ↦ some (v ∷ [])
        | none ↦ lookup "x-team" incoming.header
      ])
    × ((round_trip options.headers incoming).method ≡ "GET")
    × ((round_trip options.headers incoming).url ≡ "/files/x")
round_trip-lookup_example = round_trip-lookup options.headers incoming "x-team"

named : ◌≢◌ {A = String} "down" "" × ◌≢◌ {A = String} "docs" ""
named = (ground (arith, eq_iff "down" ""), ground (arith, eq_iff "docs" ""))

looked_up :
    get_kong_client_for_workspace workspaces "http://kong" "down" free
    ≡ returns (
      err (wrap "looking up workspace" (message "no route")),
      record { locked = true; server = tt },
    )
unfolding get_kong_client_for_workspace string_dec
looked_up = refl

failure-blocks_example :
    get_kong_client_for_workspace workspaces "http://kong" "docs"
      (record { locked = true; server = tt })
    ≡ blocks
failure-blocks_example =
    failure-blocks workspaces "http://kong" "down" "http://kong" "docs" free
      (record { locked = true; server = tt }) "http://kong" "http://kong"
      (wrap "looking up workspace" (message "no route")) named.0 refl looked_up named.1 refl
