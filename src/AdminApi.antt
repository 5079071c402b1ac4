-- ===== src/AdminApi.antt =====
-- internal/adminapi/client.go: the HTTP client for the Admin API, `MakeHTTPClient`.
pub mod Headers
pub mod Workspace
pub mod Laws
use kong_portal_controller.Base.{
  ◌<◌, String, ◌<>◌, ap, Bool, not, ◌&&◌, Option, none, some, List, [], ◌∷◌, Error, message, Result,
  ok, err, ◌>>=◌, ◌>>◌, context, ◌==◌, string_eq, nat_eq, if◌then◌else◌,
}

pub record HttpClientOpts : Type 0 where
  pub tls_skip_verify : Bool
  pub tls_server_name : String
  pub ca_cert_path : String
  pub ca_cert : String
  pub headers : List String
  pub tls_client_cert_path : String
  pub tls_client_cert : String
  pub tls_client_key_path : String
  pub tls_client_key : String

-- The file system, crypto/x509 and crypto/tls. `append_certs` is `AppendCertsFromPEM` on a new pool.
pub record CertLib : Type 1 where
  pub CertPool : Type 0
  pub Certificate : Type 0
  pub read_file : String → Result String
  pub append_certs : String → Option CertPool
  pub x509_key_pair : String → String → Result Certificate

module _ (T : CertLib) where
  pub record TlsConfig : Type 0 where
    pub insecure_skip_verify : Bool
    pub server_name : String
    pub root_cas : Option T.CertPool
    pub certificates : List T.Certificate

  -- The variables of net/http that the function overwrites: the TLS configuration of
  -- `http.DefaultTransport` and the headers of the round tripper in `http.DefaultClient`.
  pub record HttpDefaults : Type 0 where
    pub transport_tls : Option TlsConfig
    pub client_headers : Option (List String)

abbrev pub is_set : String → Bool
is_set s = not (s == "")

abbrev pub both_set : String → Error
both_set flag =
    message (
      "both --"
      <> (flag <> ("-file and --" <> (flag <> "are set; please remove one or the other"))))

module _ (T : CertLib) where
  add_certs : String → String → Result T.CertPool
  add_certs failure pem = elim (T.append_certs pem) [
    | none ↦ err (message failure)
    | some pool ↦ ok pool
  ]

  -- The certificate pool, from the value or from the file.
  unfoldable pub load_root_cas : HttpClientOpts → Result (Option T.CertPool)
  unfolding add_certs
  load_root_cas o =
      if is_set o.ca_cert_path && is_set o.ca_cert
      then err (both_set "kong-admin-ca-cert")
      else if is_set o.ca_cert
      then (do pool ← add_certs "failed to load kong-admin-ca-cert" o.ca_cert; ok (some pool))
      else if is_set o.ca_cert_path
      then (do
        pem ←
            context ("failed to read kong-admin-ca-cert from path '" <> (o.ca_cert_path <> "'"))
              (T.read_file o.ca_cert_path)
        pool ←
            add_certs ("failed to load kong-admin-ca-cert from path '" <> (o.ca_cert_path <> "'"))
              pem
        ok (some pool))
      else ok none

  -- The client certificate and its key must not be given both as a value and as a file.
  unfoldable pub check_client_flags : HttpClientOpts → Option Error
  check_client_flags o =
      if is_set o.tls_client_cert_path && is_set o.tls_client_cert
      then some (both_set "kong-admin-tls-client-cert")
      else if is_set o.tls_client_key_path && is_set o.tls_client_key
      then some (both_set "kong-admin-tls-client-key")
      else none

  -- The files' contents go into the caller's options.
  unfoldable pub read_client_cert : HttpClientOpts → Result HttpClientOpts
  read_client_cert o =
      if is_set o.tls_client_cert_path
      then (do
        cert ←
            context ("failed to read certificate file " <> o.tls_client_cert_path)
              (T.read_file o.tls_client_cert_path)
        ok (record o { tls_client_cert = cert }))
      else ok o

  unfoldable pub read_client_key : HttpClientOpts → Result HttpClientOpts
  read_client_key o =
      if is_set o.tls_client_key_path
      then (do
        key ←
            context ("failed to read key file " <> o.tls_client_key_path)
              (T.read_file o.tls_client_key_path)
        ok (record o { tls_client_key = key }))
      else ok o

  unfoldable pub client_certificates : HttpClientOpts → Result (List T.Certificate)
  client_certificates o =
      if is_set o.tls_client_cert && o.tls_client_key == ""
      then err (message "client certificate was provided, but the client key was not")
      else if is_set o.tls_client_key && o.tls_client_cert == ""
      then err (message "client key was provided, but the client certificate was not")
      else if is_set o.tls_client_cert && is_set o.tls_client_key
      then (do
        cert ←
            context
              "failed to load kong-admin-tls-client-cert and kong-admin-tls-client-key certificate"
              (T.x509_key_pair o.tls_client_cert o.tls_client_key)
        ok (cert ∷ []))
      else ok []

  -- The end of the function: the defaults of net/http are overwritten, and the default client returned.
  abbrev pub install : HttpClientOpts → Option T.CertPool → List T.Certificate → HttpDefaults T
  install o pool certs = record {
    transport_tls = some (record {
      insecure_skip_verify = o.tls_skip_verify;
      server_name = o.tls_server_name;
      root_cas = pool;
      certificates = certs;
    });
    client_headers = some o.headers;
  }

  -- The error, if any, the caller's options afterwards, and the defaults of net/http afterwards. The
  -- client that is returned is the default client.
  unfoldable pub make_http_client :
      HttpClientOpts → HttpDefaults T → Option Error × HttpClientOpts × HttpDefaults T
  make_http_client o d = elim (load_root_cas o) [
    | err e ↦ (some e, o, d)
    | ok pool ↦ elim (check_client_flags o) [
      | some e ↦ (some e, o, d)
      | none ↦ elim (read_client_cert o) [
        | err e ↦ (some e, o, d)
        | ok o₁ ↦ elim (read_client_key o₁) [
          | err e ↦ (some e, o₁, d)
          | ok o₂ ↦ elim (client_certificates o₂) [
            | err e ↦ (some e, o₂, d)
            | ok certs ↦ (none, o₂, install o₂ pool certs)
          ]
        ]
      ]
    ]
  ]
