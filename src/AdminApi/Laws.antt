-- ===== src/AdminApi/Laws.antt =====
-- What `MakeHTTPClient` accepts, and what it does to its caller's options.
use kong_portal_controller.Base.{
  String, ◌≡◌, refl, sym, ap, ◌∙◌, ◌≢◌, ◌↔◌, ◌⊎◌, inl, inr, Option, none, some, List, [], arith,
  Error, ok, Result-cases, Option-cases, string_eq, nat_eq, string_dec,
}
use kong_portal_controller.AdminApi.{
  HttpClientOpts, CertLib, HttpDefaults, load_root_cas, check_client_flags, read_client_cert,
  read_client_key, client_certificates, install, make_http_client, both_set,
}

-- A setting is given at most once: as a value or as a file.
abbrev pub AtMostOne : String → String → Type 0
AtMostOne path value = (path ≡ "") ⊎ (value ≡ "")

module _ (T : CertLib) where
  -- The stages of a call that gives no error.
  record Stages (o o' : HttpClientOpts) (d' : HttpDefaults T) : Type 0 where
    pool : Option T.CertPool
    o₁ : HttpClientOpts
    certs : List T.Certificate
    loaded : load_root_cas T o ≡ ok pool
    checked : check_client_flags T o ≡ none
    read_cert : read_client_cert T o ≡ ok o₁
    read_key : read_client_key T o₁ ≡ ok o'
    paired : client_certificates T o' ≡ ok certs
    installed : d' ≡ install T o' pool certs

  stages :
      (o : HttpClientOpts) (d : HttpDefaults T) (o' : HttpClientOpts) (d' : HttpDefaults T)
      → make_http_client T o d ≡ (none, o', d')
      → Stages o o' d'
  unfolding make_http_client
  stages o d o' d' h = elim (Result-cases (load_root_cas T o)) [
    | inr (e, bad) ↦ absurd (ground arith)
    | inl (pool, loaded) ↦ elim (Option-cases (check_client_flags T o)) [
      | inr (e, bad) ↦ absurd (ground arith)
      | inl checked ↦ elim (Result-cases (read_client_cert T o)) [
        | inr (e, bad) ↦ absurd (ground arith)
        | inl (o₁, read_cert) ↦ elim (Result-cases (read_client_key T o₁)) [
          | inr (e, bad) ↦ absurd (ground arith)
          | inl (o₂, read_key) ↦ elim (Result-cases (client_certificates T o₂)) [
            | inr (e, bad) ↦ absurd (ground arith)
            | inl (certs, paired) ↦
                let same : o₂ ≡ o' = ground arith in
                record {
                  pool = pool;
                  o₁ = o₁;
                  certs = certs;
                  loaded = loaded;
                  checked = checked;
                  read_cert = read_cert;
                  read_key = read_key ∙ ap ok same;
                  paired = ap (client_certificates T) (sym same) ∙ paired;
                  installed = ground arith;
                }
          ]
        ]
      ]
    ]
  ]

  root_cas-AtMostOne :
      (o : HttpClientOpts) (pool : Option T.CertPool)
      → load_root_cas T o ≡ ok pool
      → AtMostOne o.ca_cert_path o.ca_cert
  unfolding load_root_cas
  root_cas-AtMostOne o pool h = ground arith

  client-AtMostOne :
      (o : HttpClientOpts)
      → check_client_flags T o ≡ none
      → AtMostOne o.tls_client_cert_path o.tls_client_cert
        × AtMostOne o.tls_client_key_path o.tls_client_key
  unfolding check_client_flags
  client-AtMostOne o h = ground arith

  certificates-paired :
      (o : HttpClientOpts) (certs : List T.Certificate)
      → client_certificates T o ≡ ok certs
      → ((o.tls_client_cert ≡ "") ↔ (o.tls_client_key ≡ ""))
        × ((certs ≡ []) ↔ (o.tls_client_cert ≡ ""))
  unfolding client_certificates
  certificates-paired o certs h = ground arith

  read_client_cert-keeps :
      (o o₁ : HttpClientOpts)
      → read_client_cert T o ≡ ok o₁
      → o₁ ≡ record o { tls_client_cert = o₁.tls_client_cert }
  unfolding read_client_cert
  read_client_cert-keeps o o₁ h = ground arith

  read_client_cert-file :
      (o o₁ : HttpClientOpts)
      → read_client_cert T o ≡ ok o₁
      → o.tls_client_cert_path ≢ ""
      → T.read_file o.tls_client_cert_path ≡ ok o₁.tls_client_cert
  unfolding read_client_cert
  read_client_cert-file o o₁ h given = elim (Result-cases (T.read_file o.tls_client_cert_path)) [
    | inl (text, read) ↦ ground arith
    | inr (e, bad) ↦ absurd (ground arith)
  ]

  read_client_key-file :
      (o o₁ : HttpClientOpts)
      → read_client_key T o ≡ ok o₁
      → o.tls_client_key_path ≢ ""
      → T.read_file o.tls_client_key_path ≡ ok o₁.tls_client_key
  unfolding read_client_key
  read_client_key-file o o₁ h given = elim (Result-cases (T.read_file o.tls_client_key_path)) [
    | inl (text, read) ↦ ground arith
    | inr (e, bad) ↦ absurd (ground arith)
  ]

  read_client_key-keeps :
      (o o₁ : HttpClientOpts)
      → read_client_key T o ≡ ok o₁
      → o₁ ≡ record o { tls_client_key = o₁.tls_client_key }
  unfolding read_client_key
  read_client_key-keeps o o₁ h = ground arith

  load_root_cas-same :
      (o : HttpClientOpts) (cert key : String)
      → load_root_cas T (record o { tls_client_cert = cert; tls_client_key = key })
        ≡ load_root_cas T o
  unfolding load_root_cas
  load_root_cas-same o cert key = refl

  -- With no error, no setting was given twice; the client has a certificate exactly when a certificate
  -- and a key are there in the end, given or read, and it never has one without the other; and the
  -- defaults of net/http are overwritten with the options.
  pub make_http_client-done :
      (o : HttpClientOpts) (d : HttpDefaults T) (o' : HttpClientOpts) (d' : HttpDefaults T)
      → make_http_client T o d ≡ (none, o', d')
      → AtMostOne o.ca_cert_path o.ca_cert
        × AtMostOne o.tls_client_cert_path o.tls_client_cert
        × AtMostOne o.tls_client_key_path o.tls_client_key
        × ((o'.tls_client_cert ≡ "") ↔ (o'.tls_client_key ≡ ""))
        × ((pool : Option T.CertPool) × (certs : List T.Certificate) × (load_root_cas T o ≡ ok pool)
            × (client_certificates T o' ≡ ok certs)
            × ((certs ≡ []) ↔ (o'.tls_client_cert ≡ ""))
            × (d' ≡ install T o' pool certs))
  make_http_client-done o d o' d' h =
      let st = stages o d o' d' h in
      let (cert_once, key_once) = client-AtMostOne o st.checked in
      let (paired, used) = certificates-paired o' st.certs st.paired in
      (
        root_cas-AtMostOne o st.pool st.loaded,
        cert_once,
        key_once,
        paired,
        (st.pool, st.certs, st.loaded, st.paired, used, st.installed),
      )

  read_client_cert-headers :
      (o o₁ : HttpClientOpts) → read_client_cert T o ≡ ok o₁ → o₁.headers ≡ o.headers
  unfolding read_client_cert
  read_client_cert-headers o o₁ h = ground arith

  -- The client carries the headers of the options.
  pub make_http_client-headers :
      (o : HttpClientOpts) (d : HttpDefaults T) (o' : HttpClientOpts) (d' : HttpDefaults T)
      → make_http_client T o d ≡ (none, o', d')
      → d'.client_headers ≡ some o.headers
  make_http_client-headers o d o' d' h =
      let st = stages o d o' d' h in
      cc (
        read_client_cert-headers o st.o₁ st.read_cert,
        ap (λ (x : HttpClientOpts). x.headers) (read_client_key-keeps st.o₁ o' st.read_key),
        ap (λ (x : HttpDefaults T). x.client_headers) st.installed,
      )

  -- With an error, the defaults of net/http stay as they were.
  pub make_http_client-failed :
      (o : HttpClientOpts) (d : HttpDefaults T) (e : Error) (o' : HttpClientOpts)
      (d' : HttpDefaults T)
      → make_http_client T o d ≡ (some e, o', d')
      → d' ≡ d
  unfolding make_http_client
  make_http_client-failed o d e o' d' h = ground arith

  -- The value is the text of the file, which is not empty.
  pub record IsFromFile (path value : String) : Type 0 where
    pub given : path ≢ ""
    pub read : T.read_file path ≡ ok value
    pub full : value ≢ ""

  check_client_flags-refused :
      (o : HttpClientOpts) (e : Error) (pool : Option T.CertPool) (d : HttpDefaults T)
      → load_root_cas T o ≡ ok pool
      → check_client_flags T o ≡ some e
      → make_http_client T o d ≡ (some e, o, d)
  unfolding make_http_client
  check_client_flags-refused o e pool d loaded refused = ground arith

  cert_refused :
      (o : HttpClientOpts)
      → IsFromFile o.tls_client_cert_path o.tls_client_cert
      → check_client_flags T o ≡ some (both_set "kong-admin-tls-client-cert")
  unfolding check_client_flags
  cert_refused o file = ground (arith, file.given, file.full)

  key_refused :
      (o : HttpClientOpts)
      → o.tls_client_cert_path ≡ ""
      → IsFromFile o.tls_client_key_path o.tls_client_key
      → check_client_flags T o ≡ some (both_set "kong-admin-tls-client-key")
  unfolding check_client_flags
  key_refused o none_given file = ground (arith, file.given, file.full)

  -- What a call that gives no error has read into the options, and nothing else of them has changed.
  record OptionsRead (o o' : HttpClientOpts) : Type 0 where
    kept :
        o' ≡ record o { tls_client_cert = o'.tls_client_cert; tls_client_key = o'.tls_client_key }
    cert : o.tls_client_cert_path ≢ "" → T.read_file o.tls_client_cert_path ≡ ok o'.tls_client_cert
    key : o.tls_client_key_path ≢ "" → T.read_file o.tls_client_key_path ≡ ok o'.tls_client_key

  options_read : (o o' : HttpClientOpts) (d' : HttpDefaults T) → Stages o o' d' → OptionsRead o o'
  options_read o o' d' st =
      let first = read_client_cert-keeps o st.o₁ st.read_cert in
      let second = read_client_key-keeps st.o₁ o' st.read_key in
      let path = ap (λ (x : HttpClientOpts). x.tls_client_key_path) first in
      record {
        kept = ground arith;
        cert = λ given.
            read_client_cert-file o st.o₁ st.read_cert given
            ∙ sym (ap (λ (x : HttpClientOpts). ok x.tls_client_cert) second);
        key = λ given.
            ap T.read_file (sym path)
            ∙ read_client_key-file st.o₁ o' st.read_key (λ e. given (sym path ∙ e));
      }

  texts_full :
      (o o' : HttpClientOpts) (d' : HttpDefaults T) (st : Stages o o' d') (text : String)
      → IsFromFile o.tls_client_cert_path text ⊎ IsFromFile o.tls_client_key_path text
      → (o'.tls_client_cert ≢ "") × (o'.tls_client_key ≢ "")
  texts_full o o' d' st text from_file =
      let read = options_read o o' d' st in
      let (paired, used) = certificates-paired o' st.certs st.paired in
      elim from_file [
        | inl cert ↦
            let same : o'.tls_client_cert ≡ text =
              ground (arith, read.cert cert.given, cert.read) in
            (λ e. cert.full (sym same ∙ e), λ e. cert.full (sym same ∙ paired.1 e))
        | inr key ↦
            let same : o'.tls_client_key ≡ text = ground (arith, read.key key.given, key.read) in
            (λ e. key.full (sym same ∙ paired.0 e), λ e. key.full (sym same ∙ e))
      ]

  -- A call that gives no error has read a certificate or a key from a file that is not empty. Then the
  -- caller's options hold the text of the file beside its path, and a second call with them fails with
  -- the message that the one or the other must be removed: for the certificate, if that was read, and
  -- otherwise for the key.
  pub make_http_client-twice :
      (o : HttpClientOpts) (d d' : HttpDefaults T) (o' : HttpClientOpts) (text : String)
      → make_http_client T o d ≡ (none, o', d')
      → IsFromFile o.tls_client_cert_path text ⊎ IsFromFile o.tls_client_key_path text
      → (IsFromFile o'.tls_client_cert_path o'.tls_client_cert
          × (o'.tls_client_cert_path ≡ o.tls_client_cert_path)
          × (make_http_client T o' d' ≡ (some (both_set "kong-admin-tls-client-cert"), o', d')))
        ⊎ (IsFromFile o'.tls_client_key_path o'.tls_client_key
            × (o'.tls_client_key_path ≡ o.tls_client_key_path)
            × (o.tls_client_cert_path ≡ "")
            × (make_http_client T o' d' ≡ (some (both_set "kong-admin-tls-client-key"), o', d')))
  make_http_client-twice o d d' o' text h from_file =
      let st = stages o d o' d' h in
      let read = options_read o o' d' st in
      let loaded : load_root_cas T o' ≡ ok st.pool =
        ap (load_root_cas T) read.kept
        ∙ (load_root_cas-same o o'.tls_client_cert o'.tls_client_key ∙ st.loaded) in
      let cert_path = ap (λ (x : HttpClientOpts). x.tls_client_cert_path) read.kept in
      let key_path = ap (λ (x : HttpClientOpts). x.tls_client_key_path) read.kept in
      let (cert_full, key_full) = texts_full o o' d' st text from_file in
      elim (string_dec o.tls_client_cert_path "") [
        | no given ↦
            let file : IsFromFile o'.tls_client_cert_path o'.tls_client_cert =
              rw cert_path (record { given = given; read = read.cert given; full = cert_full }) in
            inl (
              file,
              cert_path,
              check_client_flags-refused o' _ st.pool d' loaded (cert_refused o' file),
            )
        | yes none_given ↦
            let given : o.tls_client_key_path ≢ "" = elim from_file [
              | inl cert ↦ absurd (cert.given none_given)
              | inr key ↦ key.given
            ] in
            let file : IsFromFile o'.tls_client_key_path o'.tls_client_key =
              rw key_path (record { given = given; read = read.key given; full = key_full }) in
            inr (
              file,
              key_path,
              none_given,
              check_client_flags-refused o' _ st.pool d' loaded
                  (key_refused o' (cert_path ∙ none_given) file),
            )
      ]
