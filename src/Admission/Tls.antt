-- ===== src/Admission/Tls.antt =====
-- internal/admission/server.go: the key pair of the webhook's TLS server.
use kong_portal_controller.Base.{
  quoted, String, ◌<>◌, ◌≡◌, sym, ap, ◌∙◌, ◌≢◌, ◌↔◌, ◌⊎◌, inl, inr, Bool, not, ◌&&◌, arith, Error,
  message, Result, ok, err, ◌>>=◌, context, Result-cases, ◌==◌, string_eq, nat_eq, if◌then◌else◌,
}

pub record ServerConfig : Type 0 where
  pub listen_addr : String
  pub cert_path : String
  pub cert : String
  pub key_path : String
  pub key : String

abbrev pub default_cert_path : String
default_cert_path = "/admission-webhook/tls.crt"

abbrev pub default_key_path : String
default_key_path = "/admission-webhook/tls.key"

-- The file system and crypto/tls.
pub record TlsLib : Type 1 where
  pub KeyPair : Type 0
  pub read_file : String → Result String
  pub x509_key_pair : String → String → Result KeyPair

-- `http.Server` with its address and its key pair.
pub record TlsServer (KeyPair : Type 0) : Type 0 where
  pub addr : String
  pub key_pair : KeyPair

-- Where the key pair comes from.
pub data Source : Type 0 where
  given : (cert key : String) → Source
  files : (cert_path key_path : String) → Source
  contradictory : Source

abbrev is_set : String → Bool
is_set s = not (s == "")

-- The `switch` of `toTLSConfig`.
unfoldable pub source_of : ServerConfig → Source
source_of c =
    if c.cert_path == "" && c.key_path == "" && is_set c.cert && is_set c.key
    then given c.cert c.key
    else if is_set c.cert_path && is_set c.key_path && c.cert == "" && c.key == ""
    then files c.cert_path c.key_path
    else if c.cert_path == "" && c.key_path == "" && c.cert == "" && c.key == ""
    then files default_cert_path default_key_path
    else contradictory

module _ (T : TlsLib) where
  unfoldable pub read_key_pair_files : String → String → Result (String × String)
  read_key_pair_files cert_path key_path = do
    cert ← context ("read cert from file " <> quoted cert_path) (T.read_file cert_path)
    key ← context ("read key from file " <> quoted key_path) (T.read_file key_path)
    ok (cert, key)

  abbrev pub conflict : Error
  conflict = message "either cert/key files OR cert/key values must be provided, or none"

  abbrev contents : Source → Result (String × String)
  contents (given cert key) = ok (cert, key)
  contents (files cert_path key_path) = read_key_pair_files cert_path key_path
  contents contradictory = err conflict

  unfoldable pub to_tls_config : ServerConfig → Result T.KeyPair
  unfolding source_of read_key_pair_files
  to_tls_config c = do
    (cert, key) ← contents (source_of c)
    context "X509KeyPair error" (T.x509_key_pair cert key)

  unfoldable pub make_tls_server : ServerConfig → Result (TlsServer T.KeyPair)
  unfolding to_tls_config
  make_tls_server c = do
    pair ← to_tls_config c
    ok (record { addr = c.listen_addr; key_pair = pair })

-- The three sound ways to configure the key pair: both values, both paths, or nothing.
abbrev pub IsGiven : ServerConfig → Type 0
IsGiven c = (c.cert ≢ "") × (c.key ≢ "") × (c.cert_path ≡ "") × (c.key_path ≡ "")

abbrev pub IsFiles : ServerConfig → Type 0
IsFiles c = (c.cert ≡ "") × (c.key ≡ "") × (c.cert_path ≢ "") × (c.key_path ≢ "")

abbrev pub IsDefault : ServerConfig → Type 0
IsDefault c = (c.cert ≡ "") × (c.key ≡ "") × (c.cert_path ≡ "") × (c.key_path ≡ "")

-- The key pair is made of the contents of two files.
abbrev pub IsPairOf : (T : TlsLib) → String → String → T.KeyPair → Type 0
IsPairOf T cert_path key_path pair =
    (cert key : String) × (T.read_file cert_path ≡ ok cert)
    × (T.read_file key_path ≡ ok key)
    × (T.x509_key_pair cert key ≡ ok pair)

abbrev load : (T : TlsLib) → Source → Result T.KeyPair
load T source = do
  (cert, key) ← contents T source
  context "X509KeyPair error" (T.x509_key_pair cert key)

context-eq-ok {ℓ} :
    {A : Type ℓ} (text : String) (r : Result A) (a : A) → (context text r ≡ ok a) ↔ (r ≡ ok a)
context-eq-ok text (ok b) a = (λ h. h, λ h. h)
context-eq-ok text (err e) a = (λ h. cc, λ h. cc)

load-files :
    (T : TlsLib) (cert_path key_path : String) (pair : T.KeyPair)
    → (load T (files cert_path key_path) ≡ ok pair) ↔ IsPairOf T cert_path key_path pair
unfolding read_key_pair_files
load-files T cert_path key_path pair = elim (Result-cases (T.read_file cert_path)) [
  | inl (cert, c) ↦ elim (Result-cases (T.read_file key_path)) [
    | inl (key, k) ↦ (
      λ h. (
        cert,
        key,
        c,
        k,
        ground (arith, context-eq-ok "X509KeyPair error" (T.x509_key_pair cert key) pair),
      ),
      λ (cert', key', c', k', made). ground arith,
    )
    | inr (e, k) ↦ (λ h. ground arith, λ (cert', key', c', k', made). ground arith)
  ]
  | inr (e, c) ↦ (λ h. ground arith, λ (cert', key', c', k', made). ground arith)
]

given-source : (c : ServerConfig) → IsGiven c → source_of c ≡ given c.cert c.key
unfolding source_of
given-source c h = ground arith

files-source : (c : ServerConfig) → IsFiles c → source_of c ≡ files c.cert_path c.key_path
unfolding source_of
files-source c h = ground arith

default-source :
    (c : ServerConfig) → IsDefault c → source_of c ≡ files default_cert_path default_key_path
unfolding source_of
default-source c h = ground arith

source-cases :
    (c : ServerConfig) → IsGiven c ⊎ (IsFiles c ⊎ (IsDefault c ⊎ (source_of c ≡ contradictory)))
unfolding source_of
source-cases c = ground arith

-- The TLS configuration is built exactly when the settings are one of the three sound ways and the
-- key pair made of the given values, or of the contents of the files, is accepted.
pub to_tls_config_iff :
    (T : TlsLib) (c : ServerConfig) (pair : T.KeyPair)
    → (to_tls_config T c ≡ ok pair) ↔ (
        (IsGiven c × (T.x509_key_pair c.cert c.key ≡ ok pair))
        ⊎ ((IsFiles c × IsPairOf T c.cert_path c.key_path pair)
            ⊎ (IsDefault c × IsPairOf T default_cert_path default_key_path pair)))
unfolding to_tls_config
to_tls_config_iff T c pair = (
  λ h. elim (source-cases c) [
    | inl g ↦ inl (
      g,
      ground (
        arith,
        given-source c g,
        context-eq-ok "X509KeyPair error" (T.x509_key_pair c.cert c.key) pair,
      ),
    )
    | inr (inl f) ↦ inr (
        inl (
          f,
          (load-files T c.cert_path c.key_path pair).0 (sym (ap (load T) (files-source c f)) ∙ h),
        ))
    | inr (inr (inl d)) ↦ inr (
        inr (
          d,
          (load-files T default_cert_path default_key_path pair).0
              (sym (ap (load T) (default-source c d)) ∙ h),
        ))
    | inr (inr (inr bad)) ↦ absurd (ground (arith, bad))
  ],
  λ h. elim h [
    | inl (g, made) ↦ ground (
      arith,
      given-source c g,
      context-eq-ok "X509KeyPair error" (T.x509_key_pair c.cert c.key) pair,
    )
    | inr (inl (f, made)) ↦
        ap (load T) (files-source c f) ∙ (load-files T c.cert_path c.key_path pair).1 made
    | inr (inr (d, made)) ↦
        ap (load T) (default-source c d)
        ∙ (load-files T default_cert_path default_key_path pair).1 made
  ],
)
