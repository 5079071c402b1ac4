-- ===== src/Manager/Webhook.antt =====
-- internal/manager/setup.go: `setupLoggers` and `setupAdmissionServer`.
use kong_portal_controller.Base.{String, ◌≡◌, arith, Result, ok, ◌>>=◌, context, string_eq, nat_eq}
use kong_portal_controller.Logging.{Logger, make_logger}
use kong_portal_controller.Admission.Tls.{TlsLib, TlsServer, make_tls_server}
use kong_portal_controller.Manager.{Config}

-- The logger becomes that of controller-runtime, too.
unfoldable pub setup_loggers : Config → Result Logger
setup_loggers c = context "failed to make logger" (make_logger c.log_level c.log_format)

-- The server that a goroutine then listens with.
unfoldable pub setup_admission_server : (T : TlsLib) → Config → Result (TlsServer T.KeyPair)
setup_admission_server T c = do
  logger ← make_logger c.log_level c.log_format
  make_tls_server T c.admission_server

-- The configuration with another address for the webhook.
abbrev pub listen_on : String → Config → Config
listen_on addr c = record c {
  admission_server = record (c.admission_server) { listen_addr = addr };
}

-- The address does not decide whether the webhook starts: with any other address, "off" among them,
-- it starts or fails as before, and what starts listens on that address.
pub address_ignored :
    (T : TlsLib) (c : Config) (addr : String)
    → setup_admission_server T (listen_on addr c)
      ≡ (do server ← setup_admission_server T c; ok (record server { addr = addr }))
unfolding setup_admission_server make_tls_server
address_ignored T c addr = ground arith
