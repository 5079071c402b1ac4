-- ===== src/Diagnostics.antt =====
-- internal/diagnostics/server.go: the handlers of the diagnostics server. `Listen` is in
-- Diagnostics/Listen. Log lines are left out.
pub mod Listen
pub mod Interleavings
pub mod Endings
pub mod Handlers
use kong_portal_controller.Base.{
  ℕ, zero, suc, ◌<>◌, String, Bool, Option, none, some, List, [], ◌∷◌, ◌++◌, Error, Outcome,
  returns, panics, blocks, if◌then◌else◌,
}

-- What the server does with a request: `http.Redirect` to a URL with a status, or a handler of
-- net/http/pprof.
pub data Handler : Type 0 where
  redirect : (url : String) (code : ℕ) → Handler
  pprof_index pprof_cmdline pprof_profile pprof_symbol pprof_trace : Handler

-- `http.StatusFound`, `http.StatusInternalServerError`
abbrev pub status_found : ℕ
status_found = 302

abbrev pub status_internal_server_error : ℕ
status_internal_server_error = 500

abbrev pub redirect_to : String → Handler
redirect_to to = redirect to status_found

-- `http.ServeMux`. `handle_func` is `none` where `HandleFunc` panics.
pub record MuxLib : Type 1 where
  pub Mux : Type 0
  pub new_serve_mux : Mux
  pub handle_func : String → Handler → Mux → Option Mux

-- The handlers in the order of their registration.
abbrev pub profiling_handlers : List (String × Handler)
profiling_handlers =
    ("/debug/pprof", redirect_to "/debug/pprof/")
    ∷ ("/debug/pprof/", pprof_index)
    ∷ ("/debug/pprof/heap", pprof_index)
    ∷ ("/debug/pprof/mutex", pprof_index)
    ∷ ("/debug/pprof/goroutine", pprof_index)
    ∷ ("/debug/pprof/threadcreate", pprof_index)
    ∷ ("/debug/pprof/block", pprof_index)
    ∷ ("/debug/pprof/cmdline", pprof_cmdline)
    ∷ ("/debug/pprof/profile", pprof_profile)
    ∷ ("/debug/pprof/symbol", pprof_symbol)
    ∷ ("/debug/pprof/trace", pprof_trace)
    ∷ []

-- A `sync.RWMutex`: how many readers hold it, and whether a writer does.
pub record RwMutex : Type 0 where
  pub readers : ℕ
  pub writer : Bool

-- `diagnostics.Server` without its logger.
pub record Server : Type 0 where
  pub profiling_enabled : Bool
  pub config_lock : Option RwMutex

-- `http.Server` with its address and its handler.
pub record HttpServer (Mux : Type 0) : Type 0 where
  pub addr : String
  pub handler : Mux

module _ (X : MuxLib) where
  unfoldable pub register_all : List (String × Handler) → X.Mux → Outcome X.Mux
  register_all [] mux = returns mux
  register_all ((pattern, handler) ∷ rest) mux = elim (X.handle_func pattern handler mux) [
    | none ↦ panics
    | some mux' ↦ register_all rest mux'
  ]

  unfoldable pub install_profiling_handlers : X.Mux → Outcome X.Mux
  install_profiling_handlers mux = register_all profiling_handlers mux

  -- The server that `Listen` starts to serve. The port is as `%d` prints it.
  unfoldable pub http_server : Server → String → Outcome (HttpServer X.Mux)
  http_server s port =
      elim (if s.profiling_enabled
        then install_profiling_handlers X.new_serve_mux
        else returns X.new_serve_mux) [
          | returns mux ↦ returns (record { addr = ":" <> port; handler = mux })
          | panics ↦ panics
          | blocks ↦ blocks
        ]

-- What a handler does with its `http.ResponseWriter`.
pub data WriterCall : Type 0 where
  set_header : (key value : String) → WriterCall
  write : String → WriterCall
  write_header : (code : ℕ) → WriterCall

-- The encoder of encoding/json: the writes of `Encode`, and its error.
pub record ContentLib : Type 1 where
  pub Content : Type 0
  pub encode : Content → List String × Option Error

abbrev pub written : List String → List WriterCall
written [] = []
written (s ∷ ss) = write s ∷ written ss

-- `RLock` waits for a writer.
unfoldable pub r_lock : RwMutex → Outcome RwMutex
r_lock m = if m.writer then blocks else returns (record m { readers = suc m.readers })

abbrev pub r_unlock : RwMutex → RwMutex
r_unlock m = record m { readers = elim m.readers [ zero ↦ 0 | suc n ↦ n ] }

-- The calls of the writer, and the lock afterwards. A lock or a configuration that is nil is dereferenced.
unfoldable pub last_config :
    (D : ContentLib) → Option D.Content → Option RwMutex → Outcome (List WriterCall × RwMutex)
last_config D config lock = elim lock [
  | none ↦ panics
  | some m ↦ elim (r_lock m) [
    | panics ↦ panics
    | blocks ↦ blocks
    | returns held ↦ elim config [
      | none ↦ panics
      | some content ↦
          let (sent, failed) = D.encode content in
          let body = set_header "Content-Type" "application/json" ∷ written sent in
          elim failed [
            | none ↦ returns (body, r_unlock held)
            | some e ↦
                returns (body ++ write_header status_internal_server_error ∷ [], r_unlock held)
          ]
    ]
  ]
]
