-- ===== src/Diagnostics/Handlers.antt =====
-- internal/diagnostics/server.go: what the mux of the diagnostics server answers.
use kong_portal_controller.Base.{
  String, ◌<>◌, ◌≡◌, refl, inl, inr, Bool, true, not, ◌&&◌, Option, none, some, List, [], ◌∷◌, ◌++◌,
  arith, returns, ◌==◌, string_eq, string_dec, nat_eq, if◌then◌else◌, Bool-cases, Option-cases,
}
use mathlib.Core.List.{append-nil}
use kong_portal_controller.Annotations.{lookup}
use kong_portal_controller.Diagnostics.{
  Handler, MuxLib, Server, HttpServer, RwMutex, ContentLib, WriterCall, set_header, write_header,
  written, profiling_handlers, register_all, install_profiling_handlers, http_server, r_lock,
  last_config, status_internal_server_error,
}

-- A new mux has no pattern. A pattern that it has not yet gets its handler, and the others keep
-- theirs.
pub record IsMux (X : MuxLib) : Type 0 where
  pub handler_of : X.Mux → String → Option Handler
  pub fresh : (pattern : String) → handler_of X.new_serve_mux pattern ≡ none
  pub registers :
      (pattern : String) (h : Handler) (m : X.Mux)
      → handler_of m pattern ≡ none
      → (m' : X.Mux) × (X.handle_func pattern h m ≡ some m')
        × ((q : String) → handler_of m' q ≡ (if pattern == q then some h else handler_of m q))

unfoldable absent : String → List (String × Handler) → Bool
absent q [] = true
absent q ((p, h) ∷ rest) = let later = absent q rest in not (p == q) && later

lookup-absent :
    (q : String) (table : List (String × Handler)) → absent q table ≡ true → lookup q table ≡ none
unfolding absent lookup
lookup-absent q [] h = refl
lookup-absent q ((p, handler) ∷ rest) h = ground (arith, lookup-absent q rest)

unfoldable patterns_apart : List (String × Handler) → Bool
patterns_apart [] = true
patterns_apart ((p, h) ∷ rest) = let later = patterns_apart rest in absent p rest && later

profiling_handlers-apart : patterns_apart profiling_handlers ≡ true
unfolding patterns_apart absent string_dec
profiling_handlers-apart = refl

module _ (X : MuxLib) (L : IsMux X) where
  abbrev NoneOf : List (String × Handler) → X.Mux → Type 0
  NoneOf [] m = Unit
  NoneOf ((p, h) ∷ rest) m = (L.handler_of m p ≡ none) × NoneOf rest m

  NoneOf-registers :
      (p : String) (h : Handler) (table : List (String × Handler)) (m m' : X.Mux)
      → absent p table ≡ true
      → ((q : String) → L.handler_of m' q ≡ (if p == q then some h else L.handler_of m q))
      → NoneOf table m
      → NoneOf table m'
  unfolding absent
  NoneOf-registers p h [] m m' apart same free = tt
  NoneOf-registers p h ((q, h') ∷ rest) m m' apart same (here, free) =
      (ground (arith, same q), NoneOf-registers p h rest m m' (ground arith) same free)

  none_registered : (table : List (String × Handler)) → NoneOf table X.new_serve_mux
  none_registered [] = tt
  none_registered ((p, h) ∷ rest) = (L.fresh p, none_registered rest)

  register_all-lookup :
      (table : List (String × Handler)) (m : X.Mux)
      → patterns_apart table ≡ true
      → NoneOf table m
      → (m' : X.Mux) × (register_all X table m ≡ returns m')
        × ((q : String)
            → L.handler_of m' q
              ≡ elim (lookup q table) [ none ↦ L.handler_of m q | some h ↦ some h ])
  unfolding register_all patterns_apart absent lookup
  register_all-lookup [] m apart free = (m, refl, λ q. refl)
  register_all-lookup ((p, h) ∷ rest) m apart (here, free) =
      let (m₁, added, same) = L.registers p h m here in
      let (m', done, found) =
        register_all-lookup rest m₁ (ground arith)
          (NoneOf-registers p h rest m m₁ (ground arith) same free) in
      (m', ground (arith, added, done), λ q. ground (arith, found q, same q, lookup-absent p rest))

-- Over a lawful mux, the server that `Listen` starts always comes about. With profiling it has exactly
-- the patterns of the table, each with its handler, and without profiling it has none; it listens on
-- the port on every address.
pub http_server-handlers :
    (X : MuxLib) (L : IsMux X) (s : Server) (port : String)
    → (server : HttpServer X.Mux) × (http_server X s port ≡ returns server)
      × (server.addr ≡ ":" <> port)
      × ((q : String)
          → L.handler_of server.handler q
            ≡ (if s.profiling_enabled then lookup q profiling_handlers else none))
unfolding http_server install_profiling_handlers
http_server-handlers X L s port = elim (Bool-cases s.profiling_enabled) [
  | inr off ↦ (
    record { addr = ":" <> port; handler = X.new_serve_mux },
    ground (arith, off),
    refl,
    λ q. ground (arith, off, L.fresh q),
  )
  | inl on ↦
      let (m, made, found) =
        register_all-lookup X L profiling_handlers X.new_serve_mux profiling_handlers-apart
          (none_registered X L profiling_handlers) in
      (
        record { addr = ":" <> port; handler = m },
        ground (arith, on, made),
        refl,
        λ q. ground (arith, on, found q, L.fresh q),
      )
]

-- The handler of `lastConfig` gives the lock back as it took it, and sends the status 500 exactly when
-- the configuration cannot be encoded, after what the encoder has written.
pub last_config-calls :
    (D : ContentLib) (content : D.Content) (m m' : RwMutex) (calls : List WriterCall)
    → last_config D (some content) (some m) ≡ returns (calls, m')
    → (m' ≡ m)
      × (calls
          ≡ set_header "Content-Type" "application/json"
            ∷ (written (D.encode content).0 ++ elim (D.encode content).1 [
              | none ↦ []
              | some e ↦ write_header status_internal_server_error ∷ []
            ]))
unfolding last_config r_lock
last_config-calls D content m m' calls h = elim (Option-cases (D.encode content).1) [
  | inl e ↦ (ground (arith, e), ground (arith, e, append-nil (written (D.encode content).0)))
  | inr (bad, e) ↦ (ground (arith, e), ground (arith, e))
]
