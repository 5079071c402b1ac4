-- ===== src/Service.antt =====
-- internal/kong: files of the developer portal, and the service that sends them to Kong's Admin API.
pub mod Client
pub mod Blank
pub mod Files
pub mod Traffic
use kong_portal_controller.Base.{
  String, ◌<>◌, Bool, true, false, Option, none, some, ◌==◌, string_eq, if◌then◌else◌, Error,
  message, ok, err, Outcome, returns, panics,
}
use kong_portal_controller.Base.Text.{trim_space}
use kong_portal_controller.Service.Client.{File, KongClient}

-- The pair `(*File, error)` of the service's methods.
abbrev pub Answer : Type 0
Answer = Option File × Option Error

unfoldable pub is_empty_string : Option String → Bool
is_empty_string none = true
is_empty_string (some s) = trim_space s == ""

-- `*p` where the code has checked that `p` is not nil.
abbrev pub deref : Option String → String
deref none = ""
deref (some s) = s

-- `fmt.Sprintf("/files/%v", *file.Path)`
abbrev pub endpoint : Option String → String
endpoint path = "/files/" <> deref path

abbrev pub path_error : String → Error
path_error operation = message ("Path cannot be nil for " <> (operation <> " operation"))

module _ (K : KongClient) where
  -- `NewRequest`, then `Do` into a fresh `File`: the shared end of `Create`, `Get` and `Update`.
  unfoldable pub exchange : String → String → Option File → K.Server → Answer × K.Server
  exchange method url body s = elim (K.new_request method url body) [
    | err e ↦ ((none, some e), s)
    | ok req ↦
        let (response, s') = K.send req true s in
        (elim response [ ok f ↦ (some f, none) | err e ↦ (none, some e) ], s')
  ]

  -- `Create` reads the path with no check.
  unfoldable pub create : File → K.Server → Outcome (Answer × K.Server)
  unfolding exchange
  create file s = elim file.path [
    | none ↦ panics
    | some path ↦ returns (exchange "PUT" ("/files/" <> path) (some file) s)
  ]

  unfoldable pub get : File → K.Server → Answer × K.Server
  unfolding exchange
  get file s =
      if is_empty_string file.path
      then ((none, some (path_error "Get")), s)
      else exchange "GET" (endpoint file.path) none s

  unfoldable pub update : File → K.Server → Answer × K.Server
  unfolding exchange
  update file s =
      if is_empty_string file.path
      then ((none, some (path_error "Update")), s)
      else exchange "PUT" (endpoint file.path) (some file) s

  unfoldable pub delete : File → K.Server → Answer × K.Server
  delete file s =
      if is_empty_string file.path
      then ((some file, some (path_error "Delete")), s)
      else elim (K.new_request "DELETE" (endpoint file.path) none) [
        | err e ↦ ((some file, some e), s)
        | ok req ↦
            let (response, s') = K.send req false s in
            (elim response [ ok f ↦ (some file, none) | err e ↦ (some file, some e) ], s')
      ]
