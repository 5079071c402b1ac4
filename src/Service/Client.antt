-- ===== src/Service/Client.antt =====
-- The file record of internal/kong/types.go, and what the service uses of github.com/kong/go-kong.
use kong_portal_controller.Base.{
  String, ◌<>◌, ◌≡◌, ◌≢◌, Bool, true, false, Option, none, some, string_eq, ℕ, Result, ok,
}

pub record File : Type 0 where
  pub checksum : Option String
  pub id : Option String
  pub created_at : Option ℕ
  pub path : Option String
  pub contents : Option String

-- `kong.Client`. `send req true` is `Do(ctx, req, &response)`, and `send req false` is
-- `Do(ctx, req, nil)`, whose response no caller reads.
pub record KongClient : Type 1 where
  pub Server : Type 0
  pub Request : Type 0
  pub new_request : String → String → Option File → Result Request
  pub send : Request → Bool → Server → Result File × Server

-- The `/files` endpoint of the Admin API: a call changes at most the file that its URL names; a PUT
-- or DELETE that succeeds has stored or removed it; a GET changes nothing, and is answered by an
-- error (404) where there is no file.
pub record IsFilesApi (K : KongClient) : Type 0 where
  pub contents_at : K.Server → String → Option String
  pub others :
      (method path q : String) (body : Option File) (req : K.Request) (decode : Bool) (s : K.Server)
      → K.new_request method ("/files/" <> path) body ≡ ok req
      → q ≢ path
      → contents_at (K.send req decode s).1 q ≡ contents_at s q
  pub put_done :
      (path contents : String) (file : File) (req : K.Request) (s : K.Server) (response : File)
      → file.path ≡ some path
      → file.contents ≡ some contents
      → K.new_request "PUT" ("/files/" <> path) (some file) ≡ ok req
      → (K.send req true s).0 ≡ ok response
      → contents_at (K.send req true s).1 path ≡ some contents
  pub delete_done :
      (path : String) (req : K.Request) (s : K.Server) (response : File)
      → K.new_request "DELETE" ("/files/" <> path) none ≡ ok req
      → (K.send req false s).0 ≡ ok response
      → contents_at (K.send req false s).1 path ≡ none
  pub get_keeps :
      (path q : String) (req : K.Request) (s : K.Server)
      → K.new_request "GET" ("/files/" <> path) none ≡ ok req
      → contents_at (K.send req true s).1 q ≡ contents_at s q
  pub get_found :
      (path : String) (req : K.Request) (s : K.Server) (response : File)
      → K.new_request "GET" ("/files/" <> path) none ≡ ok req
      → (K.send req true s).0 ≡ ok response
      → contents_at s path ≢ none
