-- ===== src/Fixtures/Servers.antt =====
-- An Admin API that keeps the files it is sent while it is up, and a cluster that keeps KongFiles.
use kong_portal_controller.Base.{
  ℕ, String, ◌<>◌, ◌≡◌, refl, ap, ◌∙◌, ◌≢◌, Bool, true, false, Option, none, some, List, [], arith,
  Error, error_text, message, Result, ok, err, ◌==◌, string_eq, nat_eq, string_dec, if◌then◌else◌,
}
use text.Mathlib.TextLemmas.{append_cancel_left}
use kong_portal_controller.Annotations.{lookup}
use kong_portal_controller.Api.{KongFile}
use kong_portal_controller.Service.Client.{File, KongClient, IsFilesApi}
use kong_portal_controller.Store.{key_of}
use kong_portal_controller.Reconciler.{KubeClient}
use kong_portal_controller.Reconciler.Invariant.{KeepsNames, key_of_file}
use kong_portal_controller.Fixtures.{insert, erase, lookup-insert, lookup-erase}

-- The files by URL, and whether the server answers.
pub record Portal : Type 0 where
  pub files : List (String × String)
  pub up : Bool

pub record PortalRequest : Type 0 where
  pub method : String
  pub url : String
  pub body : Option File

abbrev pub blank_file : File
blank_file = record { checksum = none; id = none; created_at = none; path = none; contents = none }

abbrev pub text_of : Option File → String
text_of none = ""
text_of (some f) = elim f.contents [ none ↦ "" | some c ↦ c ]

-- Which operation a request asks for.
pub data Operation : Type 0 where
  put get delete unsupported : Operation

abbrev pub operation : String → Operation
operation m =
    if m == "PUT"
    then put
    else if m == "GET"
    then get
    else if m == "DELETE"
    then delete
    else unsupported

abbrev pub answer : PortalRequest → Operation → Portal → Result File × Portal
answer r put s = (ok blank_file, record s { files = insert r.url (text_of r.body) s.files })
answer r get s = (
  elim (lookup r.url s.files) [ none ↦ err (message "HTTP status 404") | some c ↦ ok blank_file ],
  s,
)
answer r delete s = (ok blank_file, record s { files = erase r.url s.files })
answer r unsupported s = (err (message "HTTP status 405"), s)

unfoldable pub serve : PortalRequest → Portal → Result File × Portal
serve r s =
    if s.up then answer r (operation r.method) s else (err (message "connection refused"), s)

abbrev pub portal : KongClient
portal = record {
  Server = Portal;
  Request = PortalRequest;
  new_request = λ method url body. ok (record { method = method; url = url; body = body });
  send = λ r decode s. serve r s;
}

abbrev pub file_at : Portal → String → Option String
file_at s path = lookup ("/files/" <> path) s.files

operations : (operation "PUT" ≡ put) × (operation "GET" ≡ get) × (operation "DELETE" ≡ delete)
unfolding string_dec
operations = (refl, refl, refl)

abbrev as_request : String → String → Option File → PortalRequest
as_request method path body = record { method = method; url = "/files/" <> path; body = body }

url-injective : (q path : String) → q ≢ path → "/files/" <> q ≢ "/files/" <> path
url-injective q path apart e = apart (append_cancel_left "/files/" q path e)

others :
    (method path q : String) (body : Option File) (s : Portal)
    → q ≢ path
    → file_at (serve (as_request method path body) s).1 q ≡ file_at s q
unfolding serve
others method path q body s apart = ground (
  arith,
  url-injective q path apart,
  lookup-insert ("/files/" <> path) ("/files/" <> q) (text_of body) s.files,
  lookup-erase ("/files/" <> path) ("/files/" <> q) s.files,
)

put_done :
    (path contents : String) (f : File) (s : Portal) (response : File)
    → f.contents ≡ some contents
    → (serve (as_request "PUT" path (some f)) s).0 ≡ ok response
    → file_at (serve (as_request "PUT" path (some f)) s).1 path ≡ some contents
unfolding serve
put_done path contents f s response c h = ground (
  arith,
  operations,
  lookup-insert ("/files/" <> path) ("/files/" <> path) (text_of (some f)) s.files,
)

delete_done :
    (path : String) (s : Portal) (response : File)
    → (serve (as_request "DELETE" path none) s).0 ≡ ok response
    → file_at (serve (as_request "DELETE" path none) s).1 path ≡ none
unfolding serve
delete_done path s response h =
    ground (arith, operations, lookup-erase ("/files/" <> path) ("/files/" <> path) s.files)

get_keeps :
    (path q : String) (s : Portal)
    → file_at (serve (as_request "GET" path none) s).1 q ≡ file_at s q
unfolding serve
get_keeps path q s = ground (arith, operations)

get_found :
    (path : String) (s : Portal) (response : File)
    → (serve (as_request "GET" path none) s).0 ≡ ok response
    → file_at s path ≢ none
unfolding serve
get_found path s response h = ground (arith, operations)

-- A request that was made is the one that was asked for.
made : {a b : PortalRequest} → ◌≡◌ {A = Result PortalRequest} (ok a) (ok b) → a ≡ b
made e = cc

pub portal-others :
    (method path q : String) (body : Option File) (req : PortalRequest) (decode : Bool) (s : Portal)
    → portal.new_request method ("/files/" <> path) body ≡ ok req
    → q ≢ path
    → file_at (portal.send req decode s).1 q ≡ file_at s q
portal-others method path q body req decode s e apart =
    rw (← made e) (others method path q body s apart)

pub portal-put :
    (path contents : String) (f : File) (req : PortalRequest) (s : Portal) (response : File)
    → f.path ≡ some path
    → f.contents ≡ some contents
    → portal.new_request "PUT" ("/files/" <> path) (some f) ≡ ok req
    → (portal.send req true s).0 ≡ ok response
    → file_at (portal.send req true s).1 path ≡ some contents
portal-put path contents f req s response p c e h =
    rw (← made e) (
      put_done path contents f s response c
        (ap (λ (r : PortalRequest). (serve r s).0) (made e) ∙ h))

pub portal-delete :
    (path : String) (req : PortalRequest) (s : Portal) (response : File)
    → portal.new_request "DELETE" ("/files/" <> path) none ≡ ok req
    → (portal.send req false s).0 ≡ ok response
    → file_at (portal.send req false s).1 path ≡ none
portal-delete path req s response e h =
    rw (← made e)
      (delete_done path s response (ap (λ (r : PortalRequest). (serve r s).0) (made e) ∙ h))

pub portal-get_keeps :
    (path q : String) (req : PortalRequest) (s : Portal)
    → portal.new_request "GET" ("/files/" <> path) none ≡ ok req
    → file_at (portal.send req true s).1 q ≡ file_at s q
portal-get_keeps path q req s e = rw (← made e) (get_keeps path q s)

pub portal-get_found :
    (path : String) (req : PortalRequest) (s : Portal) (response : File)
    → portal.new_request "GET" ("/files/" <> path) none ≡ ok req
    → (portal.send req true s).0 ≡ ok response
    → file_at s path ≢ none
portal-get_found path req s response e h =
    get_found path s response (ap (λ (r : PortalRequest). (serve r s).0) (made e) ∙ h)

abbrev pub portal-IsFilesApi : IsFilesApi portal
portal-IsFilesApi = record {
  contents_at = file_at;
  others = portal-others;
  put_done = portal-put;
  delete_done = portal-delete;
  get_keeps = portal-get_keeps;
  get_found = portal-get_found;
}

-- A cluster that keeps KongFiles under namespace and name.
abbrev pub cluster_get :
    String → String → List (String × KongFile) → KongFile → Option Error × KongFile
cluster_get namespace name s blank = elim (lookup (key_of namespace name) s) [
  | none ↦ (some (message "not found"), blank)
  | some obj ↦ (none, obj)
]

abbrev pub blank_kong_file : KongFile
blank_kong_file = record {
  meta = record { namespace = ""; name = ""; annotations = []; deletion_timestamp = none };
  spec = record { layout = ""; path = ""; title = ""; name = ""; content = ""; kind = "" };
  status = record { validated = false };
}

abbrev pub is_zero_time : Option ℕ → Bool
is_zero_time none = true
is_zero_time (some t) = t == 0

abbrev pub cluster : KubeClient
cluster = record {
  Cluster = List (String × KongFile);
  get = λ namespace name s. cluster_get namespace name s blank_kong_file;
  update_status = λ obj s. ((none, obj), insert (key_of_file obj) obj s);
  is_not_found = λ e. error_text e == "not found";
  is_zero = is_zero_time;
}

pub cluster-KeepsNames : KeepsNames cluster
cluster-KeepsNames obj s = refl
