-- ===== src/Service/Files.antt =====
-- What each method of the file service does to the files of Kong, over the documented `/files`
-- endpoint.
use kong_portal_controller.Base.{
  String, ◌<>◌, ◌≡◌, ◌≢◌, inl, inr, true, false, none, some, arith, Result-cases, string_eq, nat_eq,
}
use kong_portal_controller.Service.{
  endpoint, deref, update, delete, get, is_empty_string, path_error,
}
use kong_portal_controller.Service.Client.{File, KongClient, IsFilesApi}

module _ (K : KongClient) (A : IsFilesApi K) where
  -- Sending a file changes no other file, whatever the answer.
  pub update-others :
      (f : File) (s : K.Server) (path q : String)
      → f.path ≡ some path
      → q ≢ path
      → A.contents_at (update K f s).1 q ≡ A.contents_at s q
  unfolding update
  update-others f s path q e apart =
      elim (Result-cases (K.new_request "PUT" ("/files/" <> path) (some f))) [
        | inl (req, made) ↦ ground (arith, A.others "PUT" path q (some f) req true s made apart)
        | inr (bad, failed) ↦ ground arith
      ]

  -- A file that was sent with no error has a path that is not blank, and its contents are in Kong.
  pub update-done :
      (f : File) (s : K.Server) (path contents : String)
      → f.path ≡ some path
      → f.contents ≡ some contents
      → (update K f s).0.1 ≡ none
      → (is_empty_string f.path ≡ false) × (A.contents_at (update K f s).1 path ≡ some contents)
  unfolding update
  update-done f s path contents e c fine =
      elim (Result-cases (K.new_request "PUT" ("/files/" <> path) (some f))) [
        | inl (req, made) ↦ elim (Result-cases (K.send req true s).0) [
          | inl (response, answered) ↦
              ground (arith, A.put_done path contents f req s response e c made answered)
          | inr (bad, failed) ↦ ground arith
        ]
        | inr (bad, failed) ↦ ground arith
      ]

  pub delete-others :
      (f : File) (s : K.Server) (path q : String)
      → f.path ≡ some path
      → q ≢ path
      → A.contents_at (delete K f s).1 q ≡ A.contents_at s q
  unfolding delete
  delete-others f s path q e apart =
      elim (Result-cases (K.new_request "DELETE" ("/files/" <> path) none)) [
        | inl (req, made) ↦ ground (arith, A.others "DELETE" path q none req false s made apart)
        | inr (bad, failed) ↦ ground arith
      ]

  pub delete-done :
      (f : File) (s : K.Server) (path : String)
      → f.path ≡ some path
      → (delete K f s).0.1 ≡ none
      → (is_empty_string f.path ≡ false) × (A.contents_at (delete K f s).1 path ≡ none)
  unfolding delete
  delete-done f s path e fine =
      elim (Result-cases (K.new_request "DELETE" ("/files/" <> path) none)) [
        | inl (req, made) ↦ elim (Result-cases (K.send req false s).0) [
          | inl (response, answered) ↦
              ground (arith, A.delete_done path req s response made answered)
          | inr (bad, failed) ↦ ground arith
        ]
        | inr (bad, failed) ↦ ground arith
      ]

  -- Reading changes nothing.
  pub get-keeps :
      (f : File) (s : K.Server) (q : String) → A.contents_at (get K f s).1 q ≡ A.contents_at s q
  unfolding get
  get-keeps f s q = elim (Result-cases (K.new_request "GET" (endpoint f.path) none)) [
    | inl (req, made) ↦ ground (arith, A.get_keeps (deref f.path) q req s made)
    | inr (bad, failed) ↦ ground arith
  ]

  -- `Get` with no error has a file, and the file is in Kong.
  pub get-found :
      (f : File) (s : K.Server) (path : String)
      → f.path ≡ some path
      → (get K f s).0.1 ≡ none
      → ((get K f s).0.0 ≢ none) × (A.contents_at s path ≢ none)
  unfolding get
  get-found f s path e fine = elim (Result-cases (K.new_request "GET" ("/files/" <> path) none)) [
    | inl (req, made) ↦ elim (Result-cases (K.send req true s).0) [
      | inl (response, answered) ↦ ground (arith, A.get_found path req s response made answered)
      | inr (bad, failed) ↦ ground arith
    ]
    | inr (bad, failed) ↦ ground arith
  ]

-- A blank path is refused by `Get`, `Update` and `Delete` before anything is sent.
pub blank-path-refused :
    (K : KongClient) (f : File) (s : K.Server)
    → is_empty_string f.path ≡ true
    → (get K f s ≡ ((none, some (path_error "Get")), s))
      × (update K f s ≡ ((none, some (path_error "Update")), s))
      × (delete K f s ≡ ((some f, some (path_error "Delete")), s))
unfolding get update delete
blank-path-refused K f s blank = (rw blank, rw blank, rw blank)
