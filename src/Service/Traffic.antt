-- ===== src/Service/Traffic.antt =====
-- The requests that reach Kong: the client of the file service with a record of what it sends.
use kong_portal_controller.Base.{
  ℕ, suc, String, ◌≡◌, ◌⊎◌, inl, inr, false, Option, none, some, List, [], ◌∷◌, arith, ok, err,
  Result-cases, string_eq, nat_eq,
}
use kong_portal_controller.Service
use kong_portal_controller.Service.{endpoint, is_empty_string}
use kong_portal_controller.Service.Client.{File, KongClient}

-- A request as the client was asked to make it.
pub record Sent : Type 0 where
  pub method : String
  pub url : String
  pub body : Option File

abbrev pub length {ℓ} : {A : Type ℓ} → List A → ℕ
length [] = 0
length (a ∷ rest) = suc (length rest)

-- The client that does as `K` does, and writes each request down, the last first.
abbrev pub recorded : KongClient → KongClient
recorded K = record {
  Server = K.Server × List Sent;
  Request = K.Request × Sent;
  new_request = λ method url body. elim (K.new_request method url body) [
    | err e ↦ err e
    | ok req ↦ ok (req, record { method = method; url = url; body = body })
  ];
  send = λ req decode s. ((K.send req.0 decode s.0).0, ((K.send req.0 decode s.0).1, req.1 ∷ s.1));
}

module _ (K : KongClient) where
  -- Nothing was sent, or this request about a file whose path is not blank.
  abbrev pub Sends : Sent → File → List Sent → List Sent → Type 0
  Sends x f before after =
      (after ≡ before) ⊎ ((is_empty_string f.path ≡ false) × (after ≡ x ∷ before))

  abbrev pub put_of : File → Sent
  put_of f = record { method = "PUT"; url = endpoint f.path; body = some f }

  abbrev pub get_of : File → Sent
  get_of f = record { method = "GET"; url = endpoint f.path; body = none }

  abbrev pub delete_of : File → Sent
  delete_of f = record { method = "DELETE"; url = endpoint f.path; body = none }

  -- The recording changes nothing, and `Update` sends at most the one PUT.
  pub update-recorded :
      (f : File) (s : K.Server) (log : List Sent)
      → ((Service.update (recorded K) f (s, log)).0 ≡ (Service.update K f s).0)
        × ((Service.update (recorded K) f (s, log)).1.0 ≡ (Service.update K f s).1)
        × Sends (put_of f) f log (Service.update (recorded K) f (s, log)).1.1
  unfolding Service.update
  update-recorded f s log = elim (Result-cases (K.new_request "PUT" (endpoint f.path) (some f))) [
    | inl (req, made) ↦ ground arith
    | inr (e, bad) ↦ ground arith
  ]

  pub get-recorded :
      (f : File) (s : K.Server) (log : List Sent)
      → ((Service.get (recorded K) f (s, log)).0 ≡ (Service.get K f s).0)
        × ((Service.get (recorded K) f (s, log)).1.0 ≡ (Service.get K f s).1)
        × Sends (get_of f) f log (Service.get (recorded K) f (s, log)).1.1
  unfolding Service.get
  get-recorded f s log = elim (Result-cases (K.new_request "GET" (endpoint f.path) none)) [
    | inl (req, made) ↦ ground arith
    | inr (e, bad) ↦ ground arith
  ]

  pub delete-recorded :
      (f : File) (s : K.Server) (log : List Sent)
      → ((Service.delete (recorded K) f (s, log)).0 ≡ (Service.delete K f s).0)
        × ((Service.delete (recorded K) f (s, log)).1.0 ≡ (Service.delete K f s).1)
        × Sends (delete_of f) f log (Service.delete (recorded K) f (s, log)).1.1
  unfolding Service.delete
  delete-recorded f s log = elim (Result-cases (K.new_request "DELETE" (endpoint f.path) none)) [
    | inl (req, made) ↦ ground arith
    | inr (e, bad) ↦ ground arith
  ]
