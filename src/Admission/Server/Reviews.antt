-- ===== src/Admission/Server/Reviews.antt =====
-- What the webhook answers.
use kong_portal_controller.Base.{
  ◌≡◌, refl, ◌↔◌, inl, inr, true, false, not, Option, none, some, arith, Error, Result, ok, err,
  returns, panics, Result-cases, Option-cases, string_eq, nat_eq, if◌then◌else◌,
}
use kong_portal_controller.Api.{KongFile}
use kong_portal_controller.Admission.{validate_kong_file}
use kong_portal_controller.Admission.Checks.{IsComplete, validate_kong_file_iff}
use kong_portal_controller.Admission.Server.{
  AdmissionRequest, AdmissionResponse, AdmissionReview, Codec, written, handle_validation,
  serve_http, is_kong_file_resource,
}

module _ (J : Codec) where
  -- A request about a KongFile that decodes is answered under its own UID; it is allowed exactly when
  -- the KongFile is complete, and the code is 400 exactly when it is not allowed.
  pub handle_validation-answers :
      (request : AdmissionRequest J.Bytes) (f : KongFile)
      → is_kong_file_resource request.resource ≡ true
      → J.decode request.raw ≡ ok f
      → (response : AdmissionResponse) × (handle_validation J request ≡ ok response)
        × (response.uid ≡ request.uid)
        × ((response.allowed ≡ true) ↔ IsComplete f)
        × ((response.code ≡ 400) ↔ (response.allowed ≡ false))
  unfolding handle_validation
  handle_validation-answers request f about decoded = (
    record {
      uid = request.uid;
      allowed = (validate_kong_file f).0;
      message_text = (validate_kong_file f).1;
      code = if not (validate_kong_file f).0 then 400 else 0;
    },
    ground arith,
    refl,
    (validate_kong_file_iff f).0,
    ground arith,
  )

  -- The webhook panics exactly on a review that decodes and has no request.
  pub serve_http-panics_iff :
      (body : Option (Result J.Bytes)) (write : J.Bytes → Option Error)
      → (serve_http J body write ≡ panics) ↔ (
          (input : J.Bytes) × (review : AdmissionReview J.Bytes) × (body ≡ some (ok input))
          × (J.unmarshal input ≡ ok review)
          × (review.request ≡ none))
  unfolding serve_http
  serve_http-panics_iff none write = (λ h. cc, λ (input, review, e, u, n). cc)
  serve_http-panics_iff (some (err e)) write = (λ h. cc, λ (input, review, e', u, n). ground arith)
  serve_http-panics_iff (some (ok input)) write = elim (Result-cases (J.unmarshal input)) [
    | inl (review, e) ↦ (
      λ h. (input, review, refl, e, ground arith),
      λ (input', review', same, e', n). ground arith,
    )
    | inr (bad, e) ↦ (λ h. ground arith, λ (input', review', same, e', n). ground arith)
  ]

  -- Whatever arrives, a review is written back only for a request about a KongFile that decodes; the
  -- bytes are those of the review with the answer of `handleValidation` put in.
  pub serve_http-written :
      (body : Option (Result J.Bytes)) (write : J.Bytes → Option Error) (bytes : J.Bytes)
      → serve_http J body write ≡ returns (written bytes)
      → (review : AdmissionReview J.Bytes) × (request : AdmissionRequest J.Bytes)
        × (response : AdmissionResponse) × (review.request ≡ some request)
        × (handle_validation J request ≡ ok response)
        × (J.marshal (record review { response = some response }) ≡ ok bytes)
        × (write bytes ≡ none)
  unfolding serve_http
  serve_http-written none write bytes h = cc
  serve_http-written (some (err e)) write bytes h = cc
  serve_http-written (some (ok input)) write bytes h = elim (Result-cases (J.unmarshal input)) [
    | inl (review, e) ↦ elim (Option-cases review.request) [
      | inl missing ↦ absurd (ground arith)
      | inr (request, given) ↦ elim (Result-cases (handle_validation J request)) [
        | inl (response, answered) ↦
            (review, request, response, given, answered, ground arith, ground arith)
        | inr (bad, failed) ↦ absurd (ground arith)
      ]
    ]
    | inr (bad, e) ↦ absurd (ground arith)
  ]
