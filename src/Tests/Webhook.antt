-- ===== src/Tests/Webhook.antt =====
-- The admission webhook on reviews of a sample specification.
use kong_portal_controller.Base.{
  String, ◌≡◌, refl, ◌↔◌, true, false, Option, none, some, message, Result, ok, err, panics, ◌==◌,
  string_eq, nat_eq, string_dec, if◌then◌else◌,
}
use kong_portal_controller.Api.{KongFile}
use kong_portal_controller.Admission.Checks.{IsComplete}
use kong_portal_controller.Admission.Server.{
  AdmissionRequest, AdmissionResponse, AdmissionReview, Codec, handle_validation, serve_http,
  kong_file_resource, is_kong_file_resource,
}
use kong_portal_controller.Admission.Server.Reviews.{
  handle_validation-answers, serve_http-panics_iff,
}
use kong_portal_controller.Fixtures.Scenes.{specification}

-- A codec on texts: "review" is a review of the sample, "empty" one with no request.
abbrev request : AdmissionRequest String
request = record { uid = "u-1"; resource = kong_file_resource; raw = "sample" }

abbrev decode : String → Result KongFile
decode text = if text == "sample" then ok specification else err (message "no object")

abbrev unmarshal : String → Result (AdmissionReview String)
unmarshal text =
    if text == "review"
    then ok (record { request = some request; response = none })
    else if text == "empty"
    then ok (record { request = none; response = none })
    else err (message "no review")

abbrev codec : Codec
codec = record {
  Bytes = String;
  decode = decode;
  unmarshal = unmarshal;
  marshal = λ review. ok "answer";
}

about_kong_file :
    (is_kong_file_resource kong_file_resource ≡ true) × (decode "sample" ≡ ok specification)
unfolding string_dec
about_kong_file = (refl, refl)

handle_validation-answers_example :
    (response : AdmissionResponse) × (handle_validation codec request ≡ ok response)
    × (response.uid ≡ "u-1")
    × ((response.allowed ≡ true) ↔ IsComplete specification)
    × ((response.code ≡ 400) ↔ (response.allowed ≡ false))
handle_validation-answers_example =
    handle_validation-answers codec request specification about_kong_file.0 about_kong_file.1

serve_http-panics_iff_example : (serve_http codec (some (ok "empty")) (λ b. none) ≡ panics) ↔ (
    (input : String) × (review : AdmissionReview String) × (◌≡◌ {A = Option (Result String)}
      (some (ok "empty"))
      (some (ok input)))
    × (unmarshal input ≡ ok review)
    × (review.request ≡ none))
serve_http-panics_iff_example = serve_http-panics_iff codec (some (ok "empty")) (λ b. none)
