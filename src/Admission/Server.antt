-- ===== src/Admission/Server.antt =====
-- internal/admission/server.go: the webhook that answers admission reviews.
pub mod Reviews
use kong_portal_controller.Base.{
  ℕ, ◌<◌, String, ◌<>◌, ap, Bool, not, ◌&&◌, Option, none, some, Error, error_text, message, Result,
  ok, err, Outcome, returns, panics, ◌==◌, string_eq, nat_eq, if◌then◌else◌,
}
use kong_portal_controller.Api.{KongFile, GroupVersionResource, scheme_group_version}
use kong_portal_controller.Admission.{validate_kong_file}

abbrev pub kong_file_resource : GroupVersionResource
kong_file_resource = record {
  group = scheme_group_version.group;
  version = scheme_group_version.version;
  resource = "kongfiles";
}

-- `request.Resource == kongFileGVResource` compares the three texts.
abbrev pub is_kong_file_resource : GroupVersionResource → Bool
is_kong_file_resource r =
    r.group == kong_file_resource.group
    && r.version == kong_file_resource.version
    && r.resource == kong_file_resource.resource

pub record AdmissionRequest (Bytes : Type 0) : Type 0 where
  pub uid : String
  pub resource : GroupVersionResource
  pub raw : Bytes

-- `Code` is 0 where the handler leaves it alone.
pub record AdmissionResponse : Type 0 where
  pub uid : String
  pub allowed : Bool
  pub message_text : String
  pub code : ℕ

-- A review: the pointer to its request, and the response that the handler puts in.
pub record AdmissionReview (Bytes : Type 0) : Type 0 where
  pub request : Option (AdmissionRequest Bytes)
  pub response : Option AdmissionResponse

-- The encodings of k8s.io/api and encoding/json.
pub record Codec : Type 1 where
  pub Bytes : Type 0
  pub decode : Bytes → Result KongFile
  pub unmarshal : Bytes → Result (AdmissionReview Bytes)
  pub marshal : AdmissionReview Bytes → Result Bytes

-- What the handler sends: `http.Error` with its code, or the review with code 200. Where the write of
-- the review fails, `http.Error` is called after it.
pub data HttpReply (Bytes : Type 0) : Type 0 where
  http_error : ℕ → String → HttpReply Bytes
  written : Bytes → HttpReply Bytes
  write_failed : Bytes → ℕ → String → HttpReply Bytes

module _ (J : Codec) where
  unfoldable pub handle_validation : AdmissionRequest J.Bytes → Result AdmissionResponse
  handle_validation request =
      if is_kong_file_resource request.resource
      then elim (J.decode request.raw) [
        | err e ↦ err e
        | ok f ↦
            let (valid, text) = validate_kong_file f in
            ok (record {
              uid = request.uid;
              allowed = valid;
              message_text = text;
              code = if not valid then 400 else 0;
            })
      ]
      else err (
          message (
            "unknown resource type to validate: "
            <> (request.resource.group
                <> ("/" <> (request.resource.version <> (" " <> request.resource.resource))))))

  -- The end of `ServeHTTP`: the review goes back with its response.
  unfoldable pub send_review :
      AdmissionReview J.Bytes → AdmissionResponse → (J.Bytes → Option Error) → HttpReply J.Bytes
  send_review review response write =
      elim (J.marshal (record review { response = some response })) [
        | err e ↦ http_error 500 (error_text e)
        | ok bytes ↦ elim (write bytes) [
          | none ↦ written bytes
          | some e ↦ write_failed bytes 500 (error_text e)
        ]
      ]

  -- `body` is nil, or what reading it gives. `*review.Request` panics on a review with no request.
  unfoldable pub serve_http :
      Option (Result J.Bytes) → (J.Bytes → Option Error) → Outcome (HttpReply J.Bytes)
  unfolding handle_validation send_review
  serve_http none write = returns (http_error 400 "admission review object is missing")
  serve_http (some (err e)) write = returns (http_error 500 (error_text e))
  serve_http (some (ok input)) write = elim (J.unmarshal input) [
    | err e ↦ returns (http_error 400 (error_text e))
    | ok review ↦ elim review.request [
      | none ↦ panics
      | some request ↦ elim (handle_validation request) [
        | err e ↦ returns (http_error 500 (error_text e))
        | ok response ↦ returns (send_review review response write)
      ]
    ]
  ]
