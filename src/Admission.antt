-- ===== src/Admission.antt =====
-- internal/admission/validator.go and errors.go: the checks on a KongFile.
pub mod Server
pub mod Tls
pub mod Checks
use kong_portal_controller.Base.{
  String, Bool, true, false, not, message, err, ◌==◌, string_eq, nat_eq, if◌then◌else◌,
}
use kong_portal_controller.Api.{KongFile, content_kind}

abbrev pub kong_file_name_empty : String
kong_file_name_empty = "resource name cannot be empty"

abbrev pub spec_name_empty : String
spec_name_empty = "file name cannot be empty"

abbrev pub spec_path_empty : String
spec_path_empty = "file path cannot be empty"

abbrev pub spec_title_empty : String
spec_title_empty = "file title cannot be empty"

abbrev pub spec_layout_empty : String
spec_layout_empty = "file layout cannot be empty"

-- The method's error is always nil, so the model has the Boolean and the message.
unfoldable pub validate_kong_file : KongFile → Bool × String
validate_kong_file f =
    if f.meta.name == ""
    then (false, kong_file_name_empty)
    else if f.spec.name == ""
    then (false, spec_name_empty)
    else if f.spec.path == ""
    then (false, spec_path_empty)
    else if f.spec.kind == content_kind
    then (if f.spec.title == ""
        then (false, spec_title_empty)
        else if f.spec.layout == ""
        then (false, spec_layout_empty)
        else (true, ""))
    else (true, "")
