-- ===== src/Admission/Checks.antt =====
-- What the validation accepts, and what it lets through that Kong's proxy refuses.
use kong_portal_controller.Base.{◌≡◌, ◌≢◌, ◌↔◌, ◌⊎◌, true, false, some, arith, string_eq, nat_eq}
use text.Mathlib.TextEquality.{eq_iff}
use kong_portal_controller.Api.{KongFile, content_kind}
use kong_portal_controller.Build.Folders.{is_known_kind}
use kong_portal_controller.Admission.{
  validate_kong_file, kong_file_name_empty, spec_name_empty, spec_path_empty, spec_title_empty,
  spec_layout_empty,
}
use kong_portal_controller.Service.{path_error}
use kong_portal_controller.Service.Client.{KongClient}
use kong_portal_controller.Store.{kong_file}
use kong_portal_controller.Store.Cache.{CacheLib, IsCache, Memory, Ref}
use kong_portal_controller.Proxy.{Backend, update_object}
use kong_portal_controller.Proxy.Laws.{unknown_kind-refused}

-- What the documentation of the resource asks of a KongFile.
pub record IsComplete (f : KongFile) : Type 0 where
  pub named : f.meta.name ≢ ""
  pub file_named : f.spec.name ≢ ""
  pub placed : f.spec.path ≢ ""
  pub titled : (f.spec.kind ≢ content_kind) ⊎ ((f.spec.title ≢ "") × (f.spec.layout ≢ ""))

-- A KongFile is valid exactly when it has a resource name, a file name and a path, and, if its kind
-- is CONTENT, a title and a layout. A message is given exactly when it is not valid.
pub validate_kong_file_iff :
    (f : KongFile)
    → ((validate_kong_file f).0 ≡ true ↔ IsComplete f)
      × ((validate_kong_file f).1 ≡ "" ↔ (validate_kong_file f).0 ≡ true)
unfolding validate_kong_file
validate_kong_file_iff f = (
  (λ h. ground arith, λ h. ground arith),
  ground (
    arith,
    eq_iff kong_file_name_empty "",
    eq_iff spec_name_empty "",
    eq_iff spec_path_empty "",
    eq_iff spec_title_empty "",
    eq_iff spec_layout_empty "",
  ),
)

-- The validation looks at the kind only to tell CONTENT from the rest: a valid KongFile whose kind is
-- none of the three is refused by the proxy on every attempt, without a request to Kong.
pub valid_yet_refused :
    (C : CacheLib) (K : KongClient) (L : IsCache C) (mem : Memory) (r : Ref) (b : Backend C K)
    → IsComplete (mem.cell r)
    → is_known_kind (mem.cell r).spec.kind ≡ false
    → ((validate_kong_file (mem.cell r)).0 ≡ true)
      × ((update_object C K mem (kong_file r) b).0 ≡ some (path_error "Update"))
      × ((update_object C K mem (kong_file r) b).1.server ≡ b.server)
valid_yet_refused C K L mem r b complete unknown =
    let (refused, unsent, _) = unknown_kind-refused C K L mem r b unknown in
    ((validate_kong_file_iff (mem.cell r)).0.1 complete, refused, unsent)
