-- ===== src/Build.antt =====
-- internal/dataplane/proxy/cached_proxy_resolver.go: `Build`, from a KongFile to a file of Kong.
pub mod Folders
pub mod Page
use kong_portal_controller.Base.{
  ◌<◌, String, ◌<>◌, ap, none, some, ◌==◌, string_eq, nat_eq, if◌then◌else◌,
}
use kong_portal_controller.Api.{KongFile, content_kind, asset_kind, specification_kind}
use kong_portal_controller.Service.Client.{File}

-- `Path` and `Contents`; the other fields of the new `File` stay nil.
abbrev file_of : String → String → File
file_of path contents = record {
  checksum = none;
  id = none;
  created_at = none;
  path = some path;
  contents = some contents;
}

abbrev pub in_folder : String → KongFile → String
in_folder folder f = folder <> (f.spec.path <> ("/" <> f.spec.name))

-- The contents of a page, with its front matter.
abbrev pub page : KongFile → String
page f =
    "---\n"
    <> ("title: "
        <> (f.spec.title
            <> ("\n" <> ("layout: " <> (f.spec.layout <> ("\n" <> ("---\n" <> f.spec.content)))))))

unfoldable pub build : KongFile → File
build f =
    if f.spec.kind == content_kind
    then file_of (in_folder "content/" f) (page f)
    else if f.spec.kind == asset_kind
    then file_of (in_folder "base/assets/" f) f.spec.content
    else if f.spec.kind == specification_kind
    then file_of (in_folder "specs/" f) f.spec.content
    else file_of "" ""
