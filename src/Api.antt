-- ===== src/Api.antt =====
-- pkg/apis/v1: the custom resource KongFile and its group.
use kong_portal_controller.Base.{ℕ, String, Bool, Option, List}

-- `type Kind string`: any text may stand there.
abbrev pub Kind : Type 0
Kind = String

abbrev pub content_kind : Kind
content_kind = "CONTENT"

abbrev pub specification_kind : Kind
specification_kind = "SPECIFICATION"

abbrev pub asset_kind : Kind
asset_kind = "ASSET"

pub record KongFileSpec : Type 0 where
  pub layout : String
  pub path : String
  pub title : String
  pub name : String
  pub content : String
  pub kind : Kind

pub record KongFileStatus : Type 0 where
  pub validated : Bool

-- The part of `metav1.ObjectMeta` that the controller reads. A deletion timestamp is a pointer to
-- an instant.
pub record ObjectMeta : Type 0 where
  pub namespace : String
  pub name : String
  pub annotations : List (String × String)
  pub deletion_timestamp : Option ℕ

pub record KongFile : Type 0 where
  pub meta : ObjectMeta
  pub spec : KongFileSpec
  pub status : KongFileStatus

pub record GroupVersion : Type 0 where
  pub group : String
  pub version : String

abbrev pub scheme_group_version : GroupVersion
scheme_group_version = record { group = "developer.konghq.com"; version = "v1" }

pub record GroupVersionResource : Type 0 where
  pub group : String
  pub version : String
  pub resource : String
