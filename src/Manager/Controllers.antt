-- ===== src/Manager/Controllers.antt =====
-- internal/manager/controllerdef.go, and the loop of run.go that sets the controllers up;
-- internal/controllers/utils/utils.go: `CRDExists`; kongfile_controller.go: `SetupWithManager`.
use kong_portal_controller.Base.{
  quoted, String, ◌<>◌, ◌≡◌, Bool, true, false, not, Option, none, some, List, [], ◌∷◌, arith,
  Error, wrap, string_eq, nat_eq, if◌then◌else◌,
}
use kong_portal_controller.Annotations.Filter.{Event, controller_class_filter}
use kong_portal_controller.Api.{GroupVersionResource, scheme_group_version}

-- What the functions use of controller-runtime: the manager's state, the answer of its REST mapper,
-- the test for the error "no match", which is asked of a nil error too, and the builder, which
-- registers a controller for KongFiles under a filter of their events.
pub record ManagerLib : Type 1 where
  pub Manager : Type 0
  pub kind_for : GroupVersionResource → Manager → Option Error
  pub is_no_match : Option Error → Bool
  pub new_controller : (Event → Bool) → Manager → Option Error × Manager

abbrev pub kong_file_crd : GroupVersionResource
kong_file_crd = record {
  group = scheme_group_version.group;
  version = scheme_group_version.version;
  resource = "kongfile";
}

module _ (M : ManagerLib) where
  pub record ControllerDef : Type 0 where
    pub name : String
    pub enabled : Bool
    pub auto_handler : Option (M.Manager → Bool)
    pub setup_with_manager : M.Manager → Option Error × M.Manager

  unfoldable pub crd_exists : GroupVersionResource → M.Manager → Bool
  crd_exists gvr mgr = not (M.is_no_match (M.kind_for gvr mgr))

  abbrev allows : Option (M.Manager → Bool) → M.Manager → Bool
  allows none mgr = true
  allows (some handler) mgr = handler mgr

  unfoldable pub maybe_setup_with_manager : ControllerDef → M.Manager → Option Error × M.Manager
  maybe_setup_with_manager c mgr =
      if not c.enabled
      then (none, mgr)
      else if not (allows c.auto_handler mgr)
      then (none, mgr)
      else c.setup_with_manager mgr

  -- `SetupWithManager` of the reconciler: KongFiles, under the filter of the class.
  unfoldable pub reconciler_setup_with_manager : String → M.Manager → Option Error × M.Manager
  reconciler_setup_with_manager class = M.new_controller (controller_class_filter class false true)

  -- The one controller.
  unfoldable pub setup_controllers : String → List ControllerDef
  unfolding crd_exists reconciler_setup_with_manager
  setup_controllers class =
      record {
        name = "*developer.KongFileReconciler";
        enabled = true;
        auto_handler = some (crd_exists kong_file_crd);
        setup_with_manager = reconciler_setup_with_manager class;
      }
      ∷ []

  -- The loop over the controllers.
  unfoldable pub setup_all : List ControllerDef → M.Manager → Option Error × M.Manager
  unfolding maybe_setup_with_manager
  setup_all [] mgr = (none, mgr)
  setup_all (c ∷ cs) mgr =
      let (failed, mgr') = maybe_setup_with_manager c mgr in
      let rest = setup_all cs mgr' in
      elim failed [
        | none ↦ rest
        | some e ↦ (some (wrap ("unable to create controller " <> quoted c.name) e), mgr')
      ]

  -- The start registers the reconciler, under the filter of its class, exactly when the custom resource
  -- exists in the cluster. If the resource is missing, the start goes on with no controller and no error.
  pub setup_all-reconciler :
      (class : String) (mgr : M.Manager)
      → let made = M.new_controller (controller_class_filter class false true) mgr in
        setup_all (setup_controllers class) mgr ≡ (
          if M.is_no_match (M.kind_for kong_file_crd mgr) then (none, mgr) else elim made.0 [
            | none ↦ (none, made.1)
            | some e ↦ (
              some (
                  wrap
                    ("unable to create controller " <> quoted "*developer.KongFileReconciler")
                    e),
              made.1,
            )
          ])
  unfolding setup_all setup_controllers
  setup_all-reconciler class mgr = ground arith
