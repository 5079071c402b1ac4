-- ===== src/Tests/Starting.antt =====
-- The theorems on the start of the controller at concrete configurations.
use kong_portal_controller.Base.{
  ◌≢◌, [], ◌∷◌, String, String, ◌≡◌, refl, ◌↔◌, ◌⊎◌, [], ◌∷◌, Result, ok, returns, string_eq,
  nat_eq, string_dec,
}
use kong_portal_controller.Admission.Tls.{
  IsGiven, IsFiles, IsDefault, IsPairOf, default_cert_path, default_key_path, to_tls_config,
  to_tls_config_iff,
}
use kong_portal_controller.Manager.Options.{
  IsServiceName, IsOptionsFor, base_options, setup_controller_options, setup_controller_options_iff,
}
use kong_portal_controller.Proxy.Startup.{as_fields, as_text, new_cache_based_proxy, built_once}
use kong_portal_controller.Fixtures.Registries.{taken, registries-IsRegistry}
use kong_portal_controller.Fixtures.Startup.{config, resolver, root, tls, versions}

setup_controller_options_iff_example :
    (setup_controller_options config ≡ ok (base_options config ("kong" ∷ []))) ↔ (
      ((config.publish_service ≡ "") × IsOptionsFor config [] (base_options config ("kong" ∷ [])))
      ⊎ ((namespace : String) × IsServiceName config.publish_service namespace
          × IsOptionsFor config (namespace ∷ []) (base_options config ("kong" ∷ []))))
setup_controller_options_iff_example =
    setup_controller_options_iff config (base_options config ("kong" ∷ []))

to_tls_config_iff_example :
    (to_tls_config tls config.admission_server ≡ ok (default_cert_path, default_key_path)) ↔ (
      (IsGiven config.admission_server
        × (◌≡◌ {A = Result (String × String)}
            (ok ("", ""))
            (ok (default_cert_path, default_key_path))))
      ⊎ ((IsFiles config.admission_server
            × IsPairOf tls "" "" (default_cert_path, default_key_path))
          ⊎ (IsDefault config.admission_server
              × IsPairOf tls default_cert_path default_key_path
                  (default_cert_path, default_key_path))))
to_tls_config_iff_example =
    to_tls_config_iff tls config.admission_server (default_cert_path, default_key_path)

started : new_cache_based_proxy versions (ok root) [] ≡ returns (ok resolver, taken)
unfolding new_cache_based_proxy as_fields as_text string_dec
started = refl

built_once_example : new_cache_based_proxy versions (ok root) taken ≢ returns (ok resolver, taken)
built_once_example =
    built_once versions registries-IsRegistry (ok root) (ok root) resolver resolver [] taken taken
      started
