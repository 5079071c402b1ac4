-- ===== src/Fixtures/Registries.antt =====
-- A registry of metrics.
use kong_portal_controller.Base.{
  ◌≡◌, Bool, true, false, none, some, List, [], ◌∷◌, ◌++◌, arith, String, ◌==◌, string_eq, nat_eq,
  ◌||◌, if◌then◌else◌,
}
use kong_portal_controller.Metrics.{Collector, metric_name, RegistryLib, IsRegistry}

-- A registry is the list of the registered names.
abbrev pub registered : List String → String → Bool
registered [] name = false
registered (n ∷ r) name = n == name || registered r name

abbrev names : List (Collector (Unit {0})) → List String
names [] = []
names (c ∷ cs) = metric_name c ∷ names cs

abbrev registered_any : List String → List (Collector (Unit {0})) → Bool
registered_any r [] = false
registered_any r (c ∷ cs) = registered r (metric_name c) || registered_any r cs

abbrev pub registries : RegistryLib
registries = record {
  Registry = List String;
  Buckets = Unit {0};
  exponential_buckets = λ start factor count. tt;
  must_register = λ cs r. if registered_any r cs then none else some (names cs ++ r);
}

registries-register :
    (c : Collector (Unit {0})) (cs : List (Collector (Unit {0}))) (r r' : List String)
    → registries.must_register (c ∷ cs) r ≡ some r'
    → registered r' (metric_name c) ≡ true
registries-register c cs r r' h = ground arith

registries-refuse :
    (c : Collector (Unit {0})) (cs : List (Collector (Unit {0}))) (r : List String)
    → registered r (metric_name c) ≡ true
    → registries.must_register (c ∷ cs) r ≡ none
registries-refuse c cs r h = ground arith

pub registries-IsRegistry : IsRegistry registries
registries-IsRegistry = record {
  has = registered;
  registers = registries-register;
  refuses = registries-refuse;
}

-- The registry after the start.
abbrev pub taken : List String
taken =
    "portal_controller_configuration_push_count" ∷ "portal_controller_translation_count"
    ∷ "portal_controller_configuration_push_duration_milliseconds" ∷ []
