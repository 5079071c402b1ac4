-- ===== src/Metrics.antt =====
-- internal/metrics/prometheus.go: the metrics of the controller and their registration.
use kong_portal_controller.Base.{
  ℕ, String, ◌<>◌, ◌≡◌, Bool, true, Option, none, some, List, [], ◌∷◌, arith, Outcome, returns,
  panics,
}

abbrev success_true : String
success_true = "true"

abbrev success_false : String
success_false = "false"

abbrev success_key : String
success_key = "success"

abbrev protocol_dbless : String
protocol_dbless = "db-less"

abbrev protocol_deck : String
protocol_deck = "deck"

abbrev protocol_key : String
protocol_key = "protocol"

abbrev metric_name_config_push_count : String
metric_name_config_push_count = "portal_controller_configuration_push_count"

abbrev metric_name_translation_count : String
metric_name_translation_count = "portal_controller_translation_count"

abbrev metric_name_config_push_duration : String
metric_name_config_push_duration = "portal_controller_configuration_push_duration_milliseconds"

-- A collector of client_golang: a counter or a histogram, by its name and its labels.
pub data Collector (Buckets : Type 0) : Type 0 where
  counter_vec : (name help : String) (labels : List String) → Collector Buckets
  histogram_vec :
      (name help : String) (buckets : Buckets) (labels : List String) → Collector Buckets

abbrev pub metric_name : {Buckets : Type 0} → Collector Buckets → String
metric_name (counter_vec name help labels) = name
metric_name (histogram_vec name help buckets labels) = name

-- The registry of client_golang. `must_register` is `none` where `MustRegister` panics. The factor of
-- `exponential_buckets` is given in hundredths.
pub record RegistryLib : Type 1 where
  pub Registry : Type 0
  pub Buckets : Type 0
  pub exponential_buckets : (start factor count : ℕ) → Buckets
  pub must_register : List (Collector Buckets) → Registry → Option Registry

-- A metric is registered at most once: a registration that succeeds leaves each of its names
-- registered, and one with a name that is registered already panics.
pub record IsRegistry (P : RegistryLib) : Type 0 where
  pub has : P.Registry → String → Bool
  pub registers :
      (c : Collector P.Buckets) (cs : List (Collector P.Buckets)) (r r' : P.Registry)
      → P.must_register (c ∷ cs) r ≡ some r'
      → has r' (metric_name c) ≡ true
  pub refuses :
      (c : Collector P.Buckets) (cs : List (Collector P.Buckets)) (r : P.Registry)
      → has r (metric_name c) ≡ true
      → P.must_register (c ∷ cs) r ≡ none

module _ (P : RegistryLib) where
  pub record CtrlFuncMetrics : Type 0 where
    pub config_push_count : Collector P.Buckets
    pub translation_count : Collector P.Buckets
    pub config_push_duration : Collector P.Buckets

  abbrev outcome_help : String
  outcome_help =
      "`"
      <> (success_key
          <> ("` describes whether there were unrecoverable errors (`"
              <> (success_false <> ("`) or not (`" <> (success_true <> "`).")))))

  abbrev protocol_help : String
  protocol_help =
      "`"
      <> (protocol_key
          <> ("` describes the developer protocol ("
              <> (protocol_dbless <> (" or " <> (protocol_deck <> ") in use. ")))))

  abbrev pub ctrl_func_metrics : CtrlFuncMetrics
  ctrl_func_metrics = record {
    config_push_count =
        counter_vec metric_name_config_push_count
          ("Count of successful/failed developer pushes to Kong. "
            <> (protocol_help <> outcome_help))
          (success_key ∷ protocol_key ∷ []);
    translation_count =
        counter_vec metric_name_translation_count
          ("Count of translations from Kubernetes state to Kong state. " <> outcome_help)
          (success_key ∷ []);
    config_push_duration =
        histogram_vec metric_name_config_push_duration
          ("How long it took to push the developer to Kong, in milliseconds. "
            <> (protocol_help <> outcome_help))
          (P.exponential_buckets 100 133 30) (success_key ∷ protocol_key ∷ []);
  }

  abbrev pub collectors : CtrlFuncMetrics → List (Collector P.Buckets)
  collectors m = m.config_push_count ∷ m.translation_count ∷ m.config_push_duration ∷ []

  unfoldable pub new_ctrl_func_metrics : P.Registry → Outcome (CtrlFuncMetrics × P.Registry)
  new_ctrl_func_metrics r = elim (P.must_register (collectors ctrl_func_metrics) r) [
    | none ↦ panics
    | some r' ↦ returns (ctrl_func_metrics, r')
  ]

  -- Once the metrics are made, they can never be made again with the registry that is left.
  pub metrics_made_once :
      (L : IsRegistry P) (r r' : P.Registry) (m : CtrlFuncMetrics)
      → new_ctrl_func_metrics r ≡ returns (m, r')
      → new_ctrl_func_metrics r' ≡ panics
  unfolding new_ctrl_func_metrics
  metrics_made_once L r r' m h =
      let first = ctrl_func_metrics.config_push_count in
      let rest =
        ctrl_func_metrics.translation_count ∷ ctrl_func_metrics.config_push_duration ∷ [] in
      ground (arith, L.registers first rest r r', L.refuses first rest r')
