-- ===== src/Manager/Options.antt =====
-- internal/manager/setup.go: `setupControllerOptions`.
use kong_portal_controller.Base.{
  ℕ, String, ◌<>◌, ◌≡◌, refl, ap, ◌∙◌, ◌≢◌, ◌↔◌, inl, inr, Bool, true, false, not, Option, none,
  some, List, [], ◌∷◌, ◌++◌, arith, message, Result, ok, err, ◌>>=◌, Result-cases, Option-cases,
  ◌==◌, string_eq, nat_eq, string_dec, ◌⊎◌, if◌then◌else◌,
}
use Prim.Native.String as Str
use mathlib.Core.Path.{subst}
use kong_portal_controller.Base.Int.{ℤ}
use kong_portal_controller.Base.Split.{cut, split_n, Lacks, cut_sound, cut-append, cut-Lacks}
use kong_portal_controller.Manager.{Config}

-- `ctrl.Options`. `new_cache` holds the namespaces given to `MultiNamespacedCacheBuilder`, if any.
pub record Options : Type 0 where
  pub metrics_bind_address : String
  pub port : ℕ
  pub health_probe_bind_address : String
  pub leader_election : Bool
  pub leader_election_id : String
  pub leader_election_namespace : String
  pub sync_period : ℤ
  pub namespace : String
  pub new_cache : Option (List String)

-- `len(publishServiceSplit) != 2`
abbrev two_parts : List String → Option String
two_parts [] = none
two_parts (a ∷ []) = none
two_parts (a ∷ b ∷ []) = some a
two_parts (a ∷ b ∷ c ∷ rest) = none

-- The namespaces that the publish service requires.
unfoldable pub required_namespaces : String → Result (List String)
unfolding split_n
required_namespaces service =
    if not (service == "")
    then elim (two_parts (split_n 3 "/" service)) [
      | none ↦ err (
          message (
            "--publish-service was expected to be in format <namespace>/<name> but got "
            <> service))
      | some namespace ↦ ok (namespace ∷ [])
    ]
    else ok []

abbrev is_nil : List String → Bool
is_nil [] = true
is_nil (x ∷ xs) = false

-- The options, given the required namespaces. `NamespaceAll` is the empty text.
abbrev pub base_options : Config → List String → Options
base_options c required = record {
  metrics_bind_address = c.metrics_addr;
  port = 9443;
  health_probe_bind_address = c.probe_addr;
  leader_election = true;
  leader_election_id = c.leader_election_id;
  leader_election_namespace = c.leader_election_namespace;
  sync_period = c.sync_period;
  namespace = "";
  new_cache = if is_nil c.watch_namespaces then none else some (c.watch_namespaces ++ required);
}

unfoldable pub setup_controller_options : Config → Result Options
setup_controller_options c = do
  required ← required_namespaces c.publish_service
  ok (base_options c required)

-- `<namespace>/<name>`, with no slash in either.
pub record IsServiceName (service namespace : String) : Type 0 where
  pub name : String
  pub whole : service ≡ namespace <> Str.◌∷◌ "/" name
  pub plain_namespace : Lacks "/" namespace
  pub plain_name : Lacks "/" name

required_namespaces_sound :
    (service : String) (required : List String)
    → service ≢ ""
    → required_namespaces service ≡ ok required
    → (namespace : String) × IsServiceName service namespace × (required ≡ namespace ∷ [])
unfolding required_namespaces
required_namespaces_sound service required given h = elim (Option-cases (cut "/" service)) [
  | inl whole ↦ absurd (ground arith)
  | inr ((a, b), e) ↦ elim (Option-cases (cut "/" b)) [
    | inl plain ↦ (
      a,
      record {
        name = b;
        whole = (cut_sound "/" service a b e).0;
        plain_namespace = (cut_sound "/" service a b e).1;
        plain_name = (cut-Lacks "/" b).0 plain;
      },
      ground arith,
    )
    | inr ((b', c), e') ↦ absurd (ground arith)
  ]
]

required_namespaces_complete :
    (service namespace : String)
    → service ≢ ""
    → IsServiceName service namespace
    → required_namespaces service ≡ ok (namespace ∷ [])
unfolding required_namespaces
required_namespaces_complete service namespace given s =
    let first : cut "/" service ≡ some (namespace, s.name) =
      ap (cut "/") s.whole ∙ cut-append "/" namespace s.name s.plain_namespace in
    ground (arith, first, (cut-Lacks "/" s.name).1 s.plain_name)

no_service_name : (namespace : String) → IsServiceName "" namespace → ⊥
unfolding cut
no_service_name namespace form =
    let first : cut "/" "" ≡ some (namespace, form.name) =
      ap (cut "/") form.whole ∙ cut-append "/" namespace form.name form.plain_namespace in
    absurd (ground arith)

-- The options of a start: the addresses, the name of the lease and the period are those of the
-- configuration, a leader is elected, and the cache holds the watched namespaces and the required ones,
-- or every namespace if none is watched.
pub record IsOptionsFor (c : Config) (required : List String) (o : Options) : Type 0 where
  pub metrics : o.metrics_bind_address ≡ c.metrics_addr
  pub webhook_port : o.port ≡ 9443
  pub probe : o.health_probe_bind_address ≡ c.probe_addr
  pub elected : o.leader_election ≡ true
  pub lease : o.leader_election_id ≡ c.leader_election_id
  pub lease_namespace : o.leader_election_namespace ≡ c.leader_election_namespace
  pub period : o.sync_period ≡ c.sync_period
  pub all_namespaces : o.namespace ≡ ""
  pub unrestricted : c.watch_namespaces ≡ [] → o.new_cache ≡ none
  pub restricted : c.watch_namespaces ≢ [] → o.new_cache ≡ some (c.watch_namespaces ++ required)

base_options-IsOptionsFor :
    (c : Config) (required : List String) → IsOptionsFor c required (base_options c required)
base_options-IsOptionsFor c required = record {
  metrics = refl;
  webhook_port = refl;
  probe = refl;
  elected = refl;
  lease = refl;
  lease_namespace = refl;
  period = refl;
  all_namespaces = refl;
  unrestricted = λ e. ground (arith, e);
  restricted = λ e. ground (arith, e);
}

IsOptionsFor-unique :
    (c : Config) (required : List String) (o : Options)
    → IsOptionsFor c required o
    → o ≡ base_options c required
IsOptionsFor-unique c required o h = ground (
  arith, h.metrics, h.webhook_port, h.probe, h.elected, h.lease, h.lease_namespace, h.period,
  h.all_namespaces, h.unrestricted, h.restricted,
)

built_exactly :
    (c : Config) (o : Options)
    → (setup_controller_options c ≡ ok o) ↔ (
        ((c.publish_service ≡ "") × (o ≡ base_options c []))
        ⊎ ((namespace : String) × IsServiceName c.publish_service namespace
            × (o ≡ base_options c (namespace ∷ []))))
unfolding setup_controller_options
built_exactly c o = elim (string_dec c.publish_service "") [
  | yes none_given ↦
      let nothing : required_namespaces c.publish_service ≡ ok [] =
        unfold required_namespaces in ground (arith, none_given) in
      (
        λ h. inl (none_given, ground (arith, nothing)),
        λ h. elim h [
          | inl (e, same) ↦ ground (arith, nothing)
          | inr (namespace, form, same) ↦ absurd (
              no_service_name namespace
                (subst (λ (t : String). IsServiceName t namespace) none_given form))
        ],
      )
  | no given ↦ (
    λ h. elim (Result-cases (required_namespaces c.publish_service)) [
      | inr (e, bad) ↦ absurd (ground arith)
      | inl (required, e) ↦
          let (namespace, form, same) =
            required_namespaces_sound c.publish_service required given e in
          inr (namespace, form, ground arith)
    ],
    λ h. elim h [
      | inl (e, same) ↦ absurd (given e)
      | inr (namespace, form, same) ↦
          ground (arith, required_namespaces_complete c.publish_service namespace given form)
    ],
  )
]

-- The options are built exactly when the publish service is empty or of the form
-- `<namespace>/<name>` with one slash. They are then those of the configuration, with no namespace
-- required, or with that one: a leader is elected whatever the database, and the cache is restricted
-- to the watched namespaces and the required one, unless no namespace is watched explicitly.
pub setup_controller_options_iff :
    (c : Config) (o : Options)
    → (setup_controller_options c ≡ ok o) ↔ (
        ((c.publish_service ≡ "") × IsOptionsFor c [] o)
        ⊎ ((namespace : String) × IsServiceName c.publish_service namespace
            × IsOptionsFor c (namespace ∷ []) o))
setup_controller_options_iff c o = (
  λ h. elim ((built_exactly c o).0 h) [
    | inl (e, same) ↦ inl (e, rw same (base_options-IsOptionsFor c []))
    | inr (namespace, form, same) ↦
        inr (namespace, form, rw same (base_options-IsOptionsFor c (namespace ∷ [])))
  ],
  λ h. elim h [
    | inl (e, fits) ↦ (built_exactly c o).1 (inl (e, IsOptionsFor-unique c [] o fits))
    | inr (namespace, form, fits) ↦
        (built_exactly c o).1 (inr (namespace, form, IsOptionsFor-unique c (namespace ∷ []) o fits))
  ],
)
