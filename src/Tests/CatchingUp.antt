-- ===== src/Tests/CatchingUp.antt =====
-- The theorem on passes of the controller at the two sample resources.
use kong_portal_controller.Reconciler.Health.{IsHealthy, healthy-converges}
use kong_portal_controller.Fixtures.Servers.{Portal}
use kong_portal_controller.Base.{true}
use kong_portal_controller.Base.{
  String, ◌≡◌, ◌≢◌, refl, sym, inl, inr, none, List, [], ◌∷◌, arith, string_eq, string_dec, nat_eq,
}
use text.Mathlib.TextEquality.{eq_iff}
use mathlib.Core.List.{Memᴰ}
use mathlib.Core.List.Memᴰ
use kong_portal_controller.Annotations.{lookup, matches_controller_class_name}
use kong_portal_controller.Api.{KongFile}
use kong_portal_controller.Base.Text.{trim_space, is_space}
use kong_portal_controller.Build.{build}
use kong_portal_controller.Service
use kong_portal_controller.Store.{key_of}
use kong_portal_controller.Proxy.{update_object}
use kong_portal_controller.Proxy.Laws.{path_of}
use kong_portal_controller.Reconciler.{done}
use kong_portal_controller.Reconciler.Invariant.{key_of_file}
use kong_portal_controller.Reconciler.Sync.{IsLive, accepted, reconcile-accepted}
use kong_portal_controller.Reconciler.Pass.{
  IsApiServer, Pass, finished, request, AllNew, AllApart, IsCaughtUp,
}
use kong_portal_controller.Reconciler.Order.{pass_order}
use kong_portal_controller.Fixtures.{list_cache, lookup-insert}
use kong_portal_controller.Fixtures.Servers.{file_at, portal, portal-IsFilesApi, cluster, serve}
use kong_portal_controller.Fixtures.Scenes.{
  Scene, page, specification, empty_memory, up_portal, sent,
}

write_done :
    (obj old : KongFile) (s : List (String × KongFile))
    → cluster.get obj.meta.namespace obj.meta.name (cluster.update_status obj s).1 ≡ (none, obj)
write_done obj old s = ground (arith, lookup-insert (key_of_file obj) (key_of_file obj) obj s)

write_others :
    (obj : KongFile) (s : List (String × KongFile)) (namespace name : String)
    → key_of namespace name ≢ key_of_file obj
    → cluster.get namespace name (cluster.update_status obj s).1 ≡ cluster.get namespace name s
write_others obj s namespace name apart =
    ground (arith, lookup-insert (key_of_file obj) (key_of namespace name) obj s)

cluster-IsApiServer : IsApiServer cluster
cluster-IsApiServer = record {
  write_done = λ obj old s got meta spec fine. write_done obj old s;
  write_others = write_others;
}

abbrev samples : List KongFile
samples = page ∷ specification ∷ []

abbrev before : Scene
before = record {
  memory = empty_memory;
  backend = record { cache = []; server = up_portal };
  cluster =
      (key_of "default" "my-kong-file", page)
      ∷ (key_of "default" "my-kong-file-spec", specification)
      ∷ [];
}

abbrev between : Scene
between = accepted list_cache portal cluster page before

abbrev after : Scene
after = accepted list_cache portal cluster specification between

abbrev IsHeld : KongFile → Scene → Type 0
IsHeld obj w = IsLive list_cache portal cluster "kong" obj.meta.namespace obj.meta.name obj w

page-IsHeld : IsHeld page before
unfolding lookup string_dec matches_controller_class_name
page-IsHeld = record { got = refl; kept = refl; ours = refl }

specification-IsHeld : IsHeld specification before
unfolding lookup string_dec matches_controller_class_name
specification-IsHeld = record { got = refl; kept = refl; ours = refl }

specification_still-IsHeld : IsHeld specification between
unfolding lookup string_dec matches_controller_class_name
specification_still-IsHeld = record { got = refl; kept = refl; ours = refl }

specification_sent : (Service.update portal (build specification) between.backend.server).0.1 ≡ none
unfolding build Service.update serve string_dec Service.is_empty_string trim_space is_space
    update_object
specification_sent = refl

first_pass : Pass list_cache portal cluster "kong" samples before after
first_pass =
    request 5 done
      (reconcile-accepted list_cache portal cluster 5 "kong" "default" "my-kong-file" page before
        page-IsHeld refl sent)
      (request 6 done
        (reconcile-accepted list_cache portal cluster 6 "kong" "default" "my-kong-file-spec"
          specification between specification_still-IsHeld refl specification_sent)
        finished)

samples_new : AllNew list_cache portal cluster "kong" samples before
samples_new obj m = elim (Memᴰ.cases_cons m) [
  | inl e ↦ rw e (page-IsHeld, refl)
  | inr later ↦ elim (Memᴰ.cases_cons later) [
    | inl e ↦ rw e (specification-IsHeld, refl)
    | inr none_left ↦ absurd (Memᴰ.not-nil none_left)
  ]
]

apart :
    (key_of_file specification ≢ key_of_file page)
    × (path_of (build specification) ≢ path_of (build page))
unfolding build string_dec
apart = (
  ground (arith, eq_iff "default/my-kong-file-spec" "default/my-kong-file"),
  ground (arith, eq_iff "specs/test/specs/test.yaml" "content/products/test.txt"),
)

samples_apart : AllApart samples
samples_apart = (
  λ o m. elim (Memᴰ.cases_cons m) [
    | inl e ↦ rw e apart
    | inr none_left ↦ absurd (Memᴰ.not-nil none_left)
  ],
  (λ o m. absurd (Memᴰ.not-nil m), tt),
)

page_accepted :
    (s : Portal)
    → s.up ≡ true
    → ((Service.update portal (build page) s).0.1 ≡ none)
      × ((Service.update portal (build page) s).1.up ≡ true)
unfolding build Service.update serve string_dec Service.is_empty_string trim_space is_space
page_accepted s up = ground (arith, up)

specification_accepted :
    (s : Portal)
    → s.up ≡ true
    → ((Service.update portal (build specification) s).0.1 ≡ none)
      × ((Service.update portal (build specification) s).1.up ≡ true)
unfolding build Service.update serve string_dec Service.is_empty_string trim_space is_space
specification_accepted s up = ground (arith, up)

abbrev samples-IsHealthy : IsHealthy portal cluster samples
samples-IsHealthy = record {
  IsUp = λ s. s.up ≡ true;
  accepts = λ obj s m up. elim (Memᴰ.cases_cons m) [
    | inl e ↦ rw e (page_accepted s up)
    | inr later ↦ elim (Memᴰ.cases_cons later) [
      | inl e ↦ rw e (specification_accepted s up)
      | inr none_left ↦ absurd (Memᴰ.not-nil none_left)
    ]
  ];
  marks = λ obj s m. refl;
}

healthy-converges_example :
    (u v : Scene) × Pass list_cache portal cluster "kong" samples before u
    × Pass list_cache portal cluster "kong" samples u v
    × IsCaughtUp list_cache portal cluster "kong" portal-IsFilesApi cluster-IsApiServer samples
        before u
    × (v.backend ≡ u.backend)
    × (v.cluster ≡ u.cluster)
healthy-converges_example =
    healthy-converges list_cache portal cluster "kong" portal-IsFilesApi cluster-IsApiServer 5
      samples before samples-IsHealthy refl samples_new samples_apart

-- The same objects in the other order.
abbrev turned : List KongFile
turned = specification ∷ page ∷ []

abbrev turned_between : Scene
turned_between = accepted list_cache portal cluster specification before

abbrev turned_after : Scene
turned_after = accepted list_cache portal cluster page turned_between

specification_sent_first : (Service.update portal (build specification) up_portal).0.1 ≡ none
unfolding build Service.update serve string_dec Service.is_empty_string trim_space is_space
specification_sent_first = refl

page_still-IsHeld : IsHeld page turned_between
unfolding lookup string_dec matches_controller_class_name
page_still-IsHeld = record { got = refl; kept = refl; ours = refl }

page_sent_last : (Service.update portal (build page) turned_between.backend.server).0.1 ≡ none
unfolding build Service.update serve string_dec Service.is_empty_string trim_space is_space
    update_object
page_sent_last = refl

turned_pass : Pass list_cache portal cluster "kong" turned before turned_after
turned_pass =
    request 5 done
      (reconcile-accepted list_cache portal cluster 5 "kong" "default" "my-kong-file-spec"
        specification before specification-IsHeld refl specification_sent_first)
      (request 6 done
        (reconcile-accepted list_cache portal cluster 6 "kong" "default" "my-kong-file" page
          turned_between page_still-IsHeld refl page_sent_last)
        finished)

turned_apart : AllApart turned
turned_apart = (
  λ o m. elim (Memᴰ.cases_cons m) [
    | inl e ↦ rw e (λ h. apart.0 (sym h), λ h. apart.1 (sym h))
    | inr none_left ↦ absurd (Memᴰ.not-nil none_left)
  ],
  (λ o m. absurd (Memᴰ.not-nil m), tt),
)

swapped : {a b : KongFile} (obj : KongFile) → Memᴰ obj (a ∷ b ∷ []) → Memᴰ obj (b ∷ a ∷ [])
swapped obj m = elim (Memᴰ.cases_cons m) [
  | inl e ↦ Memᴰ.tail (Memᴰ.head e)
  | inr later ↦ elim (Memᴰ.cases_cons later) [
    | inl e ↦ Memᴰ.head e
    | inr none_left ↦ absurd (Memᴰ.not-nil none_left)
  ]
]

pass_order_example :
    file_at after.backend.server "specs/test/specs/test.yaml"
    ≡ file_at turned_after.backend.server "specs/test/specs/test.yaml"
pass_order_example =
    pass_order list_cache portal cluster "kong" portal-IsFilesApi cluster-IsApiServer samples turned
      before after turned_after "specs/test/specs/test.yaml" samples_new samples_apart turned_apart
      (λ obj. (swapped obj, swapped obj)) first_pass turned_pass
