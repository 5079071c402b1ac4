-- ===== src/Build/Folders.antt =====
-- The folders of the built files, and which files have a path at all.
use kong_portal_controller.Base.{
  String, ◌<>◌, ◌≡◌, refl, sym, ap, ◌∙◌, ◌≢◌, ◌↔◌, ◌⊎◌, inl, inr, Bool, true, false, ◌||◌, some,
  arith, ◌==◌, string_eq, nat_eq, string_dec,
}
use Prim.Native.Char.{Char, code}
use text.Mathlib.TextLemmas.{cons-append, head-eq_of_cons-eq}
use Prim.Native.String as Str
use text.Mathlib.TextEquality.{eq_iff}
use kong_portal_controller.Api.{Kind, KongFile, content_kind, asset_kind, specification_kind}
use kong_portal_controller.Base.Text.{is_space, trim_space}
use kong_portal_controller.Service.{is_empty_string}
use kong_portal_controller.Service.Blank.{is_empty_string-cons}
use kong_portal_controller.Build.{build, in_folder}

-- The three kinds that the API names.
unfoldable pub is_known_kind : Kind → Bool
is_known_kind kind = kind == content_kind || kind == asset_kind || kind == specification_kind

pub content_folder : (f : KongFile) → is_empty_string (some (in_folder "content/" f)) ≡ false
unfolding is_space
content_folder f = is_empty_string-cons "c" "ontent/" _ refl

pub assets_folder : (f : KongFile) → is_empty_string (some (in_folder "base/assets/" f)) ≡ false
unfolding is_space
assets_folder f = is_empty_string-cons "b" "ase/assets/" _ refl

pub specs_folder : (f : KongFile) → is_empty_string (some (in_folder "specs/" f)) ≡ false
unfolding is_space
specs_folder f = is_empty_string-cons "s" "pecs/" _ refl

pub blank_path : is_empty_string (some "") ≡ true
unfolding is_empty_string trim_space string_dec
blank_path = refl

-- The file that `Build` makes has a path which the service accepts exactly when the kind is one of
-- CONTENT, ASSET and SPECIFICATION.
pub build_path_iff :
    (f : KongFile) → (is_empty_string (build f).path ≡ false) ↔ (is_known_kind f.spec.kind ≡ true)
unfolding build is_known_kind
build_path_iff f = ground (arith, content_folder f, assets_folder f, specs_folder f, blank_path)

codes_apart : (c d : Char) → code c ≢ code d → c ≢ d
codes_apart c d h e = h (ap code e)

first_apart :
    (c d : Char) (s t u v : String) → c ≢ d → Str.◌++◌ (Str.◌∷◌ c s) u ≢ Str.◌++◌ (Str.◌∷◌ d t) v
first_apart c d s t u v h e =
    h (head-eq_of_cons-eq (sym (cons-append c s u) ∙ (e ∙ cons-append d t v)))

code_apart : ◌≢◌ {A = Char} "c" "b" × ◌≢◌ {A = Char} "c" "s" × ◌≢◌ {A = Char} "b" "s"
code_apart = (
  λ e. absurd (codes_apart "c" "b" (omega arith) e),
  λ e. absurd (codes_apart "c" "s" (omega arith) e),
  λ e. absurd (codes_apart "b" "s" (omega arith) e),
)

-- A text does not begin with another first character.
pub head_apart :
    (c d : Char) (s t v : String) → code c ≢ code d → Str.◌∷◌ c s ≢ Str.◌++◌ (Str.◌∷◌ d t) v
head_apart c d s t v h e = h (ap code (head-eq_of_cons-eq (e ∙ cons-append d t v)))

-- The folder of each kind.
abbrev pub IsManaged : String → Type 0
IsManaged path =
    ((rest : String) × (path ≡ "content/" <> rest))
    ⊎ (((rest : String) × (path ≡ "base/assets/" <> rest))
        ⊎ ((rest : String) × (path ≡ "specs/" <> rest)))

-- A path that the service accepts lies in one of the three folders.
pub build-IsManaged :
    (f : KongFile) (path : String)
    → (build f).path ≡ some path
    → is_empty_string (build f).path ≡ false
    → IsManaged path
unfolding build
build-IsManaged f path e h = elim (string_dec f.spec.kind content_kind) [
  | yes c ↦ inl (f.spec.path <> ("/" <> f.spec.name), ground arith)
  | no c ↦ elim (string_dec f.spec.kind asset_kind) [
    | yes a ↦ inr (inl (f.spec.path <> ("/" <> f.spec.name), ground arith))
    | no a ↦ elim (string_dec f.spec.kind specification_kind) [
      | yes p ↦ inr (inr (f.spec.path <> ("/" <> f.spec.name), ground arith))
      | no p ↦ absurd (ground (arith, blank_path))
    ]
  ]
]

Kind-cases :
    (k : Kind)
    → is_known_kind k ≡ true
    → (k ≡ content_kind) ⊎ ((k ≡ asset_kind) ⊎ (k ≡ specification_kind))
unfolding is_known_kind
Kind-cases k h = ground arith

constants_apart :
    ◌≢◌ {A = String} "ASSET" "CONTENT"
    × ◌≢◌ {A = String} "SPECIFICATION" "CONTENT"
    × ◌≢◌ {A = String} "SPECIFICATION" "ASSET"
constants_apart = (
  ground (arith, eq_iff "ASSET" "CONTENT"),
  ground (arith, eq_iff "SPECIFICATION" "CONTENT"),
  ground (arith, eq_iff "SPECIFICATION" "ASSET"),
)

-- Where `Build` puts a file of each kind.
abbrev FolderPath : KongFile → String → Type 0
FolderPath f folder = (build f).path ≡ some (in_folder folder f)

content_path : (f : KongFile) → f.spec.kind ≡ content_kind → FolderPath f "content/"
unfolding build
content_path f h = ground arith

asset_path : (f : KongFile) → f.spec.kind ≡ asset_kind → FolderPath f "base/assets/"
unfolding build
asset_path f h = ground (arith, constants_apart)

specification_path : (f : KongFile) → f.spec.kind ≡ specification_kind → FolderPath f "specs/"
unfolding build
specification_path f h = ground (arith, constants_apart)

folders_apart :
    (f g : KongFile)
    → (in_folder "content/" f ≢ in_folder "base/assets/" g)
      × (in_folder "content/" f ≢ in_folder "specs/" g)
      × (in_folder "base/assets/" f ≢ in_folder "specs/" g)
folders_apart f g = (
  first_apart "c" "b" "ontent/" "ase/assets/" _ _ code_apart.0,
  first_apart "c" "s" "ontent/" "pecs/" _ _ code_apart.1,
  first_apart "b" "s" "ase/assets/" "pecs/" _ _ code_apart.2,
)

-- Files of different kinds never have the same path.
pub kinds_apart :
    (f g : KongFile)
    → is_known_kind f.spec.kind ≡ true
    → is_known_kind g.spec.kind ≡ true
    → f.spec.kind ≢ g.spec.kind
    → (build f).path ≢ (build g).path
kinds_apart f g known_f known_g differ = ground (
  arith,
  Kind-cases f.spec.kind known_f,
  Kind-cases g.spec.kind known_g,
  content_path f,
  asset_path f,
  specification_path f,
  content_path g,
  asset_path g,
  specification_path g,
  folders_apart f g,
  folders_apart g f,
)
