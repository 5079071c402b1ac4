-- ===== src/Build/Page.antt =====
-- internal/dataplane/proxy/cached_proxy_resolver.go: the contents of a page that `Build` writes, read
-- back. A reader of front matter takes the lines between the two lines `---` one by one, and what
-- follows as the text of the page.
use kong_portal_controller.Base.{
  String, ◌<>◌, ◌≡◌, refl, sym, ◌∙◌, ◌≢◌, true, Option, none, some, arith, ◌==◌, nat_eq, string_eq,
  if◌then◌else◌,
}
use Prim.Native.Char.{Char, code}
use Prim.Native.String as Str
use text.Mathlib.TextLemmas.{nil-append, cons-append, append_assoc, cons≢nil}
use kong_portal_controller.Base.Split.{cut, cut-append, Lacks}
use kong_portal_controller.Api.{KongFile, content_kind}
use kong_portal_controller.Admission.{validate_kong_file}
use kong_portal_controller.Build.{build, page}
use kong_portal_controller.Proxy.Laws.{contents_of}

infixl 5 ◌>>=◌
abbrev pub ◌>>=◌ {ℓ κ} : {A : Type ℓ} {B : Type κ} → Option A → (A → Option B) → Option B
o >>= f = elim o [ none ↦ none | some a ↦ f a ]

abbrev pub newline : Char
newline = "\n"

-- The text after a prefix.
unfoldable pub strip : String → String → Option String
strip Str.[] s = some s
strip (Str.◌∷◌ c p) Str.[] = none
strip (Str.◌∷◌ c p) (Str.◌∷◌ d s) = let rest = strip p s in if code c == code d then rest else none

strip-append : (p s : String) → strip p (p <> s) ≡ some s
unfolding strip
strip-append Str.[] s = rw (nil-append s) refl
strip-append (Str.◌∷◌ c p) s = rw (cons-append c p s) (ground (arith, strip-append p s))

-- A line `key: value`.
unfoldable pub read_line : String → String → Option (String × String)
read_line key s = elim (strip key s) [ none ↦ none | some rest ↦ cut newline rest ]

-- Title, layout and content of a page.
unfoldable pub read_page : String → Option (String × String × String)
read_page s = do
  head ← strip "---\n" s
  title ← read_line "title: " head
  layout ← read_line "layout: " title.1
  content ← strip "---\n" layout.1
  some (title.0, layout.0, content)

end_line : (a b : String) → Lacks newline a → cut newline (a <> ("\n" <> b)) ≡ some (a, b)
end_line a b h = rw (cons-append newline "" b) (rw (nil-append b) (cut-append newline a b h))

read_line-line :
    (key a b : String) → Lacks newline a → read_line key (key <> (a <> ("\n" <> b))) ≡ some (a, b)
unfolding read_line
read_line-line key a b h = ground (arith, strip-append key (a <> ("\n" <> b)), end_line a b h)

-- What `Build` writes for an object of kind CONTENT, read back: the title, the layout and the content of the specification,
-- when title and layout have one line each.
pub page-read :
    (f : KongFile)
    → f.spec.kind ≡ content_kind
    → Lacks newline f.spec.title
    → Lacks newline f.spec.layout
    → read_page (contents_of (build f)) ≡ some (f.spec.title, f.spec.layout, f.spec.content)
unfolding build read_page
page-read f kind title layout =
    let last = "---\n" <> f.spec.content in
    let second = "layout: " <> (f.spec.layout <> ("\n" <> last)) in
    ground (
      arith,
      strip-append "---\n" ("title: " <> (f.spec.title <> ("\n" <> second))),
      read_line-line "title: " f.spec.title second title,
      read_line-line "layout: " f.spec.layout last layout,
      strip-append "---\n" f.spec.content,
    )

-- A title with line breaks.
abbrev pub with_title : String → KongFile → KongFile
with_title title f = record f { spec = record (f.spec) { title = title } }

-- The object whose layout and content a title can carry.
abbrev pub forged : String → String → String → KongFile → KongFile
forged title layout content f = record f {
  spec = record (f.spec) {
    title = title;
    layout = layout;
    content = content <> ("\nlayout: " <> (f.spec.layout <> ("\n---\n" <> f.spec.content)));
  };
}

abbrev pub forging_title : String → String → String → String
forging_title title layout content = title <> ("\nlayout: " <> (layout <> ("\n---\n" <> content)))

layout_line : (s : String) → ("\nlayout: " <> s) ≡ "\n" <> ("layout: " <> s)
layout_line s = append_assoc "\n" "layout: " s

rule_line : (s : String) → ("\n---\n" <> s) ≡ "\n" <> ("---\n" <> s)
rule_line s = append_assoc "\n" "---\n" s

page-forged :
    (f : KongFile) (title layout content : String)
    → page (with_title (forging_title title layout content) f)
      ≡ page (forged title layout content f)
page-forged f title layout content = simp (layout_line, rule_line, append_assoc)

forging_title-apart : (title layout content : String) → forging_title title layout content ≢ ""
forging_title-apart Str.[] layout content e =
    cons≢nil (sym (cons-append newline "layout: " _) ∙ (sym (nil-append _) ∙ e))
forging_title-apart (Str.◌∷◌ c title) layout content e = cons≢nil (sym (cons-append c title _) ∙ e)

with_title-validated :
    (f : KongFile) (title : String)
    → title ≢ ""
    → (validate_kong_file f).0 ≡ true
    → (validate_kong_file (with_title title f)).0 ≡ true
unfolding validate_kong_file
with_title-validated f title some_title valid = ground arith

-- `Build` does not escape the title, and the validation takes a title with line breaks. For every page
-- that is valid, and every title and layout of one line and every text, there is a title with which the
-- page is valid too, is built to the same file as a page with that title and layout whose text begins
-- with the given one, and is read back as such: its own layout is only a part of the text.
pub title-forged :
    (f : KongFile) (title layout content : String)
    → f.spec.kind ≡ content_kind
    → (validate_kong_file f).0 ≡ true
    → Lacks newline title
    → Lacks newline layout
    → let g = with_title (forging_title title layout content) f in
      let pretended = forged title layout content f in
      ((validate_kong_file g).0 ≡ true)
      × (build g ≡ build pretended)
      × (read_page (contents_of (build g)) ≡ some (title, layout, pretended.spec.content))
unfolding build
title-forged f title layout content kind valid one_title one_layout =
    let same : build (with_title (forging_title title layout content) f)
        ≡ build (forged title layout content f) =
      ground (arith, page-forged f title layout content) in
    (
      with_title-validated f (forging_title title layout content)
          (forging_title-apart title layout content) valid,
      same,
      rw same (page-read (forged title layout content f) kind one_title one_layout),
    )
