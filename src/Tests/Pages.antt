-- ===== src/Tests/Pages.antt =====
-- The theorems on the contents of a page at the sample resource.
use kong_portal_controller.Base.{◌≡◌, refl, true, some, string_eq, string_dec, nat_eq, ℕ_discrete}
use kong_portal_controller.Base.Split.{Lacks, cut, cut-Lacks}
use kong_portal_controller.Admission.{validate_kong_file}
use kong_portal_controller.Build.{build}
use kong_portal_controller.Build.Page.{
  newline, read_page, with_title, forged, forging_title, page-read, title-forged,
}
use kong_portal_controller.Proxy.Laws.{contents_of}
use kong_portal_controller.Fixtures.Scenes.{page}

one_title : Lacks newline "test"
unfolding cut ℕ_discrete
one_title = (cut-Lacks newline "test").0 refl

one_layout : Lacks newline "data.html"
unfolding cut ℕ_discrete
one_layout = (cut-Lacks newline "data.html").0 refl

page-read_example :
    read_page (contents_of (build page))
    ≡ some ("test", "data.html", "### this is my file content !")
page-read_example = page-read page refl one_title one_layout

sample_valid : (validate_kong_file page).0 ≡ true
unfolding validate_kong_file string_dec
sample_valid = refl

-- The title that makes the page one with the title `test`, the layout `data.html` and another text.
title-forged_example :
    let g = with_title (forging_title "test" "data.html" "Closed.\n") page in
    let pretended = forged "test" "data.html" "Closed.\n" page in
    ((validate_kong_file g).0 ≡ true)
    × (build g ≡ build pretended)
    × (read_page (contents_of (build g)) ≡ some ("test", "data.html", pretended.spec.content))
title-forged_example =
    title-forged page "test" "data.html" "Closed.\n" refl sample_valid one_title one_layout
