-- ===== src/AdminApi/Headers.antt =====
-- internal/adminapi/header_round_tripper.go: the headers that every request carries.
use kong_portal_controller.Base.{
  String, ◌≡◌, refl, inl, inr, Option, none, some, List, [], ◌∷◌, arith, Option-cases, ◌==◌,
  string_eq, nat_eq, if◌then◌else◌,
}
use kong_portal_controller.Annotations.{lookup}
use kong_portal_controller.Base.Split.{cut, split_n}

-- `http.Header`, a map from a key to its values.
abbrev pub Header : Type 0
Header = List (String × List String)

-- `h[key] = values`
unfoldable pub set_header : String → List String → Header → Header
set_header key values [] = (key, values) ∷ []
set_header key values ((k, v) ∷ h) =
    if k == key then (key, values) ∷ h else (k, v) ∷ set_header key values h

-- One round of the loop over the configured headers.
unfoldable pub apply_header : String → Header → Header
unfolding split_n
apply_header line h = elim (split_n 2 ":" line) [
  | [] ↦ h
  | key ∷ rest ↦ elim rest [ [] ↦ h | value ∷ more ↦ set_header key (value ∷ []) h ]
]

unfoldable pub apply_headers : List String → Header → Header
apply_headers [] h = h
apply_headers (line ∷ lines) h = apply_headers lines (apply_header line h)

-- A request, of which the round tripper copies all but the header as it is.
pub record HttpRequest : Type 0 where
  pub method : String
  pub url : String
  pub header : Header

-- The request that is handed to the inner round tripper. Copying the header changes no entry.
unfoldable pub round_trip : List String → HttpRequest → HttpRequest
unfolding apply_headers
round_trip lines req = record req { header = apply_headers lines req.header }

-- The value that the last configured line with this key gives.
abbrev pub configured : String → List String → Option String
configured key [] = none
configured key (line ∷ lines) = elim (configured key lines) [
  | some v ↦ some v
  | none ↦ elim (cut ":" line) [ none ↦ none | some (k, v) ↦ if k == key then some v else none ]
]

lookup-set_header :
    (key j : String) (values : List String) (h : Header)
    → lookup j (set_header key values h) ≡ (if j == key then some values else lookup j h)
unfolding lookup set_header
lookup-set_header key j values [] = ground arith
lookup-set_header key j values ((k, v) ∷ h) = ground (arith, lookup-set_header key j values h)

lookup-apply_header :
    (line j : String) (h : Header)
    → lookup j (apply_header line h)
      ≡ elim (configured j (line ∷ [])) [ some v ↦ some (v ∷ []) | none ↦ lookup j h ]
unfolding apply_header
lookup-apply_header line j h = elim (Option-cases (cut ":" line)) [
  | inl whole ↦ ground arith
  | inr ((k, v), e) ↦ ground (arith, lookup-set_header k j (v ∷ []) h)
]

lookup-apply_headers :
    (lines : List String) (j : String) (h : Header)
    → lookup j (apply_headers lines h)
      ≡ elim (configured j lines) [ some v ↦ some (v ∷ []) | none ↦ lookup j h ]
unfolding apply_headers
lookup-apply_headers [] j h = refl
lookup-apply_headers (line ∷ lines) j h =
    ground (arith, lookup-apply_headers lines j (apply_header line h), lookup-apply_header line j h)

-- A header of the outgoing request is the value of the last configured line with that key, which
-- replaces all values that the request had, and the request's own values where no line has the key.
-- A line with no colon counts for nothing. The method and the URL stay.
pub round_trip-lookup :
    (lines : List String) (req : HttpRequest) (key : String)
    → (lookup key (round_trip lines req).header
        ≡ elim (configured key lines) [ some v ↦ some (v ∷ []) | none ↦ lookup key req.header ])
      × ((round_trip lines req).method ≡ req.method)
      × ((round_trip lines req).url ≡ req.url)
unfolding round_trip
round_trip-lookup lines req key = (lookup-apply_headers lines key req.header, refl, refl)
