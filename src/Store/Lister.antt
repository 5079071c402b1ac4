-- ===== src/Store/Lister.antt =====
-- internal/store/store.go: the `Store` over the cache, which lists by controller class.
use kong_portal_controller.Base.{
  String, ◌<>◌, ◌≡◌, refl, inl, inr, Bool, not, none, some, List, [], ◌∷◌, arith, message, Result,
  ok, err, Outcome, returns, panics, blocks, Result-cases, ◌==◌, string_eq, nat_eq, if◌then◌else◌,
}
use kong_portal_controller.Api.{ObjectMeta}
use kong_portal_controller.Annotations.{
  ClassMatching, exact_or_empty_class_match, controller_class_validator, valid_controller, lookup,
  or_empty, controller_class_key,
}
use kong_portal_controller.Base.Text.{append-ne-empty}
use kong_portal_controller.Store.{key_of}
use kong_portal_controller.Store.Cache.{CacheLib, IsCache, Memory, Ref, Lookup, found}

-- `ErrNotFound{message}`, whose `Error` method prints "not found" for the empty message.
unfoldable pub not_found_text : String → String
not_found_text text = if text == "" then "not found" else text

-- What `GetKongFile` returns after the lookup. `p.(*KongFile)` panics on an item that is nil.
got_file : String → Lookup → Outcome (Result Ref)
unfolding not_found_text
got_file key found = elim found.error [
  | some e ↦ returns (err e)
  | none ↦
      if not found.exists
      then returns (err (message (not_found_text ("KongFile " <> (key <> " not found")))))
      else elim found.item [ none ↦ panics | some r ↦ returns (ok r) ]
]

-- The loop of `ListKongFiles` over the items, with the validator of the store.
select : (ObjectMeta → ClassMatching → Outcome Bool) → Memory → List Ref → Outcome (List Ref)
select valid mem [] = returns []
select valid mem (r ∷ rs) = elim (valid (mem.cell r).meta exact_or_empty_class_match) [
  | panics ↦ panics
  | blocks ↦ blocks
  | returns keep ↦ elim (select valid mem rs) [
    | panics ↦ panics
    | blocks ↦ blocks
    | returns kept ↦ returns (if keep then r ∷ kept else kept)
  ]
]

module _ (C : CacheLib) where
  unfoldable pub get_kong_file : String → String → C.Indexer → Outcome (Result Ref)
  unfolding got_file
  get_kong_file namespace name s =
      let key = key_of namespace name in got_file key (C.get_by_key key s)

  unfoldable pub list_kong_files :
      (ObjectMeta → ClassMatching → Outcome Bool) → Memory → C.Indexer → Outcome (Result (List Ref))
  unfolding select
  list_kong_files valid mem s = elim (C.list_all s) [
    | err e ↦ returns (err e)
    | ok items ↦ elim (select valid mem items) [
      | panics ↦ panics
      | blocks ↦ blocks
      | returns kept ↦ returns (ok kept)
    ]
  ]

  -- Every item of this cache is a KongFile.
  unfoldable pub list_all_kong_files : C.Indexer → Result (List Ref)
  list_all_kong_files s = C.list_all s

-- The items whose annotation is missing, empty or the class.
abbrev pub of_class : String → Memory → List Ref → List Ref
of_class class mem [] = []
of_class class mem (r ∷ rs) =
    let value = or_empty (lookup controller_class_key (mem.cell r).meta.annotations) in
    let rest = of_class class mem rs in
    if value == "" then r ∷ rest else if value == class then r ∷ rest else rest

select-of_class :
    (class : String) (mem : Memory) (rs : List Ref)
    → select (controller_class_validator class) mem rs ≡ returns (of_class class mem rs)
unfolding select controller_class_validator valid_controller
select-of_class class mem [] = refl
select-of_class class mem (r ∷ rs) = ground (arith, select-of_class class mem rs)

-- With the class validator, `ListKongFiles` never panics: it returns, in the cache's order, the
-- items whose annotation is missing, empty or the class, and the error of the cache if that fails.
pub list_kong_files-of_class :
    (C : CacheLib) (class : String) (mem : Memory) (s : C.Indexer)
    → list_kong_files C (controller_class_validator class) mem s
      ≡ returns (elim (list_all_kong_files C s) [
        | ok items ↦ ok (of_class class mem items)
        | err e ↦ err e
      ])
unfolding list_kong_files list_all_kong_files
list_kong_files-of_class C class mem s = elim (Result-cases (C.list_all s)) [
  | inl (items, e) ↦ ground (arith, e, select-of_class class mem items)
  | inr (bad, e) ↦ ground (arith, e)
]

-- Over a lawful cache `GetKongFile` finds exactly the item under `namespace/name`, and says that the
-- KongFile was not found where there is none.
pub get_kong_file-find :
    (C : CacheLib) (L : IsCache C) (namespace name : String) (s : C.Indexer)
    → get_kong_file C namespace name s
      ≡ returns (elim (L.find s (key_of namespace name)) [
        | some r ↦ ok r
        | none ↦ err (message ("KongFile " <> (key_of namespace name <> " not found")))
      ])
unfolding get_kong_file
get_kong_file-find C L namespace name s = ground (
  arith,
  L.get_by_key-find (key_of namespace name) s,
  append-ne-empty "K" "ongFile " (key_of namespace name <> " not found"),
)
