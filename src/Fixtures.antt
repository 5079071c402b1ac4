-- ===== src/Fixtures.antt =====
-- Small concrete stand-ins for the libraries and servers around the controller, with the proofs that
-- they meet what the theorems assume. The tests run on them.
pub mod Servers
pub mod Registries
pub mod Startup
pub mod Running
pub mod Scenes
use kong_portal_controller.Base.{
  String, ◌≡◌, refl, false, not, none, some, List, [], ◌∷◌, arith, ok, err, ◌==◌, string_eq, nat_eq,
  if◌then◌else◌,
}
use kong_portal_controller.Annotations.{lookup}
use kong_portal_controller.Store.Cache.{CacheLib, IsCache, KeyFunc, Ref, found}

module _ {ℓ} {A : Type ℓ} where
  abbrev pub insert : String → A → List (String × A) → List (String × A)
  insert key v [] = (key, v) ∷ []
  insert key v ((k, w) ∷ m) = if k == key then (key, v) ∷ m else (k, w) ∷ insert key v m

  abbrev pub erase : String → List (String × A) → List (String × A)
  erase key [] = []
  erase key ((k, w) ∷ m) = let rest = erase key m in if k == key then rest else (k, w) ∷ rest

  pub lookup-insert :
      (key j : String) (v : A) (m : List (String × A))
      → lookup j (insert key v m) ≡ (if j == key then some v else lookup j m)
  unfolding lookup
  lookup-insert key j v [] = ground arith
  lookup-insert key j v ((k, w) ∷ m) = ground (arith, lookup-insert key j v m)

  pub lookup-erase :
      (key j : String) (m : List (String × A))
      → lookup j (erase key m) ≡ (if j == key then none else lookup j m)
  unfolding lookup
  lookup-erase key j [] = ground arith
  lookup-erase key j ((k, w) ∷ m) = ground (arith, lookup-erase key j m)

abbrev pub values {ℓ} : {A : Type ℓ} → List (String × A) → List A
values [] = []
values ((k, v) ∷ m) = v ∷ values m

-- The thread-safe store, as an association list.
abbrev pub list_cache : CacheLib
list_cache = record {
  Indexer = List (String × Ref);
  new_store = [];
  add = λ key r s. elim (key r) [ ok k ↦ (none, insert k r s) | err e ↦ (some e, s) ];
  update = λ key r s. elim (key r) [ ok k ↦ (none, insert k r s) | err e ↦ (some e, s) ];
  delete = λ key r s. elim (key r) [ ok k ↦ (none, erase k s) | err e ↦ (some e, s) ];
  get = λ key r s. elim (key r) [
    | ok k ↦ found (lookup k s)
    | err e ↦ record { item = none; exists = false; error = some e }
  ];
  get_by_key = λ k s. found (lookup k s);
  list_all = λ s. ok (values s);
}

pub insert-key :
    (key : KeyFunc) (r : Ref) (s : List (String × Ref)) (k j : String)
    → key r ≡ ok k
    → lookup j (list_cache.add key r s).1 ≡ (if j == k then some r else lookup j s)
insert-key key r s k j e = ground (arith, lookup-insert k j r s)

pub erase-key :
    (key : KeyFunc) (r : Ref) (s : List (String × Ref)) (k j : String)
    → key r ≡ ok k
    → lookup j (list_cache.delete key r s).1 ≡ (if j == k then none else lookup j s)
erase-key key r s k j e = ground (arith, lookup-erase k j s)

pub get-key :
    (key : KeyFunc) (r : Ref) (s : List (String × Ref)) (k : String)
    → key r ≡ ok k
    → list_cache.get key r s ≡ found (lookup k s)
get-key key r s k e = ground arith

pub new-empty : (k : String) → lookup {A = Ref} k [] ≡ none
unfolding lookup
new-empty k = refl

abbrev pub list_cache-IsCache : IsCache list_cache
list_cache-IsCache = record {
  find = λ s k. lookup k s;
  find-new = new-empty;
  get_by_key-find = λ k s. refl;
  get-find = get-key;
  find-add = insert-key;
  find-update = insert-key;
  find-delete = erase-key;
}
