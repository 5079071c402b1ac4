-- ===== src/Proxy/Laws.antt =====
-- The proxy's methods: what they do to Kong and to the cache, on success and on failure.
use kong_portal_controller.Base.{
  String, ◌≡◌, refl, ◌∙◌, ◌≢◌, ◌↔◌, ◌⊎◌, true, false, none, some, arith, ◌==◌, string_eq, nat_eq,
  if◌then◌else◌,
}
use kong_portal_controller.Api.{KongFile}
use kong_portal_controller.Build.{build}
use kong_portal_controller.Build.Folders.{is_known_kind, build_path_iff}
use kong_portal_controller.Service
use kong_portal_controller.Service.{is_empty_string, path_error}
use kong_portal_controller.Service.Client.{File, KongClient, IsFilesApi}
use kong_portal_controller.Service.Files.{
  update-others, update-done, delete-others, delete-done, get-keeps, get-found, blank-path-refused,
}
use kong_portal_controller.Store.{kong_file, key_func}
use kong_portal_controller.Store.Cache.{CacheLib, IsCache, Memory, Ref}
pub use kong_portal_controller.Store.Laws.{key_at}
use kong_portal_controller.Proxy.{
  Backend, update_object, delete_object, object_exists, object_exists_in_cache,
}

-- The path and the contents that `Build` gives.
abbrev pub path_of : File → String
path_of f = Service.deref f.path

abbrev pub contents_of : File → String
contents_of f = Service.deref f.contents

pub build-path : (obj : KongFile) → (build obj).path ≡ some (path_of (build obj))
unfolding build
build-path obj = ground arith

pub build-contents : (obj : KongFile) → (build obj).contents ≡ some (contents_of (build obj))
unfolding build
build-contents obj = ground arith

module _ (C : CacheLib) (K : KongClient) (L : IsCache C) (mem : Memory) where
  -- Whatever Kong answers, the object is in the cache afterwards, and no other key has changed.
  pub update_object-cache :
      (r : Ref) (b : Backend C K) (k : String)
      → L.find (update_object C K mem (kong_file r) b).1.cache k
        ≡ (if k == key_at mem r then some r else L.find b.cache k)
  unfolding update_object key_func
  update_object-cache r b k = L.find-update (key_func mem) r b.cache (key_at mem r) k refl

  -- Whatever Kong answers, the object is out of the cache afterwards, and no other key has changed.
  pub delete_object-cache :
      (r : Ref) (b : Backend C K) (k : String)
      → L.find (delete_object C K mem (kong_file r) b).1.cache k
        ≡ (if k == key_at mem r then none else L.find b.cache k)
  unfolding delete_object key_func
  delete_object-cache r b k = L.find-delete (key_func mem) r b.cache (key_at mem r) k refl

  pub object_exists_in_cache-find :
      (r : Ref) (b : Backend C K)
      → object_exists_in_cache C K mem (kong_file r) b ≡ elim (L.find b.cache (key_at mem r)) [
        | none ↦ (none, false, none)
        | some q ↦ (some (kong_file q), true, none)
      ]
  unfolding object_exists_in_cache key_func
  object_exists_in_cache-find r b =
      ground (arith, L.get-find (key_func mem) r b.cache (key_at mem r) refl)

module _ (C : CacheLib) (K : KongClient) (A : IsFilesApi K) (mem : Memory) where
  -- `UpdateObject` changes at most the file that `Build` names.
  pub update_object-others :
      (r : Ref) (b : Backend C K) (q : String)
      → q ≢ path_of (build (mem.cell r))
      → A.contents_at (update_object C K mem (kong_file r) b).1.server q ≡ A.contents_at b.server q
  unfolding update_object
  update_object-others r b q apart =
      update-others K A (build (mem.cell r)) b.server _ q (build-path (mem.cell r)) apart

  -- With no error from `UpdateObject`, Kong has the built contents under the built path.
  pub update_object-done :
      (r : Ref) (b : Backend C K)
      → (update_object C K mem (kong_file r) b).0 ≡ none
      → (is_known_kind (mem.cell r).spec.kind ≡ true)
        × (A.contents_at
              (update_object C K mem (kong_file r) b).1.server
              (path_of (build (mem.cell r)))
            ≡ some (contents_of (build (mem.cell r))))
  unfolding update_object
  update_object-done r b fine =
      let (full, stored) =
        update-done K A (build (mem.cell r)) b.server _ _ (build-path (mem.cell r))
          (build-contents (mem.cell r)) fine in
      ((build_path_iff (mem.cell r)).0 full, stored)

  pub delete_object-others :
      (r : Ref) (b : Backend C K) (q : String)
      → q ≢ path_of (build (mem.cell r))
      → A.contents_at (delete_object C K mem (kong_file r) b).1.server q ≡ A.contents_at b.server q
  unfolding delete_object
  delete_object-others r b q apart =
      delete-others K A (build (mem.cell r)) b.server _ q (build-path (mem.cell r)) apart

  -- With no error from `DeleteObject`, Kong has no file under the built path.
  pub delete_object-done :
      (r : Ref) (b : Backend C K)
      → (delete_object C K mem (kong_file r) b).0 ≡ none
      → A.contents_at
          (delete_object C K mem (kong_file r) b).1.server
          (path_of (build (mem.cell r)))
        ≡ none
  unfolding delete_object
  delete_object-done r b fine =
      (delete-done K A (build (mem.cell r)) b.server _ (build-path (mem.cell r)) fine).1

  -- `ObjectExists` changes neither the cache nor a file. It says "no" only together with an error, and
  -- where it says "yes" the file is in Kong.
  pub object_exists-answer :
      (r : Ref) (b : Backend C K) (q : String)
      → let reply = object_exists C K mem (kong_file r) b in
        (reply.1.cache ≡ b.cache)
        × (A.contents_at reply.1.server q ≡ A.contents_at b.server q)
        × ((reply.0.0 ≡ true) ↔ (reply.0.1 ≡ none))
        × ((reply.0.0 ≡ false) ⊎ (A.contents_at b.server (path_of (build (mem.cell r))) ≢ none))
  unfolding object_exists
  object_exists-answer r b q = ground (
    arith,
    get-found K A (build (mem.cell r)) b.server _ (build-path (mem.cell r)),
    get-keeps K A (build (mem.cell r)) b.server q,
  )

-- An object whose kind is none of the three is never sent: `UpdateObject` fails, and has put the
-- object into the cache all the same.
pub unknown_kind-refused :
    (C : CacheLib) (K : KongClient) (L : IsCache C) (mem : Memory) (r : Ref) (b : Backend C K)
    → is_known_kind (mem.cell r).spec.kind ≡ false
    → ((update_object C K mem (kong_file r) b).0 ≡ some (path_error "Update"))
      × ((update_object C K mem (kong_file r) b).1.server ≡ b.server)
      × (L.find (update_object C K mem (kong_file r) b).1.cache (key_at mem r) ≡ some r)
unfolding update_object
unknown_kind-refused C K L mem r b unknown =
    let blank : is_empty_string (build (mem.cell r)).path ≡ true =
      ground (arith, build_path_iff (mem.cell r)) in
    let (_, sent, _) = blank-path-refused K (build (mem.cell r)) b.server blank in
    (
      ground (arith, sent),
      ground (arith, sent),
      update_object-cache C K L mem r b (key_at mem r) ∙ ground arith,
    )
