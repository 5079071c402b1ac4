-- ===== src/Proxy/Contract.antt =====
-- internal/dataplane/proxy/proxy.go: what the reconciler relies on of a proxy, and that the proxy over
-- the cache and the file service does it.
use kong_portal_controller.Base.{
  String, ◌≡◌, ap, ◌≢◌, ◌↔◌, true, false, Option, none, some, arith, ◌==◌, string_eq, nat_eq,
  if◌then◌else◌,
}
use kong_portal_controller.Build.{build}
use kong_portal_controller.Service.Client.{KongClient, IsFilesApi}
use kong_portal_controller.Store.{kong_file}
use kong_portal_controller.Store.Cache.{CacheLib, IsCache, Memory, Ref}
use kong_portal_controller.Proxy.{Backend, object_exists}
use kong_portal_controller.Proxy.Interface.{Proxy, cached_proxy}
use kong_portal_controller.Proxy.Laws.{
  key_at, path_of, contents_of, update_object-cache, delete_object-cache,
  object_exists_in_cache-find, update_object-others, update_object-done, delete_object-others,
  delete_object-done, object_exists-answer,
}

-- The proxy knows the objects that it was given last under each name: an update adds one, whatever the
-- portal answers, a deletion removes one, and a question changes nothing.
pub record IsTable (P : Proxy) : Type 0 where
  pub find : P.State → String → Option Ref
  pub find-update :
      (mem : Memory) (r : Ref) (b : P.State) (k : String)
      → find (P.update_object mem (kong_file r) b).1 k
        ≡ (if k == key_at mem r then some r else find b k)
  pub find-delete :
      (mem : Memory) (r : Ref) (b : P.State) (k : String)
      → find (P.delete_object mem (kong_file r) b).1 k
        ≡ (if k == key_at mem r then none else find b k)
  pub find-exists :
      (mem : Memory) (r : Ref) (b : P.State) (k : String)
      → find (P.object_exists mem (kong_file r) b).1 k ≡ find b k
  pub known :
      (mem : Memory) (r : Ref) (b : P.State)
      → P.object_exists_in_cache mem (kong_file r) b ≡ elim (find b (key_at mem r)) [
        | none ↦ (none, false, none)
        | some q ↦ (some (kong_file q), true, none)
      ]

-- The portal behind the proxy: an update or a deletion that reports no error has stored or removed the
-- built file, neither touches another file, and a question touches none. The answer to a question is yes
-- or an error.
pub record IsPublisher (P : Proxy) : Type 0 where
  pub contents_at : P.State → String → Option String
  pub update-others :
      (mem : Memory) (r : Ref) (b : P.State) (q : String)
      → q ≢ path_of (build (mem.cell r))
      → contents_at (P.update_object mem (kong_file r) b).1 q ≡ contents_at b q
  pub update-done :
      (mem : Memory) (r : Ref) (b : P.State)
      → (P.update_object mem (kong_file r) b).0 ≡ none
      → contents_at (P.update_object mem (kong_file r) b).1 (path_of (build (mem.cell r)))
        ≡ some (contents_of (build (mem.cell r)))
  pub delete-others :
      (mem : Memory) (r : Ref) (b : P.State) (q : String)
      → q ≢ path_of (build (mem.cell r))
      → contents_at (P.delete_object mem (kong_file r) b).1 q ≡ contents_at b q
  pub delete-done :
      (mem : Memory) (r : Ref) (b : P.State)
      → (P.delete_object mem (kong_file r) b).0 ≡ none
      → contents_at (P.delete_object mem (kong_file r) b).1 (path_of (build (mem.cell r))) ≡ none
  pub exists-others :
      (mem : Memory) (r : Ref) (b : P.State) (q : String)
      → contents_at (P.object_exists mem (kong_file r) b).1 q ≡ contents_at b q
  pub exists-told :
      (mem : Memory) (r : Ref) (b : P.State)
      → ((P.object_exists mem (kong_file r) b).0.0 ≡ true)
        ↔ ((P.object_exists mem (kong_file r) b).0.1 ≡ none)

pub object_exists-cache :
    (C : CacheLib) (K : KongClient) (mem : Memory) (r : Ref) (b : Backend C K)
    → (object_exists C K mem (kong_file r) b).1.cache ≡ b.cache
unfolding object_exists
object_exists-cache C K mem r b = ground arith

-- The table of the proxy is its cache.
abbrev pub table_of : (C : CacheLib) (K : KongClient) → IsCache C → IsTable (cached_proxy C K)
table_of C K L = record {
  find = λ b k. L.find b.cache k;
  find-update = update_object-cache C K L;
  find-delete = delete_object-cache C K L;
  find-exists = λ mem r b k. ap (λ (s : C.Indexer). L.find s k) (object_exists-cache C K mem r b);
  known = object_exists_in_cache-find C K L;
}

-- The portal is Kong.
abbrev pub files_of :
    (C : CacheLib) (K : KongClient) → IsFilesApi K → IsPublisher (cached_proxy C K)
files_of C K A = record {
  contents_at = λ b q. A.contents_at b.server q;
  update-others = update_object-others C K A;
  update-done = λ mem r b fine. (update_object-done C K A mem r b fine).1;
  delete-others = delete_object-others C K A;
  delete-done = delete_object-done C K A;
  exists-others = λ mem r b q. (object_exists-answer C K A mem r b q).1;
  exists-told = λ mem r b. (object_exists-answer C K A mem r b "").2;
}
