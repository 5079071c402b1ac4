-- ===== src/Reconciler/Mirror.antt =====
-- What the controller promises, with no pointers, no requests and no encodings: a table of the
-- objects that were published, the files of the portal, and what each request does to the two.
use kong_portal_controller.Base.{
  ℕ, String, ◌≡◌, ◌≢◌, ◌⊎◌, Bool, true, false, not, ◌&&◌, Option, none, some, List, [], ◌∷◌, Error,
  ◌==◌, string_eq, nat_eq, if◌then◌else◌,
}
use kong_portal_controller.Api.{KongFile}
use kong_portal_controller.Annotations.{matches_controller_class_name}
use kong_portal_controller.Build.{build}
use kong_portal_controller.Store.{key_of}
use kong_portal_controller.Proxy.Laws.{path_of, contents_of}
use kong_portal_controller.Reconciler.{KubeClient, is_past, mark_validated}
use kong_portal_controller.Reconciler.Invariant.{key_of_file}

-- The published objects by `namespace/name`, and the files by path.
pub record Mirror : Type 0 where
  pub published : String → Option KongFile
  pub file : String → Option String

pub record Same (m m' : Mirror) : Type 0 where
  pub table : (k : String) → m'.published k ≡ m.published k
  pub files : (q : String) → m'.file q ≡ m.file q

-- The object is published: it is in the table, as `stored`, and its file is in the portal, unless the
-- portal failed. Nothing else changes.
pub record Published (failed : Option Error) (obj stored : KongFile) (m m' : Mirror) : Type 0 where
  pub there : failed ≡ none → m'.file (path_of (build obj)) ≡ some (contents_of (build obj))
  pub others : (q : String) → q ≢ path_of (build obj) → m'.file q ≡ m.file q
  pub table :
      (k : String) → m'.published k ≡ (if k == key_of_file obj then some stored else m.published k)

-- The object is retracted: it leaves the table, and its file the portal, unless the portal failed.
pub record Retracted (failed : Option Error) (obj : KongFile) (m m' : Mirror) : Type 0 where
  pub gone : failed ≡ none → m'.file (path_of (build obj)) ≡ none
  pub others : (q : String) → q ≢ path_of (build obj) → m'.file q ≡ m.file q
  pub table : (k : String) → m'.published k ≡ (if k == key_of_file obj then none else m.published k)

module _ (R : KubeClient) (now : ℕ) (class namespace name : String) where
  abbrev pub is_deleted : KongFile → Bool
  is_deleted obj =
      not (R.is_zero obj.meta.deletion_timestamp) && is_past now obj.meta.deletion_timestamp

  -- What the request for `namespace/name` may do where the cluster answers it by `answer` and the reply
  -- has the error `failed`.
  pub data Request (cluster : R.Cluster) (answer : Option Error × KongFile) (failed : Option Error)
      (m m' : Mirror) : Type 0 where
    -- The cluster cannot be asked.
    unanswered :
        (e : Error)
        → answer.0 ≡ some e
        → R.is_not_found e ≡ false
        → failed ≡ some e
        → Same m m'
        → Request cluster answer failed m m'
    -- No such object, and none was published under the name.
    unknown :
        (e : Error)
        → answer.0 ≡ some e
        → R.is_not_found e ≡ true
        → m.published (key_of namespace name) ≡ none
        → failed ≡ none
        → Same m m'
        → Request cluster answer failed m m'
    -- No such object any more: the published one is retracted.
    removed :
        (e : Error) (old : KongFile)
        → answer.0 ≡ some e
        → R.is_not_found e ≡ true
        → m.published (key_of namespace name) ≡ some old
        → Retracted failed old m m'
        → Request cluster answer failed m m'
    -- The object is being deleted, and the portal does not answer for its file.
    deletion_unanswered :
        (e : Error)
        → answer.0 ≡ none
        → is_deleted answer.1 ≡ true
        → failed ≡ some e
        → Same m m'
        → Request cluster answer failed m m'
    -- The object is being deleted, and is retracted.
    deleted :
        answer.0 ≡ none
        → is_deleted answer.1 ≡ true
        → Retracted failed answer.1 m m'
        → Request cluster answer failed m m'
    -- Another class, or validated already.
    skipped :
        answer.0 ≡ none
        → is_deleted answer.1 ≡ false
        → (matches_controller_class_name answer.1.meta class ≡ false)
          ⊎ (answer.1.status.validated ≡ true)
        → failed ≡ none
        → Same m m'
        → Request cluster answer failed m m'
    -- A new object, which the portal refuses: it is in the table all the same.
    refused :
        (e : Error)
        → answer.0 ≡ none
        → is_deleted answer.1 ≡ false
        → matches_controller_class_name answer.1.meta class ≡ true
        → answer.1.status.validated ≡ false
        → failed ≡ some e
        → Published failed answer.1 answer.1 m m'
        → Request cluster answer failed m m'
    -- A new object, published, and stored as the cluster answers to its status.
    published :
        answer.0 ≡ none
        → is_deleted answer.1 ≡ false
        → matches_controller_class_name answer.1.meta class ≡ true
        → answer.1.status.validated ≡ false
        → failed ≡ (R.update_status (mark_validated answer.1) cluster).0.0
        → Published none answer.1 (R.update_status (mark_validated answer.1) cluster).0.1 m m'
        → Request cluster answer failed m m'

-- What happens to the controller: a request is served at this time, where the cluster is as given, with
-- the error of the reply; others change the cluster; or the controller restarts.
pub data Event (R : KubeClient) : Type 0 where
  asked :
      (now : ℕ) (namespace name : String) (cluster : R.Cluster) (failed : Option Error) → Event R
  changed : Event R
  restarts : Event R

module _ (R : KubeClient) (class : String) where
  -- What an event does to the mirror: a request what `Request` allows for the answer of the cluster, a
  -- change of the cluster nothing, and after a restart nothing is published, and the files stay.
  abbrev pub Turn : Event R → Mirror → Mirror → Type 0
  Turn (asked now namespace name cluster failed) m m' =
      Request R now class namespace name cluster (R.get namespace name cluster) failed m m'
  Turn changed m m' = Same m m'
  Turn restarts m m' =
      ((k : String) → m'.published k ≡ none) × ((q : String) → m'.file q ≡ m.file q)

  -- The events, the last one first, and what they have made of the mirror.
  pub data History (m : Mirror) : List (Event R) → Mirror → Type 0 where
    start : History m [] m
    later :
        {events : List (Event R)} {event : Event R} {a b : Mirror}
        → History m events a
        → Turn event a b
        → History m (event ∷ events) b
