-- ===== src/Lib.antt =====
-- The Kong Portal Controller: what it does with a KongFile, from the start of the process to the
-- file in the Developer Portal of Kong.
--
-- The program. KongFile objects of a Kubernetes cluster describe pages, assets and specifications of
-- the Developer Portal. The controller watches them. The reconciler reads an object from the cluster
-- and asks the proxy to update or delete it; the proxy keeps a cache of the objects it has sent,
-- builds the file of an object and sends it to Kong through the file service. An admission webhook
-- validates KongFiles before the cluster takes them. The manager reads the configuration, makes the
-- client of Kong's Admin API and starts all this.
--
-- Which file models which part:
--   Base           strings, errors as values, panics and blocked goroutines, calls that change a state
--                  (Base/Action), integers with a sign (Base/Int), `strings.SplitN`, `strings.TrimSpace`
--   Api            pkg/apis/v1/kongfile_types.go, groupversion_info.go
--   Copies         pkg/apis/v1/zz_generated.deepcopy.go, on a heap of its own, where the maps and pointers
--                  of metadata have addresses; elsewhere an object holds its metadata as a value
--   Annotations    internal/annotations/annotations.go, internal/controllers/utils/utils.go (the event
--                  filter is in Annotations/Filter)
--   Service        internal/kong/file_service.go, types.go
--   Store          internal/store/store.go (the lister in Store/Lister)
--   Build          internal/dataplane/proxy/cached_proxy_resolver.go: `Build`; Build/Page has a reader of
--                  the pages that it writes
--   Proxy          the same file: `UpdateObject`, `DeleteObject`, `ObjectExists`,
--                  `ObjectExistsInCache`; Proxy/Startup: `NewCacheBasedProxyWithStagger`,
--                  `initialize`, `IsReady`, `NeedLeaderElection`
--   Proxy/Interface, Proxy/Contract
--                  internal/dataplane/proxy/proxy.go: the interface that the reconciler takes, and what it
--                  relies on of it; `cached_proxy` is the implementation, for which `table_of` and `files_of`
--                  fill the contract
--   Metrics        internal/metrics/prometheus.go
--   Reconciler     internal/controllers/developer/kongfile_controller.go. Reconciler/Mirror is the abstract
--                  view of it, without the cache: what the portal has of a resource's file, and what each
--                  turn of the controller, for its request and its outcome, does to it; Reconciler/Refinement and Reconciler/Simulation
--                  relate the two. Reconciler/Pass has a pass of the controller over a list of objects.
--                  Service/Traffic and Reconciler/Traffic put a client that writes down its requests in
--                  the place of go-kong's
--   Admission      internal/admission/validator.go, errors.go; Admission/Server and Admission/Tls:
--                  server.go
--   AdminApi       internal/adminapi/client.go (the session with a workspace in AdminApi/Workspace),
--                  header_round_tripper.go in AdminApi/Headers
--   Logging        internal/util/logging.go
--   Diagnostics    internal/diagnostics/server.go: the handlers, and in Diagnostics/Listen the goroutines of
--                  `Listen` and `receiveConfig` as steps in any order
--   Command        internal/cmd/rootcmd/env.go in Command/Env; servers.go, run.go and rootcmd.go in
--                  Command/Root
--   Manager        internal/manager/config.go, its flags and their defaults in Manager/Flags; the other
--                  children: setup.go, controllerdef.go, and run.go in Manager/Run
-- A function keeps its name of the source in snake case. Fixtures and Tests hold concrete instances
-- of the parameters below and applications of the theorems to them.
--
-- State. The reconciler shares its objects with the cache: it sends an object, which puts a pointer
-- to it into the cache, and then lets the API server write its answer into the same object. So the
-- memory is explicit: an object is a reference into it, and `World` is the memory, the cache, Kong
-- and the cluster. A function that changes its state returns the new one. A panic and a lock that is
-- never released are outcomes beside a return. A run is a sequence of steps: reconciliations, changes
-- that others make to the cluster, and restarts that empty the cache.
--
-- Code that is not of this repository is a parameter, and what the program relies on is a named
-- hypothesis:
--   CacheLib, IsCache         the cache of client-go: a map from keys to items
--   KongClient, IsFilesApi    go-kong and the files of the Admin API: a request touches at most the file
--                             that its URL names, a PUT or DELETE that succeeds has stored or removed
--                             it, and a GET changes nothing
--   IsHealthy                 while Kong is up it accepts the files of given objects and stays up, and the API
--                             server accepts their status
--   MetaLib, IsMetaLib        the deep copies of the metadata of objects and lists: a copy reads as the
--                             original, refers only to what the copying has allocated, and changes nothing
--                             that was there
--   KubeClient, KeepsNames    the client of controller-runtime; an object is never renamed
--   IsApiServer               a status update that reports no error has stored the status, and changes no
--                             object of another name; the manager's client reads from a cache, and the
--                             next read is taken to see the status, as it does once the cache has
--                             caught up
--   Codec                     encoding/json and the decoder of admission reviews
--   TlsLib, CertLib           crypto/tls, crypto/x509 and reading a file
--   WorkspaceLib              the workspaces of go-kong
--   VersionLib                versions and the plugins of the root document
--   RegistryLib, IsRegistry   the registry of client_golang: a metric is registered at most once
--   FlagLib, PflagLib         pflag, its parsers, and the environment of the process
--   MuxLib, IsMux             the mux of net/http: a new pattern gets its handler and the others keep theirs
--   HttpLib, ContentLib       `http.ErrServerClosed`, which is itself for `errors.Is`; the encoder of
--                             encoding/json. The steps of Diagnostics/Listen let `ListenAndServe` return
--                             `ErrServerClosed` only after a call of `Shutdown`, and never nil
--   ManagerLib, StartLib      the RESTMapper, the registration of a controller, and the manager of
--                             controller-runtime; the request for the root document of Kong. The start
--                             of the manager blocks until the context ends, so its outcome may be that
--                             it blocks
-- The order of the requests that different goroutines send is not modelled: a reconciler has one
-- worker, and reconciliations follow each other. The goroutines of the diagnostics server do interleave.
-- All recursions are structural; there is no fuel.
--
-- Not modelled: log lines, what pprof answers, cobra's parsing of the arguments, the signal handler,
-- the generated clientset, which is empty, and what the manager does once it runs, apart from the
-- reconciliations.
pub mod Base
pub mod Api
pub mod Annotations
pub mod Service
pub mod Store
pub mod Copies
pub mod Build
pub mod Metrics
pub mod Proxy
pub mod Reconciler
pub mod Admission
pub mod AdminApi
pub mod Logging
pub mod Diagnostics
pub mod Command
pub mod Manager
mod Fixtures
mod Tests
