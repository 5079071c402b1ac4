-- ===== src/AdminApi/Workspace.antt =====
-- internal/adminapi/client.go: `GetKongClientForWorkspace`, with the lock `clientSetup`.
use kong_portal_controller.Base.{
  String, ◌≡◌, ◌≢◌, Bool, true, false, Option, none, some, arith, Error, wrap, Result, ok, err,
  Outcome, returns, blocks, ◌==◌, string_eq, nat_eq, string_dec, if◌then◌else◌,
}

-- go-kong's client and its workspaces. `exists_by_name` and `create_workspace` are requests to the
-- Admin API, whose state is `Server`.
pub record WorkspaceLib : Type 1 where
  pub Client : Type 0
  pub Server : Type 0
  pub new_client : String → Result Client
  pub exists_by_name : Client → String → Server → Result Bool × Server
  pub create_workspace : Client → String → Server → Option Error × Server
  pub set_workspace : String → Client → Client

abbrev pub is_err {ℓ} : {A : Type ℓ} → Result A → Bool
is_err (ok a) = false
is_err (err e) = true

module _ (W : WorkspaceLib) where
  -- The lock is taken, the result of the function, and the Admin API.
  pub record Session : Type 0 where
    pub locked : Bool
    pub server : W.Server

  -- From `clientSetup.Lock()` to the end, with the lock free at the start. The early returns leave the
  -- lock taken.
  unfoldable pub setup_workspace : W.Client → String → W.Server → Result W.Client × Session
  setup_workspace client name s =
      let (exists, s₁) = W.exists_by_name client name s in
      elim exists [
        | err e ↦ (err (wrap "looking up workspace" e), record { locked = true; server = s₁ })
        | ok true ↦ (ok (W.set_workspace name client), record { locked = false; server = s₁ })
        | ok false ↦
            let (failed, s₂) = W.create_workspace client name s₁ in
            elim failed [
              | some e ↦ (err (wrap "creating workspace" e), record { locked = true; server = s₂ })
              | none ↦ (ok (W.set_workspace name client), record { locked = false; server = s₂ })
            ]
      ]

  unfoldable pub get_kong_client_for_workspace :
      String → String → Session → Outcome (Result W.Client × Session)
  unfolding setup_workspace
  get_kong_client_for_workspace url name s = elim (W.new_client url) [
    | err e ↦ returns (err (wrap "creating Kong client" e), s)
    | ok client ↦
        if name == ""
        then returns (ok client, s)
        else if s.locked
        then blocks
        else returns (setup_workspace client name s.server)
  ]

  setup_workspace-locked :
      (client : W.Client) (name : String) (s : W.Server)
      → (setup_workspace client name s).1.locked ≡ is_err (setup_workspace client name s).0
  unfolding setup_workspace
  setup_workspace-locked client name s = ground arith

  -- With the lock free and a URL that gives a client, the function returns, and it leaves the lock
  -- taken exactly when it returns an error.
  pub lock_kept_iff :
      (url name : String) (s : Session) (client : W.Client)
      → s.locked ≡ false
      → W.new_client url ≡ ok client
      → (result : Result W.Client) × (s' : Session) × (get_kong_client_for_workspace url name s
          ≡ returns (result, s'))
        × (s'.locked ≡ is_err result)
  unfolding get_kong_client_for_workspace
  lock_kept_iff url name s client free made = elim (string_dec name "") [
    | yes none_given ↦ (ok client, s, ground arith, ground arith)
    | no given ↦ (
      (setup_workspace client name s.server).0,
      (setup_workspace client name s.server).1,
      ground arith,
      setup_workspace-locked client name s.server,
    )
  ]

  -- After a failed look-up or creation of the workspace, every later call that names a workspace waits
  -- for ever, if only its URL is well formed.
  pub failure-blocks :
      (url name later_url later_name : String) (s s' : Session) (client later_client : W.Client)
      (e : Error)
      → name ≢ ""
      → W.new_client url ≡ ok client
      → get_kong_client_for_workspace url name s ≡ returns (err e, s')
      → later_name ≢ ""
      → W.new_client later_url ≡ ok later_client
      → get_kong_client_for_workspace later_url later_name s' ≡ blocks
  unfolding get_kong_client_for_workspace
  failure-blocks url name later_url later_name s s' client later_client e given made failed
        later_given later_made =
      ground arith
