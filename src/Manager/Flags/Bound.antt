-- ===== src/Manager/Flags/Bound.antt =====
-- What the environment makes of the flags, and what the configuration gets of it.
use kong_portal_controller.Base.{
  String, ◌≡◌, ◌≢◌, refl, sym, ◌∙◌, ap, false, Option, none, some, List, [], ◌∷◌, ok, err, ◌==◌,
  string_eq, nat_eq, string_dec, if◌then◌else◌, arith,
}
use mathlib.Core.Path.{subst}
use kong_portal_controller.Base.{returns}
use kong_portal_controller.Annotations.{lookup}
use kong_portal_controller.AdminApi.{CertLib}
use kong_portal_controller.AdminApi.Headers.{HttpRequest, round_trip}
use kong_portal_controller.AdminApi.Workspace.{WorkspaceLib}
use kong_portal_controller.Manager.Kong.{Setting, get_kong_client, token_sent}
use kong_portal_controller.Command.Env.{
  Flag, env_key, bind_env_vars, IsBound, flag_wins, unset, from_env, AllBound,
  bind_env_vars-AllBound,
}
use kong_portal_controller.Manager.{Config}
use kong_portal_controller.Manager.Flags.{
  Value, string_var, PflagLib, set, flag_lib, value_of, config_of,
}

-- The flag of this name, with its mark whether the command line set it.
unfoldable pub flag_of : String → List (Flag Value) → Option (Flag Value)
flag_of name [] = none
flag_of name (f ∷ fs) = if f.name == name then some f else flag_of name fs

value_of-flag_of :
    (name : String) (fs : List (Flag Value))
    → value_of name fs ≡ elim (flag_of name fs) [ none ↦ none | some f ↦ some f.value ]
unfolding value_of flag_of
value_of-flag_of name [] = refl
value_of-flag_of name (f ∷ fs) = ground (arith, value_of-flag_of name fs)

module _ (P : PflagLib) where
  IsBound-name : {f g : Flag Value} → IsBound (flag_lib P) f g → g.name ≡ f.name
  IsBound-name (flag_wins f h) = refl
  IsBound-name (unset f h) = refl
  IsBound-name (from_env f s v a b c) = refl

  -- The flag of a name is bound to the flag of that name.
  IsBound-flag_of :
      (name : String) (fs gs : List (Flag Value)) (f : Flag Value)
      → AllBound (flag_lib P) fs gs
      → flag_of name fs ≡ some f
      → (g : Flag Value) × (flag_of name gs ≡ some g) × IsBound (flag_lib P) f g
  unfolding flag_of
  IsBound-flag_of name [] gs f bound h = absurd (ground arith)
  IsBound-flag_of name (f' ∷ fs) [] f bound h = elim bound [ ]
  IsBound-flag_of name (f' ∷ fs) (g ∷ gs) f (b, bound) h = elim (string_dec f'.name name) [
    | yes same ↦
        let here : f' ≡ f = ground arith in
        (g, ground (arith, IsBound-name b), subst (λ x. IsBound (flag_lib P) x g) here b)
    | no apart ↦
        let found : flag_of name fs ≡ some f = ground arith in
        let (g', there, b') = IsBound-flag_of name fs gs f bound found in
        (g', ground (arith, IsBound-name b, there), b')
  ]

  flag_of-name :
      (name : String) (fs : List (Flag Value)) (f : Flag Value)
      → flag_of name fs ≡ some f
      → f.name ≡ name
  unfolding flag_of
  flag_of-name name [] f h = absurd (ground arith)
  flag_of-name name (f' ∷ fs) f h = ground (arith, flag_of-name name fs f)

  -- What the flag holds after the binding.
  abbrev pub bound_value : Flag Value → Option Value
  bound_value f = if f.changed then some f.value else elim (P.lookup_env (env_key f.name)) [
    | none ↦ some f.value
    | some s ↦ elim (set P s f.value) [ ok v ↦ some v | err e ↦ none ]
  ]

  IsBound-value : {f g : Flag Value} → IsBound (flag_lib P) f g → some g.value ≡ bound_value f
  IsBound-value (flag_wins f h) = ground (arith, h)
  IsBound-value (unset f h) = ground (arith, h)
  IsBound-value (from_env f s v a b c) = ground (arith, a, b, c)

  -- With no error from the binding, the flag of any name holds what the command line gave; where it gave
  -- nothing, what its environment variable gives; and where there is none either, what it held before.
  pub bind_env_vars-precedence :
      (name : String) (fs gs : List (Flag Value)) (f : Flag Value)
      → bind_env_vars (flag_lib P) fs ≡ (none, gs)
      → flag_of name fs ≡ some f
      → value_of name gs ≡ bound_value f
  bind_env_vars-precedence name fs gs f bound h =
      let (g, there, b) =
        IsBound-flag_of name fs gs f (bind_env_vars-AllBound (flag_lib P) fs gs bound) h in
      ground (arith, value_of-flag_of name gs, there, IsBound-value b)

  token_key : env_key "kong-admin-token" ≡ "CONTROLLER_KONG_ADMIN_TOKEN"
  unfolding env_key
  token_key = refl

  token_bound :
      (fs gs : List (Flag Value)) (f : Flag Value) (old token : String)
      → flag_of "kong-admin-token" fs ≡ some f
      → f.changed ≡ false
      → f.value ≡ string_var old
      → P.lookup_env "CONTROLLER_KONG_ADMIN_TOKEN" ≡ some token
      → bind_env_vars (flag_lib P) fs ≡ (none, gs)
      → (config_of gs).kong_admin_token ≡ token
  unfolding config_of set
  token_bound fs gs f old token there free kind given bound =
      let name : env_key f.name ≡ "CONTROLLER_KONG_ADMIN_TOKEN" =
        ap env_key (flag_of-name "kong-admin-token" fs f there) ∙ token_key in
      ground (arith, bind_env_vars-precedence "kong-admin-token" fs gs f bound there, name)

  -- The token of the environment reaches Kong. The flag --kong-admin-token, which holds a text, is left
  -- alone on the command line, CONTROLLER_KONG_ADMIN_TOKEN is set and not empty, and the flags are bound
  -- without an error. Then every request through a client that is built from them without an error
  -- carries the token, as the only value of the header kong-admin-token.
  pub env_token_sent :
      (T : CertLib) (W : WorkspaceLib) (fs gs : List (Flag Value)) (f : Flag Value)
      (old token : String) (s s' : Setting T W) (client : W.Client) (lines : List String)
      (req : HttpRequest)
      → flag_of "kong-admin-token" fs ≡ some f
      → f.changed ≡ false
      → f.value ≡ string_var old
      → P.lookup_env "CONTROLLER_KONG_ADMIN_TOKEN" ≡ some token
      → token ≢ ""
      → bind_env_vars (flag_lib P) fs ≡ (none, gs)
      → s.config ≡ config_of gs
      → get_kong_client T W s ≡ returns (ok client, s')
      → s'.defaults.client_headers ≡ some lines
      → lookup "kong-admin-token" (round_trip lines req).header ≡ some (token ∷ [])
  env_token_sent T W fs gs f old token s s' client lines req there free kind given full bound config
        made installed =
      let same : s.config.kong_admin_token ≡ token =
        ap (λ (c : Config). c.kong_admin_token) config
        ∙ token_bound fs gs f old token there free kind given bound in
      let sent = token_sent T W s s' client lines req (λ e. full (sym same ∙ e)) made installed in
      sent ∙ ap (λ (t : String). some (t ∷ [])) same
