-- ===== src/Command/Env.antt =====
-- internal/cmd/rootcmd/env.go: flags that are not set take their value from the environment.
use kong_portal_controller.Base.{
  String, ◌<>◌, ◌≡◌, ap, ◌∙◌, inl, inr, Bool, true, false, Option, none, some, List, [], ◌∷◌, arith,
  Error, error_text, message, Result, ok, err, Result-cases, Option-cases, Bool-cases, ◌==◌,
  string_eq, nat_eq, ℕ_discrete, if◌then◌else◌,
}
use mathlib.Core.Path.{subst}
use Prim.Native.Char.{Char, code}
use Prim.Native.String as Str

-- `strings.ReplaceAll(s, "-", "_")`
unfoldable pub replace_dashes : String → String
unfolding ℕ_discrete
replace_dashes Str.[] = Str.[]
replace_dashes (Str.◌∷◌ c s) =
    let rest = replace_dashes s in if code c == b'-' then Str.◌∷◌ "_" rest else Str.◌∷◌ c rest

-- The letter that stands in the second text where `c` stands in the first.
translate : String → String → Char → Char
translate Str.[] capitals c = c
translate (Str.◌∷◌ a letters) Str.[] c = c
translate (Str.◌∷◌ a letters) (Str.◌∷◌ b capitals) c =
    let later = translate letters capitals c in if code c == code a then b else later

-- `strings.ToUpper` on ASCII, which is all that the flags' names hold.
unfoldable pub to_upper : String → String
unfolding translate ℕ_discrete
to_upper Str.[] = Str.[]
to_upper (Str.◌∷◌ c s) =
    Str.◌∷◌ (translate "abcdefghijklmnopqrstuvwxyz" "ABCDEFGHIJKLMNOPQRSTUVWXYZ" c) (to_upper s)

abbrev pub env_key_prefix : String
env_key_prefix = "CONTROLLER_"

unfoldable pub env_key : String → String
unfolding to_upper replace_dashes
env_key name = env_key_prefix <> to_upper (replace_dashes name)

-- A `pflag.Flag`: its name, whether the command line set it, and its value.
pub record Flag (V : Type 0) : Type 0 where
  pub name : String
  pub changed : Bool
  pub value : V

-- `pflag.Value.Set` and `os.LookupEnv`.
pub record FlagLib : Type 1 where
  pub Value : Type 0
  pub set : String → Value → Result Value
  pub lookup_env : String → Option String

module _ (F : FlagLib) where
  -- The function that `VisitAll` calls. Its panic carries the error of `Set`.
  unfoldable pub visit : Flag F.Value → Result (Flag F.Value)
  visit f = if f.changed then ok f else elim (F.lookup_env (env_key f.name)) [
    | none ↦ ok f
    | some env_value ↦ elim (F.set env_value f.value) [
      | ok v ↦ ok (record f { value = v })
      | err e ↦ err e
    ]
  ]

  -- The flags are visited in turn, and none after the first panic. `defer` turns it into the error.
  -- `VisitAll` visits the flags by name, so the list holds them in the order of their names.
  unfoldable pub bind_env_vars : List (Flag F.Value) → Option Error × List (Flag F.Value)
  bind_env_vars [] = (none, [])
  bind_env_vars (f ∷ fs) =
      let rest = bind_env_vars fs in
      elim (visit f) [
        | err e ↦ (some (message ("environment binding failed: " <> error_text e)), f ∷ fs)
        | ok f' ↦ (rest.0, f' ∷ rest.1)
      ]

  -- What a flag is after the binding: as it was if the command line set it or the environment has no
  -- such variable, and otherwise with the variable's value.
  pub data IsBound : Flag F.Value → Flag F.Value → Type 0 where
    flag_wins : (f : Flag F.Value) → f.changed ≡ true → IsBound f f
    unset : (f : Flag F.Value) → F.lookup_env (env_key f.name) ≡ none → IsBound f f
    from_env :
        (f : Flag F.Value) (text : String) (v : F.Value)
        → f.changed ≡ false
        → F.lookup_env (env_key f.name) ≡ some text
        → F.set text f.value ≡ ok v
        → IsBound f (record f { value = v })

  abbrev pub AllBound : List (Flag F.Value) → List (Flag F.Value) → Type 0
  AllBound [] [] = Unit
  AllBound (f ∷ fs) (g ∷ gs) = IsBound f g × AllBound fs gs
  AllBound [] (g ∷ gs) = ⊥
  AllBound (f ∷ fs) [] = ⊥

  visit-IsBound : (f g : Flag F.Value) → visit f ≡ ok g → IsBound f g
  unfolding visit
  visit-IsBound f g h = elim (Bool-cases f.changed) [
    | inl set ↦ subst (λ (x : Flag F.Value). IsBound f x) (ground arith) (flag_wins f set)
    | inr free ↦ elim (Option-cases (F.lookup_env (env_key f.name))) [
      | inl missing ↦ subst (λ (x : Flag F.Value). IsBound f x) (ground arith) (unset f missing)
      | inr (text, there) ↦ elim (Result-cases (F.set text f.value)) [
        | inl (v, taken) ↦
            subst (λ (x : Flag F.Value). IsBound f x) (ground arith)
              (from_env f text v free there taken)
        | inr (e, bad) ↦ absurd (ground arith)
      ]
    ]
  ]

  -- With no error every flag is bound: one that the command line set keeps its value, and any other has
  -- the value of its environment variable where there is one.
  pub bind_env_vars-AllBound :
      (fs gs : List (Flag F.Value)) → bind_env_vars fs ≡ (none, gs) → AllBound fs gs
  unfolding bind_env_vars
  bind_env_vars-AllBound [] [] h = tt
  bind_env_vars-AllBound [] (g ∷ gs) h = cc
  bind_env_vars-AllBound (f ∷ fs) [] h = ground arith
  bind_env_vars-AllBound (f ∷ fs) (g ∷ gs) h = elim (Result-cases (visit f)) [
    | inl (f', e) ↦
        let head : f' ≡ g = ground arith in
        let rest : bind_env_vars fs ≡ (none, gs) = ground arith in
        (visit-IsBound f g (e ∙ ap ok head), bind_env_vars-AllBound fs gs rest)
    | inr (bad, e) ↦ absurd (ground arith)
  ]
