-- ===== src/Config/Faults.antt =====
-- The problems that LoadFromEnv lists.
use agentic_autoscaler.Prelude.{
  ℤ, ℕ, pos, String, List, [], ◌∷◌, ◌++◌, ◌≡◌, ◌⊎◌, inl, inr, refl, arith, All, sym, ◌≢◌,
}
use mathlib.Core.Path.{subst}
use mathlib.Core.List.{append-nil}
use agentic_autoscaler.Go.Float.{Float64}
use agentic_autoscaler.Config.{Config, ConfigError, validate}
use agentic_autoscaler.Config.Load.{
  Texts, Environ, Found, ◌>>=◌, pure, env_units, env_seconds_or_default, env_minutes_or_default,
  env_hours_or_default, read_environ, accept, load_from_env,
}
use agentic_autoscaler.Config.Checked.{IsChecked, both_nil, validate-IsChecked}
use agentic_autoscaler.Config.Variables.{
  Variable, variables, IsReadable, Tells, TellsAll, IsFault, IsNamed, int_or-Tells, real_or-Tells,
  required-Tells, none_told, told-IsFault, told-IsNamed,
}

module _ {F : Type 0} (x : Texts F) (env : Environ) where
  units-Tells :
      (unit : ℕ) (name : String) (def : ℤ)
      → Tells x env (Variable.integer name) (env_units x unit name def env).1
  unfolding env_units ◌>>=◌ pure
  units-Tells unit name def =
      subst (Tells x env (Variable.integer name)) (sym (append-nil _)) (int_or-Tells x env name _)

  seconds_or-Tells :
      (name : String) (def : ℤ)
      → Tells x env (Variable.integer name) (env_seconds_or_default x name def env).1
  unfolding env_seconds_or_default
  seconds_or-Tells name def = units-Tells _ name def

  minutes_or-Tells :
      (name : String) (def : ℤ)
      → Tells x env (Variable.integer name) (env_minutes_or_default x name def env).1
  unfolding env_minutes_or_default
  minutes_or-Tells name def = units-Tells _ name def

  hours_or-Tells :
      (name : String) (def : ℤ)
      → Tells x env (Variable.integer name) (env_hours_or_default x name def env).1
  unfolding env_hours_or_default
  hours_or-Tells name def = units-Tells _ name def

  bind-TellsAll :
      {A B : Type 0} (v : Variable) (vs : List Variable) (m : Found A) (g : A → Found B)
      → Tells x env v m.1
      → TellsAll x env vs (g m.0).1
      → TellsAll x env (v ∷ vs) (m >>= g).1
  unfolding ◌>>=◌
  bind-TellsAll v vs m g p q = TellsAll.told_next p q

  read_environ-TellsAll : ⦃f : Float64 F⦄ → TellsAll x env variables (read_environ x env).1
  unfolding read_environ pure
  read_environ-TellsAll = bind-TellsAll _ _ _ _ (required-Tells x env _) (
      bind-TellsAll _ _ _ _ (required-Tells x env _) (
        bind-TellsAll _ _ _ _ (seconds_or-Tells _ (pos 60000000000)) (
          bind-TellsAll _ _ _ _ (minutes_or-Tells _ (pos 3600000000000)) (
            bind-TellsAll _ _ _ _ (int_or-Tells x env _ _) (
              bind-TellsAll _ _ _ _ (seconds_or-Tells _ (pos 5000000000)) (
                bind-TellsAll _ _ _ _ (int_or-Tells x env _ _) (
                  bind-TellsAll _ _ _ _ (minutes_or-Tells _ (pos 1800000000000)) (
                    bind-TellsAll _ _ _ _ (hours_or-Tells _ (pos 86400000000000)) (
                      bind-TellsAll _ _ _ _ (int_or-Tells x env _ _) (
                        bind-TellsAll _ _ _ _ (int_or-Tells x env _ _) (
                          bind-TellsAll _ _ _ _ (seconds_or-Tells _ (pos 60000000000)) (
                            bind-TellsAll _ _ _ _ (int_or-Tells x env _ _) (
                              bind-TellsAll _ _ _ _ (real_or-Tells x env _ _) (
                                bind-TellsAll _ _ _ _ (int_or-Tells x env _ _) (
                                  bind-TellsAll _ _ _ _ (int_or-Tells x env _ _) (
                                    bind-TellsAll _ _ _ _ (seconds_or-Tells _ (pos 60000000000)) (
                                      bind-TellsAll _ _ _ _ (seconds_or-Tells _ (pos 300000000000))
                                        (bind-TellsAll _ _ _ _ (int_or-Tells x env _ _) (
                                          bind-TellsAll _ _ _ _
                                            (seconds_or-Tells _ (pos 30000000000))
                                            (bind-TellsAll _ _ _ _ (int_or-Tells x env _ _)
                                              TellsAll.told_none))))))))))))))))))))

  -- The configuration is accepted with readable variables; or the list that is given back is not empty,
  -- names each variable that is not readable, and holds nothing but these and what the checks find.
  abbrev pub IsReported : ⦃f : Float64 F⦄ → Config F ⊎ List ConfigError → Type 0
  IsReported (inl c) = All (IsReadable x env) variables × IsChecked c
  IsReported (inr errs) =
      (errs ≢ [])
      × All (IsNamed x env errs) variables
      × ((told : List ConfigError) × All (IsFault x env variables) told
          × (errs ≡ told ++ validate (read_environ x env).0))

  accepted-IsReported :
      ⦃f : Float64 F⦄ (errs : List ConfigError)
      → errs ≡ (read_environ x env).1 ++ validate (read_environ x env).0
      → IsReported (accept x (read_environ x env).0 errs)
  accepted-IsReported [] e =
      let (told, checked) = both_nil (read_environ x env).1 _ (sym e) in
      (none_told x env read_environ-TellsAll told, validate-IsChecked _ checked)
  accepted-IsReported (p ∷ errs) e = (
    λ h. absurd (ground arith),
    subst (λ l. All (IsNamed x env l) variables) (sym e)
        (told-IsNamed x env _ read_environ-TellsAll),
    ((read_environ x env).1, told-IsFault x env read_environ-TellsAll, e),
  )

  -- LoadFromEnv gives back a configuration only if both URLs are set, each number is left out or parses,
  -- and the bounds of the design hold. Otherwise it gives back a list that is not empty, names every
  -- variable of which that is not true, and before the findings of the checks names no other.
  pub load_from_env-IsReported : ⦃f : Float64 F⦄ → IsReported (load_from_env x env)
  unfolding load_from_env
  load_from_env-IsReported = accepted-IsReported _ refl
