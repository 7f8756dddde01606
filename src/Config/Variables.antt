-- ===== src/Config/Variables.antt =====
-- The variables of LoadFromEnv, and the problems that their texts give.
use agentic_autoscaler.Prelude.{
  ℤ, String, str_eq, Option, some, none, List, Bool, [], ◌∷◌, ◌++◌, ◌≡◌, ◌⊎◌, inl, inr, refl, true,
  false, arith, All, if◌then◌else◌, sym,
}
use mathlib.Core.Path.{subst}
use mathlib.Core.List.{Memᴰ}
use agentic_autoscaler.Config.{ConfigError}
use agentic_autoscaler.Config.Load.{
  Texts, Environ, required, env_int_or_default, env_float64_or_default, or_unparseable,
}

-- What a variable holds: a text that must be there, or a number that may be left out.
pub data Variable : Type 0 where
  text integer real : String → Variable

-- The variables of LoadFromEnv that a problem can name, in the order in which it reads them.
abbrev pub variables : List Variable
variables =
    Variable.text "FORECAST_SERVICE_URL"
    ∷ Variable.text "PROMETHEUS_URL"
    ∷ Variable.integer "RECONCILE_INTERVAL_SECONDS"
    ∷ Variable.integer "HOT_PATH_HISTORY_MINUTES"
    ∷ Variable.integer "HOT_PATH_MIN_POINTS"
    ∷ Variable.integer "FORECAST_TIMEOUT_SECONDS"
    ∷ Variable.integer "PROPHET_MIN_POINTS"
    ∷ Variable.integer "CLASSIFIER_INTERVAL_MINUTES"
    ∷ Variable.integer "CLASSIFIER_HISTORY_HOURS"
    ∷ Variable.integer "CLASSIFIER_MIN_POINTS"
    ∷ Variable.integer "CLASSIFIER_HIGH_CONFIDENCE_POINTS"
    ∷ Variable.integer "CLASSIFIER_DEDUP_SECONDS"
    ∷ Variable.integer "CONTEXT_DOWNSAMPLE_RESOLUTION_MIN"
    ∷ Variable.real "CV_GUARD_MEAN_RPS"
    ∷ Variable.integer "RPS_PER_POD_NOISE_FLOOR_RPS"
    ∷ Variable.integer "HOURLY_PROFILE_MIN_HOURS"
    ∷ Variable.integer "DEFAULT_SCALE_UP_COOLDOWN_SECONDS"
    ∷ Variable.integer "DEFAULT_SCALE_DOWN_COOLDOWN_SECONDS"
    ∷ Variable.integer "DEFAULT_MAX_STEP_SIZE"
    ∷ Variable.integer "OLLAMA_TIMEOUT_SECONDS"
    ∷ Variable.integer "OLLAMA_MAX_TOKENS"
    ∷ []

abbrev pub problem : Variable → ConfigError
problem (Variable.text name) = ConfigError.missing_variable name
problem (Variable.integer name) = ConfigError.unparseable name
problem (Variable.real name) = ConfigError.unparseable name

not_some : {A : Type 0} (v : A) → none ≡ some v → ⊥
not_some v e = ground arith

module _ {F : Type 0} (x : Texts F) (env : Environ) where
  -- A text is not empty; a number is left out or parses.
  abbrev pub IsReadable : Variable → Type 0
  IsReadable (Variable.text name) = str_eq (env name) "" ≡ false
  IsReadable (Variable.integer name) =
      (str_eq (env name) "" ≡ true) ⊎ ((v : ℤ) × (x.parse_int (env name) ≡ some v))
  IsReadable (Variable.real name) =
      (str_eq (env name) "" ≡ true) ⊎ ((v : F) × (x.parse_float (env name) ≡ some v))

  -- The problems of one variable.
  abbrev pub Tells : Variable → List ConfigError → Type 0
  Tells v errs = (IsReadable v × (errs ≡ [])) ⊎ ((¬ IsReadable v) × (errs ≡ problem v ∷ []))

  -- The problems of the variables, one after another.
  pub data TellsAll : List Variable → List ConfigError → Type 0 where
    told_none : TellsAll [] []
    told_next :
        {v : Variable} {vs : List Variable} {e rest : List ConfigError}
        → Tells v e
        → TellsAll vs rest
        → TellsAll (v ∷ vs) (e ++ rest)

  told :
      {A : Type 0} (name : String) (def : A) (b : Bool) (o : Option A)
      → let errs = (if b then (def, []) else or_unparseable x name def o).1 in
        (((b ≡ true) ⊎ ((v : A) × (o ≡ some v))) × (errs ≡ []))
        ⊎ ((((b ≡ true) ⊎ ((v : A) × (o ≡ some v))) → ⊥)
            × (errs ≡ ConfigError.unparseable name ∷ []))
  told name def true o = inl (inl refl, refl)
  told name def false (some v) = inl (inr (v, refl), refl)
  told name def false none =
      inr (λ h. elim h [ inl e ↦ ground arith | inr p ↦ not_some p.0 p.1 ], refl)

  pub int_or-Tells :
      (name : String) (def : ℤ)
      → Tells (Variable.integer name) (env_int_or_default x name def env).1
  unfolding env_int_or_default
  int_or-Tells name def = told name def (str_eq (env name) "") (x.parse_int (env name))

  pub real_or-Tells :
      (name : String) (def : F)
      → Tells (Variable.real name) (env_float64_or_default x name def env).1
  unfolding env_float64_or_default
  real_or-Tells name def = told name def (str_eq (env name) "") (x.parse_float (env name))

  pub required-Tells : (name : String) → Tells (Variable.text name) (required name env).1
  unfolding required
  required-Tells name = ground arith

  pub none_told :
      {vs : List Variable} {errs : List ConfigError}
      → TellsAll vs errs
      → errs ≡ []
      → All IsReadable vs
  none_told TellsAll.told_none e = tt
  none_told (TellsAll.told_next (inl (fine, none_here)) t) e =
      (fine, none_told t (cc (none_here, e)))
  none_told (TellsAll.told_next (inr (bad, one)) t) e = absurd (ground arith)

  -- The problem of one of the variables, which is not readable.
  abbrev pub IsFault : List Variable → ConfigError → Type 0
  IsFault vs e = (v : Variable) × Memᴰ v vs × (e ≡ problem v) × ¬ IsReadable v

  wider :
      (v : Variable) (vs : List Variable) (errs : List ConfigError)
      → All (IsFault vs) errs
      → All (IsFault (v ∷ vs)) errs
  wider v vs [] a = tt
  wider v vs (e ∷ errs) ((w, m, same, bad), a) = ((w, Memᴰ.tail m, same, bad), wider v vs errs a)

  pub told-IsFault :
      {vs : List Variable} {errs : List ConfigError} → TellsAll vs errs → All (IsFault vs) errs
  told-IsFault TellsAll.told_none = tt
  told-IsFault (TellsAll.told_next {v} {vs} {rest = rest} (inl (fine, none_here)) t) =
      subst (λ e. All (IsFault (v ∷ vs)) (e ++ rest)) (sym none_here)
        (wider v vs rest (told-IsFault t))
  told-IsFault (TellsAll.told_next {v} {vs} {rest = rest} (inr (bad, one)) t) =
      subst (λ e. All (IsFault (v ∷ vs)) (e ++ rest)) (sym one)
        ((v, Memᴰ.head refl, refl, bad), wider v vs rest (told-IsFault t))

  -- A variable is readable, or its problem is in the list.
  abbrev pub IsNamed : List ConfigError → Variable → Type 0
  IsNamed errs v = IsReadable v ⊎ Memᴰ (problem v) errs

  later :
      (vs : List Variable) (e : ConfigError) (errs : List ConfigError)
      → All (IsNamed errs) vs
      → All (IsNamed (e ∷ errs)) vs
  later [] e errs a = tt
  later (v ∷ vs) e errs (inl fine, a) = (inl fine, later vs e errs a)
  later (v ∷ vs) e errs (inr m, a) = (inr (Memᴰ.tail m), later vs e errs a)

  pub told-IsNamed :
      {vs : List Variable} {errs : List ConfigError} (more : List ConfigError)
      → TellsAll vs errs
      → All (IsNamed (errs ++ more)) vs
  told-IsNamed more TellsAll.told_none = tt
  told-IsNamed more (TellsAll.told_next {v} {vs} {rest = rest} (inl (fine, none_here)) t) =
      subst (λ e. All (IsNamed ((e ++ rest) ++ more)) (v ∷ vs)) (sym none_here)
        (inl fine, told-IsNamed more t)
  told-IsNamed more (TellsAll.told_next {v} {vs} {rest = rest} (inr (bad, one)) t) =
      subst (λ e. All (IsNamed ((e ++ rest) ++ more)) (v ∷ vs)) (sym one)
        (inr (Memᴰ.head refl), later vs (problem v) (rest ++ more) (told-IsNamed more t))
