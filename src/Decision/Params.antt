-- ===== src/Decision/Params.antt =====
-- internal/decision/decision.go: the resolution of the tunables, "spec ?? classified ?? defaults".
-- A nil pointer is `none`.
use agentic_autoscaler.Prelude.{
  str_eq, ℤ, String, Bool, false, Option, none, some, not, if◌then◌else◌,
}

pub record SpecParams : Type 0 where
  pub scale_up_cooldown : Option ℤ
  pub scale_down_cooldown : Option ℤ
  pub max_step_size : Option ℤ
  pub preferred_forecaster : Option String

pub record ClassifiedParams : Type 0 where
  pub scale_up_cooldown : ℤ
  pub scale_down_cooldown : ℤ
  pub max_step_size : ℤ
  pub preferred_forecaster : String

pub record DefaultParams : Type 0 where
  pub scale_up_cooldown : ℤ
  pub scale_down_cooldown : ℤ
  pub max_step_size : ℤ

pub record ParamSources : Type 0 where
  pub spec : SpecParams
  pub classified : Option ClassifiedParams
  pub defaults : DefaultParams

pub record EffectiveParams : Type 0 where
  pub cooldown_up : ℤ
  pub cooldown_down : ℤ
  pub max_step : ℤ
  pub forecaster : String

unfoldable pub coalesce32 : Option ℤ → Option ℤ → ℤ → ℤ
coalesce32 (some v) classified def = v
coalesce32 none (some v) def = v
coalesce32 none none def = def

unfoldable pub classified_field32 : Option ClassifiedParams → (ClassifiedParams → ℤ) → Option ℤ
classified_field32 none f = none
classified_field32 (some c) f = some (f c)

-- `p != nil && *p != ""`
abbrev pub is_set : Option String → Bool
is_set none = false
is_set (some s) = not (str_eq s "")

abbrev pub deref_str : Option String → String
deref_str none = ""
deref_str (some s) = s

unfoldable pub coalesce_str : Option String → Option String → String → String
coalesce_str spec classified def =
    if is_set spec then deref_str spec else if is_set classified then deref_str classified else def

unfoldable pub classified_field_str :
    Option ClassifiedParams → (ClassifiedParams → String) → Option String
classified_field_str none f = none
classified_field_str (some c) f = if str_eq (f c) "" then none else some (f c)

unfoldable pub resolve_effective_params : ParamSources → EffectiveParams
unfolding coalesce32 classified_field32 coalesce_str classified_field_str
resolve_effective_params src = record {
  cooldown_up =
      coalesce32 src.spec.scale_up_cooldown
        (classified_field32 src.classified (λ c. c.scale_up_cooldown))
        src.defaults.scale_up_cooldown;
  cooldown_down =
      coalesce32 src.spec.scale_down_cooldown
        (classified_field32 src.classified (λ c. c.scale_down_cooldown))
        src.defaults.scale_down_cooldown;
  max_step =
      coalesce32 src.spec.max_step_size (classified_field32 src.classified (λ c. c.max_step_size))
        src.defaults.max_step_size;
  forecaster =
      coalesce_str src.spec.preferred_forecaster
        (classified_field_str src.classified (λ c. c.preferred_forecaster)) "auto";
}
