-- ===== src/Adapters/Forecast.antt =====
-- internal/adapters/forecast/client.go: what Recommend asks, and what it makes of the answer.
use agentic_autoscaler.Prelude.{
  pos, str_eq, Bool, false, ◌||◌, ◌≡◌, refl, sym, arith, if◌then◌else◌, Bool-cases, inl, inr,
}
use mathlib.Core.Path.{subst}
use agentic_autoscaler.Go.Float.{Float64}
use agentic_autoscaler.Adapters.{Fallible, ok, err, RecommendRequest, RecommendResponse}
use agentic_autoscaler.Adapters.Http.{Exchange, body_of}

module _ {ℓ} {F : Type ℓ} where
  -- The model "auto" is asked for as no model.
  unfoldable pub normalized : RecommendRequest F → RecommendRequest F
  normalized req =
      if str_eq req.preferred_model "auto" then record req { preferred_model = "" } else req

module _ {ℓ} {F : Type ℓ} ⦃f : Float64 F⦄ where
  unfoldable pub is_invalid : F → Bool
  is_invalid v = f.is_nan v || f.is_inf v || f.lt v (f.of_int (pos 0))

  unfoldable pub checked : RecommendResponse F → Fallible (RecommendResponse F)
  unfolding is_invalid
  checked out =
      if is_invalid out.predicted_rps
      then err "forecast: invalid response: predicted_rps"
      else if str_eq out.model_used ""
      then err "forecast: invalid response: missing model_used"
      else ok out

  -- `send` answers the request.
  unfoldable pub recommend :
      (RecommendRequest F → Exchange (RecommendResponse F))
      → RecommendRequest F
      → Fallible (RecommendResponse F)
  unfolding normalized body_of checked
  recommend send req = elim (body_of (send (normalized req))) [
    | err e ↦ err e
    | ok out ↦ checked out
  ]

  -- A prediction that is a number, finite and not negative, with the model that made it; nothing is
  -- asked of an error.
  abbrev pub IsUsable : Fallible (RecommendResponse F) → Type 0
  IsUsable (err e) = Unit
  IsUsable (ok out) =
      (f.is_nan out.predicted_rps ≡ false)
      × (f.is_inf out.predicted_rps ≡ false)
      × (f.lt out.predicted_rps (f.of_int (pos 0)) ≡ false)
      × (str_eq out.model_used "" ≡ false)

  checked-IsUsable : (out : RecommendResponse F) → IsUsable (checked out)
  unfolding checked is_invalid
  checked-IsUsable out = ground arith

  answer-IsUsable :
      (o : Fallible (RecommendResponse F))
      → IsUsable (elim o [ err e ↦ err e | ok out ↦ checked out ])
  answer-IsUsable (err e) = tt
  answer-IsUsable (ok out) = checked-IsUsable out

  unchanged :
      (req : RecommendRequest F) → str_eq req.preferred_model "auto" ≡ false → normalized req ≡ req
  unfolding normalized
  unchanged req model = simp (normalized, model)

  never_auto : (req : RecommendRequest F) → str_eq (normalized req).preferred_model "auto" ≡ false
  unfolding normalized
  never_auto req = elim (Bool-cases (str_eq req.preferred_model "auto")) [
    | inl auto ↦ rw (normalized, auto) refl
    | inr model ↦
        subst {A = RecommendRequest F} (λ r. str_eq r.preferred_model "auto" ≡ false)
          (sym (unchanged req model)) model
  ]

  -- Whatever the service answers, a forecast that Recommend returns is finite, a number and not
  -- negative, and names its model; and the service is never asked for the model "auto".
  pub recommend-IsUsable :
      (send : RecommendRequest F → Exchange (RecommendResponse F)) (req : RecommendRequest F)
      → IsUsable (recommend send req) × (str_eq (normalized req).preferred_model "auto" ≡ false)
  unfolding recommend
  recommend-IsUsable send req = (answer-IsUsable (body_of (send (normalized req))), never_auto req)
