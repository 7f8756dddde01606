-- ===== src/Adapters/Prometheus.antt =====
-- internal/adapters/prometheus/client.go: what InstantQuery and RangeQuery make of an answer.
use agentic_autoscaler.Prelude.{
  ℤ, pos, quot, String, str_eq, Option, some, none, List, [], ◌∷◌, ◌≡◌, ◌↔◌, refl, sym, ap,
  if◌then◌else◌, arith, Option-cases, inl, inr,
}
use mathlib.Core.Path.{subst}
use agentic_autoscaler.Go.Float.{Float64}
use agentic_autoscaler.Adapters.{Fallible, ok, err, Sample}
use agentic_autoscaler.Adapters.Http.{Exchange, Json, number, text, other, body_of}

abbrev pub Pair {ℓ} : Type ℓ → Type ℓ
Pair F = Json F × Json F

pub record InstantResponse {ℓ} (F : Type ℓ) : Type ℓ where
  pub status : String
  pub result : List (Pair F)
  pub error : String

-- The values of each series.
pub record RangeResponse {ℓ} (F : Type ℓ) : Type ℓ where
  pub status : String
  pub result : List (List (Pair F))
  pub error : String

module _ {ℓ} {F : Type ℓ} (parse_float : String → Option F) where
  unfoldable pub value_of : Json F → Fallible F
  value_of (text raw) = elim (parse_float raw) [ none ↦ err "parse value" | some v ↦ ok v ]
  value_of _ = err "value not a string"

  unfoldable pub instant_value : ⦃f : Float64 F⦄ → InstantResponse F → Fallible F
  unfolding value_of
  instant_value ⦃f⦄ out =
      if str_eq out.status "success"
      then elim out.result [ [] ↦ ok (f.of_int (pos 0)) | pair ∷ rest ↦ value_of pair.1 ]
      else err out.error

  -- `send` answers the request for a query.
  unfoldable pub instant_query :
      ⦃f : Float64 F⦄ → (String → Exchange (InstantResponse F)) → String → Fallible F
  unfolding body_of instant_value
  instant_query send query = elim (body_of (send query)) [
    | err e ↦ err e
    | ok out ↦ instant_value out
  ]

module _ {ℓ κ} {F : Type ℓ} ⦃f : Float64 F⦄ {T : Type κ} (parse_float : String → Option F)
    (from_unix : ℤ → T) where
  unfoldable pub sample_of : Pair F → Fallible (Sample F T)
  unfolding value_of
  sample_of (number ts, raw) = elim (value_of parse_float raw) [
    | err e ↦ err e
    | ok v ↦ ok (record { timestamp = from_unix (f.to_int ts); value = v })
  ]
  sample_of _ = err "range timestamp not a number"

  -- The loop over the points; it ends at the first that is refused.
  unfoldable pub samples_of : List (Pair F) → Fallible (List (Sample F T))
  unfolding sample_of
  samples_of [] = ok []
  samples_of (pair ∷ pairs) = elim (sample_of pair) [
    | err e ↦ err e
    | ok s ↦ elim (samples_of pairs) [ err e ↦ err e | ok ss ↦ ok (s ∷ ss) ]
  ]

  unfoldable pub range_values : RangeResponse F → Fallible (List (Sample F T))
  unfolding samples_of
  range_values out =
      if str_eq out.status "success"
      then elim out.result [ [] ↦ ok [] | first ∷ rest ↦ samples_of first ]
      else err out.error

  -- `send` answers the request with the parameters query, start, end and step; the times are in seconds
  -- since the epoch, and int(step.Seconds()) is the step's whole seconds.
  unfoldable pub range_query :
      (T → ℤ)
      → (String → ℤ → ℤ → ℤ → Exchange (RangeResponse F))
      → String
      → T
      → T
      → ℤ
      → Fallible (List (Sample F T))
  unfolding body_of range_values quot
  range_query unix send query start end step =
      elim (body_of (send query (unix start) (unix end) (quot step 1000000000))) [
        | err e ↦ err e
        | ok out ↦ range_values out
      ]

  abbrev pub sample_at : F → F → Sample F T
  sample_at ts v = record { timestamp = from_unix (f.to_int ts); value = v }

  -- The samples are those of the points, one for each, in their order.
  pub data AreSamples : List (Pair F) → List (Sample F T) → Type (ℓ ⊔ κ) where
    all_read : AreSamples [] []
    point :
        (ts v : F) (raw : String) (pairs : List (Pair F)) (ss : List (Sample F T))
        → parse_float raw ≡ some v
        → AreSamples pairs ss
        → AreSamples ((number ts, text raw) ∷ pairs) (sample_at ts v ∷ ss)

  sample_of-some :
      (ts v : F) (raw : String)
      → parse_float raw ≡ some v
      → sample_of (number ts, text raw) ≡ ok (sample_at ts v)
  unfolding sample_of value_of
  sample_of-some ts v raw good = rw (sample_of, value_of, good) refl

  sample_of-none :
      (ts : F) (raw : String)
      → parse_float raw ≡ none
      → sample_of (number ts, text raw) ≡ err "parse value"
  unfolding sample_of value_of
  sample_of-none ts raw bad = rw (sample_of, value_of, bad) refl

  complete :
      (pairs : List (Pair F)) (ss : List (Sample F T))
      → AreSamples pairs ss
      → samples_of pairs ≡ ok ss
  unfolding samples_of
  complete _ _ AreSamples.all_read = refl
  complete _ _ (AreSamples.point ts v raw pairs ss good more) =
      rw (samples_of, sample_of-some ts v raw good, complete pairs ss more) refl

  -- What a point that is read says.
  abbrev IsRead : Pair F → Sample F T → Type (ℓ ⊔ κ)
  IsRead pair s =
      (ts : F) × (raw : String) × (v : F) × (pair ≡ (number ts, text raw))
      × (parse_float raw ≡ some v)
      × (s ≡ sample_at ts v)

  sample_of-cases : (pair : Pair F) (s : Sample F T) → sample_of pair ≡ ok s → IsRead pair s
  unfolding sample_of value_of
  sample_of-cases (number ts, text raw) s h = elim (Option-cases (parse_float raw)) [
    | inl bad ↦ absurd (ground (arith, sample_of-none ts raw bad))
    | inr (v, good) ↦ (ts, raw, v, refl, good, cc (h, sample_of-some ts v raw good))
  ]
  sample_of-cases (number ts, number v) s h = ground arith
  sample_of-cases (number ts, other) s h = ground arith
  sample_of-cases (text raw, v) s h = ground arith
  sample_of-cases (other, v) s h = ground arith

  -- One step of the loop, by what it finds.
  sound_step :
      (pair : Pair F) (pairs : List (Pair F)) (ss : List (Sample F T)) (o : Fallible (Sample F T))
      (rest : Fallible (List (Sample F T)))
      → sample_of pair ≡ o
      → ((ts : List (Sample F T)) → rest ≡ ok ts → AreSamples pairs ts)
      → elim o [ err e ↦ err e | ok s ↦ elim rest [ err e ↦ err e | ok ts ↦ ok (s ∷ ts) ] ] ≡ ok ss
      → AreSamples (pair ∷ pairs) ss
  sound_step pair pairs ss (err e) rest read more h = ground arith
  sound_step pair pairs ss (ok s) (err e) read more h = ground arith
  sound_step pair pairs ss (ok s) (ok ts) read more h =
      let (t, raw, v, same, good, is) = sample_of-cases pair s read in
      subst (λ l. AreSamples l ss) (ap (λ p. p ∷ pairs) (sym same))
        (subst (AreSamples ((number t, text raw) ∷ pairs)) (cc (h, is))
          (AreSamples.point t v raw pairs ts good (more ts refl)))

  sound :
      (pairs : List (Pair F)) (ss : List (Sample F T))
      → samples_of pairs ≡ ok ss
      → AreSamples pairs ss
  unfolding samples_of
  sound [] ss h = subst (AreSamples []) (cc h) AreSamples.all_read
  sound (pair ∷ pairs) ss h =
      sound_step pair pairs ss (sample_of pair) (samples_of pairs) refl (sound pairs) h

  -- RangeQuery reads the points of a series exactly if each has a number for its time and a text that
  -- parses for its value; then it gives one sample for each point, in their order, and it is the only
  -- answer.
  pub samples_of_iff :
      (pairs : List (Pair F)) (ss : List (Sample F T))
      → (samples_of pairs ≡ ok ss) ↔ AreSamples pairs ss
  samples_of_iff pairs ss = (sound pairs ss, complete pairs ss)
