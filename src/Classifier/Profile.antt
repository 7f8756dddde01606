-- ===== src/Classifier/Profile.antt =====
-- internal/classifier/features.go: ComputeHourlyProfile, the 24-bin profile of the UTC hours.
use agentic_autoscaler.Prelude.{
  ℕ, zero, suc, ◌+◌, ◌/◌, ◌%◌, ℤ, pos, pos_part, Bool, false, List, [], ◌∷◌, eqb, ltb, leb_ℤ, ltb_ℤ,
  if◌then◌else◌, replicate,
}
use agentic_autoscaler.Go.Float.{Float64}
use agentic_autoscaler.Classifier.Features.{median}

-- 60 / resolution, at least 1; a resolution below 1 counts as 60.
unfoldable pub points_per_hour : ℤ → ℕ
points_per_hour resolution_min =
    let per_hour = 60 / pos_part resolution_min in
    if ltb_ℤ resolution_min (pos 1) then 1 else if ltb per_hour 1 then 1 else per_hour

-- The bucket of the sample at index `i`. A negative start counts as 0.
unfoldable pub hour_of : ℕ → ℤ → ℕ → ℕ
hour_of per_hour start_hour_utc i = (pos_part start_hour_utc + i / per_hour) % 24

module _ {ℓ} {F : Type ℓ} where
  -- buckets[hour], filled in the order of the series, from index `i` on.
  unfoldable pub bucket : ℕ → ℤ → ℕ → ℕ → List F → List F
  bucket per_hour start hour i [] = []
  bucket per_hour start hour i (v ∷ s) =
      let later = bucket per_hour start hour (i + 1) s in
      if eqb (hour_of per_hour start i) hour then v ∷ later else later

module _ {ℓ} {F : Type ℓ} ⦃f : Float64 F⦄ where
  abbrev pub bin : List F → ℤ
  bin [] = pos 0
  bin (v ∷ s) = f.to_int32 (f.round (median (v ∷ s)))

  abbrev pub counts : List F → ℕ
  counts [] = 0
  counts (v ∷ s) = 1

  -- The loop over the hours `hour` to `hour + left - 1`: the bins and the number of filled ones.
  unfoldable pub profile_from : (ℕ → List F) → ℕ → ℕ → List ℤ × ℕ
  profile_from buckets zero hour = ([], 0)
  profile_from buckets (suc left) hour =
      let (bins, distinct) = profile_from buckets left (hour + 1) in
      (bin (buckets hour) ∷ bins, counts (buckets hour) + distinct)

  unfoldable pub compute_hourly_profile : List F → ℤ → ℤ → ℤ → List ℤ × Bool
  unfolding profile_from bucket points_per_hour hour_of
  compute_hourly_profile [] resolution_min start_hour_utc min_hours = (replicate 24 (pos 0), false)
  compute_hourly_profile (v ∷ s) resolution_min start_hour_utc min_hours =
      let per_hour = points_per_hour resolution_min in
      let (bins, distinct) =
        profile_from (λ hour. bucket per_hour start_hour_utc hour 0 (v ∷ s)) 24 0 in
      (bins, leb_ℤ min_hours (pos distinct))
