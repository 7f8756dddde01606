-- ===== src/Classifier/Features.antt =====
-- internal/classifier/features.go: the statistics of a series.
use agentic_autoscaler.Prelude.{
  ℕ, ◌+◌, ◌-◌, ◌/◌, ◌%◌, ℤ, pos, pos_part, quot, ◌||◌, List, [], ◌∷◌, length, take, drop, get_or,
  eqb, ltb, leb_ℤ, if◌then◌else◌,
}
use agentic_autoscaler.Go.Float.{Float64}
use agentic_autoscaler.Classifier.Classify.{Features}

abbrev pub tod_lag : ℤ
tod_lag = pos 60

abbrev pub min_tod_overlap : ℤ
min_tod_overlap = pos 10

unfoldable pub hourly_autocorr_lag : ℤ → ℤ
unfolding quot
hourly_autocorr_lag resolution_min =
    if leb_ℤ resolution_min (pos 0) then pos 0 else quot (pos 60) (pos_part resolution_min)

-- int(math.Ceil(p*n)) - 1, kept within the slice.
unfoldable pub percentile_index : ℤ → ℕ → ℕ
percentile_index rank n =
    if leb_ℤ rank (pos 0) then 0 else if ltb n (pos_part rank) then n - 1 else pos_part rank - 1

module _ {ℓ} {F : Type ℓ} ⦃f : Float64 F⦄ where
  abbrev pub nought : F
  nought = f.of_int (pos 0)

  abbrev pub count_of : List F → F
  count_of s = f.of_int (pos (length s))

  -- The loops that add up, from the first value on.
  unfoldable pub sum_from : F → List F → F
  sum_from sum [] = sum
  sum_from sum (v ∷ s) = sum_from (f.add sum v) s

  unfoldable pub mean : List F → F
  unfolding sum_from
  mean s = f.div (sum_from nought s) (count_of s)

  unfoldable pub sum_squares_from : F → F → List F → F
  sum_squares_from m sum [] = sum
  sum_squares_from m sum (v ∷ s) = sum_squares_from m (f.add sum (f.mul (f.sub v m) (f.sub v m))) s

  unfoldable pub stddev : List F → F → F
  unfolding sum_squares_from
  stddev s m = f.sqrt (f.div (sum_squares_from m nought s) (count_of s))

  unfoldable pub percentile : List F → F → F
  percentile [] p = nought
  percentile (v ∷ s) p =
      let n = length (v ∷ s) in
      get_or (f.sort (v ∷ s)) (percentile_index (f.to_int (f.ceil (f.mul p (count_of (v ∷ s))))) n)
        nought

  unfoldable pub median : List F → F
  median [] = nought
  median (v ∷ s) =
      let n = length (v ∷ s) in
      let sorted = f.sort (v ∷ s) in
      if eqb (n % 2) 0
      then f.div (f.add (get_or sorted (n / 2 - 1) nought) (get_or sorted (n / 2) nought))
          (f.of_int (pos 2))
      else get_or sorted (n / 2) nought

  -- (n-1) / 2, the mean of the indices of a series that is not empty.
  abbrev pub mean_index : List F → F
  mean_index s = f.div (f.of_int (pos (length s - 1))) (f.of_int (pos 2))

  unfoldable pub detrend_from : F → F → ℕ → List F → List F
  detrend_from intercept slope i [] = []
  detrend_from intercept slope i (v ∷ s) =
      f.sub v (f.add intercept (f.mul slope (f.of_int (pos i))))
      ∷ detrend_from intercept slope (i + 1) s

  unfoldable pub detrend : List F → F → List F
  unfolding detrend_from
  detrend [] slope = []
  detrend (v ∷ s) slope =
      detrend_from (f.sub (mean (v ∷ s)) (f.mul slope (mean_index (v ∷ s)))) slope 0 (v ∷ s)

  -- The sums (num, den) of the least-squares loop.
  unfoldable pub slope_sums : F → F → ℕ → F → F → List F → F × F
  slope_sums mx my i num den [] = (num, den)
  slope_sums mx my i num den (v ∷ s) =
      let dx = f.sub (f.of_int (pos i)) mx in
      slope_sums mx my (i + 1) (f.add num (f.mul dx (f.sub v my))) (f.add den (f.mul dx dx)) s

  unfoldable pub trend_slope : List F → F
  unfolding slope_sums
  trend_slope s =
      let sums = slope_sums (mean_index s) (mean s) 0 nought nought s in
      if ltb (length s) 2
      then nought
      else if f.eq sums.1 nought
      then nought
      else f.div sums.0 sums.1

  unfoldable pub trend_slope_rps_per_min : List F → ℤ → F
  trend_slope_rps_per_min series resolution_min =
      if leb_ℤ resolution_min (pos 0)
      then trend_slope series
      else f.div (trend_slope series) (f.of_int resolution_min)

  -- The sums (num, sx, sy) over the overlap.
  unfoldable pub correlation_sums : F → F → F → F → F → List F → List F → F × F × F
  correlation_sums mx my num sx sy [] ys = (num, sx, sy)
  correlation_sums mx my num sx sy (x ∷ xs) [] = (num, sx, sy)
  correlation_sums mx my num sx sy (x ∷ xs) (y ∷ ys) =
      let dx = f.sub x mx in
      let dy = f.sub y my in
      correlation_sums mx my (f.add num (f.mul dx dy)) (f.add sx (f.mul dx dx))
        (f.add sy (f.mul dy dy)) xs ys

  -- The lag and the overlap are not negative.
  unfoldable pub hourly_autocorr : List F → ℕ → ℕ → F
  unfolding correlation_sums
  hourly_autocorr series lag min_overlap =
      let n = length series in
      let x = take (n - lag) series in
      let y = drop lag series in
      let sums = correlation_sums (mean x) (mean y) nought nought nought x y in
      if ltb n (lag + min_overlap)
      then nought
      else if f.eq sums.1 nought || f.eq sums.2 nought
      then nought
      else f.div sums.0 (f.sqrt (f.mul sums.1 sums.2))

  unfoldable pub compute_baseline_rps : List F → ℤ
  compute_baseline_rps series = f.to_int32 (f.round (median series))

  unfoldable pub compute_peak_p95_rps : List F → ℤ
  compute_peak_p95_rps series = f.to_int32 (f.round (percentile series (f.lit 95 2)))

  -- cv, with the guard of an idle service; `guard` is CVGuardMeanRPS.
  unfoldable pub guarded_cv : F → F → F → F
  guarded_cv guard m sd = if f.le guard m then f.div sd m else nought

  unfoldable pub extract_features : F → List F → Features F
  unfolding guarded_cv
  extract_features guard [] = record {
    cv = nought;
    peak_to_trough = nought;
    hourly_autocorr = nought;
    trend_slope = nought;
  }
  extract_features guard (v ∷ s) =
      let series = v ∷ s in
      let m = mean series in
      let slope = trend_slope series in
      record {
        cv = guarded_cv guard m (stddev series m);
        peak_to_trough = f.div (percentile series (f.lit 99 2)) (f.fmax m guard);
        hourly_autocorr = hourly_autocorr (detrend series slope) 60 10;
        trend_slope = slope;
      }
