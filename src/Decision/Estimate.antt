-- ===== src/Decision/Estimate.antt =====
-- internal/decision/decision.go: the gate for new observations, and the recovery of the estimate
-- from the persisted status.
use agentic_autoscaler.Prelude.{
  ℤ, pos, ◌*ℤ◌, Bool, true, false, ◌||◌, ◌&&◌, if◌then◌else◌, ltb_ℤ, leb_ℤ,
}
use agentic_autoscaler.Go.Float.{Float64}
use agentic_autoscaler.Go.Time.{GoTime}
use agentic_autoscaler.Decision.Ring.{seed_n}
use agentic_autoscaler.Decision.Store.{PerCrState}

abbrev pub restart_seed_copies : ℤ
restart_seed_copies = pos 5

pub record StatusSeed {ℓ κ} (F : Type ℓ) (T : Type κ) : Type (ℓ ⊔ κ) where
  pub rps_per_pod_current : F
  pub in_bounds : Bool
  pub midpoint : F
  pub last_scale_time : T

module _ {ℓ κ} {F : Type ℓ} ⦃f : Float64 F⦄ {T : Type κ} ⦃t : GoTime T⦄ where
  -- The interval is a whole number of seconds in an int32, so that twice it fits an int64.
  unfoldable pub should_update_rps_per_pod_with_floor : F → ℤ → T → T → ℤ → F → Bool
  should_update_rps_per_pod_with_floor current_rps replicas last_scale now interval noise_floor =
      if f.le current_rps (f.of_int (pos 0)) || ltb_ℤ replicas (pos 1)
      then false
      else if f.lt current_rps noise_floor
      then false
      else leb_ℤ (pos 2 *ℤ interval) (t.sub now last_scale)

  -- DefaultRpsPerPodNoiseFloor is 10.0.
  unfoldable pub should_update_rps_per_pod : F → ℤ → T → T → ℤ → Bool
  unfolding should_update_rps_per_pod_with_floor
  should_update_rps_per_pod current_rps replicas last_scale now interval =
      should_update_rps_per_pod_with_floor current_rps replicas last_scale now interval
        (f.of_int (pos 10))

  -- The first assignment: the estimate, and the window.
  unfoldable pub seed_estimate : PerCrState F T → StatusSeed F T → PerCrState F T
  seed_estimate state seed =
      if seed.in_bounds && f.lt (f.of_int (pos 0)) seed.rps_per_pod_current
      then record state {
        rps_per_pod = seed.rps_per_pod_current;
        observations = seed_n state.observations seed.rps_per_pod_current restart_seed_copies;
      }
      else record state { rps_per_pod = seed.midpoint }

  unfoldable pub seed_times : PerCrState F T → StatusSeed F T → PerCrState F T
  seed_times state seed = if t.is_zero seed.last_scale_time then state else record state {
    last_scale_up_time = seed.last_scale_time;
    last_scale_down_time = seed.last_scale_time;
  }

  unfoldable pub initialize_from_status : PerCrState F T → StatusSeed F T → PerCrState F T
  unfolding seed_estimate seed_times
  initialize_from_status state seed =
      let seeded = seed_times (seed_estimate state seed) seed in
      record seeded { initialized = true }
