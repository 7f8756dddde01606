-- ===== src/Controller/Stored.antt =====
-- The state that the store keeps for each resource stays well formed.
use agentic_autoscaler.Prelude.{
  ℤ, ◌≤◌, some, none, Bool, true, false, ◌≡◌, refl, length, length-replicate, arith, Bool-cases,
  Option-cases, inl, inr, ◌==◌, ◌<◌, ◌++◌, [], ◌∷◌, List,
}
use mathlib.Core.Option.{some-injective}
use agentic_autoscaler.Go.Float.{Float64}
use agentic_autoscaler.Go.Time.{GoTime}
use agentic_autoscaler.Go.Map.{lookup, insert, lookup-insert, lookup-delete}
use agentic_autoscaler.Api.{NamespacedName, name_key, AgenticAutoscaler}
use agentic_autoscaler.Config.{Config}
use agentic_autoscaler.Decision.Ring.{RingBuffer, new_ring_buffer, push, median, seed_n, seed_count}
use agentic_autoscaler.Decision.Ring.Window.{last, push_lem, length-last}
use agentic_autoscaler.Decision.Store.{
  PerCrState, StateStore, fresh_state, get_or_create, save, delete_state,
}
use agentic_autoscaler.Decision.Estimate.{
  StatusSeed, should_update_rps_per_pod_with_floor, restart_seed_copies, initialize_from_status,
}
use agentic_autoscaler.Controller.Inputs.{later_of, ring_buffer_capacity, build_status_seed}
use agentic_autoscaler.Controller.Decide.{ensure_initialized, observe}

-- The window has the capacity of the controller's buffers, and is within it.
pub record IsWindow {F : Type 0} (rb : RingBuffer F) : Type 0 where
  pub capacity : rb.cap ≡ ring_buffer_capacity
  pub within : length rb.items ≤ rb.cap

abbrev pub IsWell : {F T : Type 0} → PerCrState F T → Type 0
IsWell st = IsWindow st.observations

abbrev pub IsSound : {F T : Type 0} → StateStore NamespacedName F T → Type 0
IsSound {F} {T} s =
    (key : NamespacedName) (st : PerCrState F T) → lookup key s ≡ some st → IsWell st

module _ {F : Type 0} where
  empty-IsWindow :
      IsWindow
        (record { items = let none_yet : List F = [] in none_yet; cap = ring_buffer_capacity })
  empty-IsWindow = record { capacity = refl; within = omega arith }

  seed_n-IsWindow : (rb : RingBuffer F) (v : F) (n : ℤ) → IsWindow rb → IsWindow (seed_n rb v n)
  unfolding seed_n
  seed_n-IsWindow rb v n w = ground (arith, length-replicate (seed_count n rb.cap) v)

  push-IsWindow :
      (rb : RingBuffer F) (v : F)
      → IsWindow rb
      → (next : RingBuffer F) × (push rb v ≡ some next) × IsWindow next
  push-IsWindow rb v w =
      let room : 0 < rb.cap = omega (arith, w.capacity) in
      (
        record rb { items = last rb.cap (rb.items ++ v ∷ []) },
        push_lem rb v room w.within,
        record { capacity = w.capacity; within = length-last rb.cap (rb.items ++ v ∷ []) },
      )

module _ {F T : Type 0} where
  insert-IsSound :
      (key : NamespacedName) (st : PerCrState F T) (s : StateStore NamespacedName F T)
      → IsSound s
      → IsWell st
      → IsSound (insert key st s)
  insert-IsSound key st s h w j x e = split (j == key) refl
    where
      split : (b : Bool) → (j == key) ≡ b → IsWell x
      split true p =
          let same : some st ≡ some x = rw (lookup-insert key j st s, p) at e in
          rw (← some-injective st x same) w
      split false p = h j x (rw (lookup-insert key j st s, p) at e)

  pub save-IsSound :
      (key : NamespacedName) (st : PerCrState F T) (s : StateStore NamespacedName F T)
      → IsSound s
      → IsWell st
      → IsSound (save key st s)
  unfolding save
  save-IsSound = insert-IsSound

  pub delete-IsSound :
      (key : NamespacedName) (s : StateStore NamespacedName F T)
      → IsSound s
      → IsSound (delete_state s key)
  unfolding delete_state
  delete-IsSound key s h j x e = split (j == key) refl
    where
      split : (b : Bool) → (j == key) ≡ b → IsWell x
      split true p =
          let gone : none ≡ some x = rw (lookup-delete key j s, p) at e in absurd (cc gone)
      split false p = h j x (rw (lookup-delete key j s, p) at e)

module _ {F : Type 0} ⦃f : Float64 F⦄ {T : Type 0} ⦃t : GoTime T⦄ where
  pub get_or_create-IsSound :
      (key : NamespacedName) (s : StateStore NamespacedName F T)
      → IsSound s
      → let made = get_or_create s key ring_buffer_capacity in IsWell made.0 × IsSound made.1
  unfolding get_or_create fresh_state new_ring_buffer
  get_or_create-IsSound key s h =
      let fresh : IsWell (fresh_state {F = F} {T = T} ring_buffer_capacity) = empty-IsWindow in
      elim (Option-cases (lookup key s)) [
        | inl missing ↦
            rw missing (fresh, insert-IsSound key (fresh_state ring_buffer_capacity) s h fresh)
        | inr (st, e) ↦ rw e (h key st e, h)
      ]

  pub initialize-IsWell :
      (st : PerCrState F T) (seed : StatusSeed F T)
      → IsWell st
      → IsWell (initialize_from_status st seed)
  unfolding initialize_from_status
  initialize-IsWell st seed w =
      ground (arith, seed_n-IsWindow st.observations seed.rps_per_pod_current restart_seed_copies w)

  pub ensure_initialized-IsWell :
      (aas : AgenticAutoscaler F T) (st : PerCrState F T)
      → IsWell st
      → IsWell (ensure_initialized aas st)
  unfolding ensure_initialized
  ensure_initialized-IsWell aas st w =
      ground (arith, initialize-IsWell st (build_status_seed aas) w)

  abbrev is_observed : Config F → F → ℤ → T → PerCrState F T → Bool
  is_observed c current_rps current_replicas now st =
      should_update_rps_per_pod_with_floor current_rps current_replicas
        (later_of st.last_scale_up_time st.last_scale_down_time) now c.reconcile_interval
        (f.of_int c.rps_per_pod_noise_floor_rps)

  -- A well-formed state takes an observation without a panic.
  pub observe-IsWell :
      (c : Config F) (current_rps : F) (current_replicas : ℤ) (now : T) (st : PerCrState F T)
      → IsWell st
      → (next : PerCrState F T) × (observe c current_rps current_replicas now st ≡ some next)
        × IsWell next
  unfolding observe
  observe-IsWell c rps n now st w =
      let (rb, pushed, window) = push-IsWindow st.observations (f.div rps (f.of_int n)) w in
      elim (Bool-cases (is_observed c rps n now st)) [
        | inl passed ↦
            (record st { observations = rb; rps_per_pod = median rb }, rw (passed, pushed), window)
        | inr held ↦ (st, rw held, w)
      ]
