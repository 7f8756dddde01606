-- ===== src/Decision/Store.antt =====
-- internal/decision/state.go: the state of one resource, and the store of all of them. The mutex of
-- the store makes each method one step; GetOrCreate returns a pointer that the caller writes
-- through, so `save` below is the caller's write at that key.
pub mod Laws
use agentic_autoscaler.Prelude.{ℕ, Bool, false, Option, some, none, MapKey, pos}
use agentic_autoscaler.Go.Float.{Float64}
use agentic_autoscaler.Go.Time.{GoTime}
use agentic_autoscaler.Go.Map.{Map, lookup, insert, delete}
use agentic_autoscaler.Decision.Ring.{RingBuffer, new_ring_buffer}

pub record PerCrState {ℓ κ} (F : Type ℓ) (T : Type κ) : Type (ℓ ⊔ κ) where
  pub observations : RingBuffer F
  pub rps_per_pod : F
  pub last_scale_up_time : T
  pub last_scale_down_time : T
  pub initialized : Bool

abbrev pub StateStore {ℓ κ ι} : Type ι → Type ℓ → Type κ → Type (ι ⊔ (ℓ ⊔ κ))
StateStore K F T = Map K (PerCrState F T)

module _ {ℓ κ} {F : Type ℓ} ⦃f : Float64 F⦄ {T : Type κ} ⦃t : GoTime T⦄ where
  -- The fields that the literal leaves out have the zero values of their types.
  unfoldable pub fresh_state : ℕ → PerCrState F T
  fresh_state capacity = record {
    observations = new_ring_buffer capacity;
    rps_per_pod = f.of_int (pos 0);
    last_scale_up_time = t.zero_time;
    last_scale_down_time = t.zero_time;
    initialized = false;
  }

module _ {ℓ κ ι} {F : Type ℓ} {T : Type κ} {K : Type ι} ⦃e : MapKey K⦄ where
  unfoldable pub get : StateStore K F T → K → Option (PerCrState F T)
  get s key = lookup key s

  -- A write through the pointer that GetOrCreate returned.
  unfoldable pub save : K → PerCrState F T → StateStore K F T → StateStore K F T
  save key st s = insert key st s

  unfoldable pub delete_state : StateStore K F T → K → StateStore K F T
  delete_state s key = delete key s

module _ {ℓ κ ι} {F : Type ℓ} ⦃f : Float64 F⦄ {T : Type κ} ⦃t : GoTime T⦄ {K : Type ι}
    ⦃e : MapKey K⦄ where
  abbrev created :
      StateStore K F T → K → ℕ → Option (PerCrState F T) → PerCrState F T × StateStore K F T
  created s key capacity (some st) = (st, s)
  created s key capacity none = (fresh_state capacity, insert key (fresh_state capacity) s)

  unfoldable pub get_or_create : StateStore K F T → K → ℕ → PerCrState F T × StateStore K F T
  get_or_create s key capacity = created s key capacity (lookup key s)
