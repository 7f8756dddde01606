-- ===== src/Decision/Store/Laws.antt =====
-- The store of per-resource states, as a map from keys to states.
use agentic_autoscaler.Prelude.{
  ℕ, Option, some, none, Option-cases, ◌≡◌, if◌then◌else◌, MapKey, ◌==◌, arith,
}
use agentic_autoscaler.Go.Float.{Float64}
use agentic_autoscaler.Go.Time.{GoTime}
use agentic_autoscaler.Go.Map.{lookup, lookup-insert}
use agentic_autoscaler.Decision.Store.{StateStore, fresh_state, get, get_or_create}

-- The value, or the default of a missing one.
abbrev pub or_else {ℓ} : {A : Type ℓ} → Option A → A → A
or_else none a = a
or_else (some x) a = x

module _ {ℓ κ ι} {F : Type ℓ} ⦃f : Float64 F⦄ {T : Type κ} ⦃t : GoTime T⦄ {K : Type ι}
    ⦃e : MapKey K⦄ where
  -- GetOrCreate returns the stored state, or a fresh one on a missing key; afterwards that key holds
  -- what was returned and every other key what it held.
  pub get-get_or_create :
      (s : StateStore K F T) (key j : K) (capacity : ℕ)
      → let made = get_or_create s key capacity in
        (made.0 ≡ or_else (get s key) (fresh_state capacity))
        × (get made.1 j ≡ (if j == key then some made.0 else get s j))
  unfolding get get_or_create
  get-get_or_create s key j capacity = ground (
    arith,
    Option-cases (lookup key s),
    lookup-insert key j (fresh_state capacity) s,
    e.equal_iff j key,
  )
