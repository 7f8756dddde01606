-- ===== src/Decision/Ring.antt =====
-- internal/decision/state.go: the ring buffer of rps_per_pod observations.
pub mod Window
use agentic_autoscaler.Prelude.{
  ℕ, zero, suc, ◌-◌, ◌/◌, ◌%◌, ℤ, pos, negsuc, pos_part, Option, some, none, List, [], ◌∷◌, ◌++◌,
  length, replicate, get_or, if◌then◌else◌, eqb, ltb,
}
use agentic_autoscaler.Go.Float.{Float64}

-- `items` is the slice `data`. A capacity is not negative: NewRingBuffer panics on a negative one.
pub record RingBuffer {ℓ} (F : Type ℓ) : Type ℓ where
  pub items : List F
  pub cap : ℕ

-- The number of copies: n cut off below at 0 and above at the capacity.
unfoldable pub seed_count : ℤ → ℕ → ℕ
seed_count n limit = if ltb limit (pos_part n) then limit else pos_part n

module _ {ℓ} {F : Type ℓ} where
  unfoldable pub new_ring_buffer : ℕ → RingBuffer F
  new_ring_buffer capacity = record { items = []; cap = capacity }

  -- `data[1:]`; `none` is the panic on an empty slice.
  abbrev pub rest : List F → Option (List F)
  rest [] = none
  rest (x ∷ xs) = some xs

  abbrev pub append_to : RingBuffer F → F → Option (List F) → Option (RingBuffer F)
  append_to rb v none = none
  append_to rb v (some xs) = some (record rb { items = xs ++ (v ∷ []) })

  unfoldable pub push : RingBuffer F → F → Option (RingBuffer F)
  push rb v = append_to rb v (if eqb (length rb.items) rb.cap then rest rb.items else some rb.items)

  unfoldable pub seed_n : RingBuffer F → F → ℤ → RingBuffer F
  unfolding seed_count
  seed_n rb v n = record rb { items = replicate (seed_count n rb.cap) v }

  unfoldable pub seed : RingBuffer F → F → RingBuffer F
  unfolding seed_n
  seed rb v = seed_n rb v (pos 1)

module _ {ℓ} {F : Type ℓ} ⦃f : Float64 F⦄ where
  -- The middle of a sorted slice of `n` values, `n` not 0.
  unfoldable pub middle : List F → ℕ → F
  middle sorted n =
      let zero_value = f.of_int (pos 0) in
      if eqb (n % 2) 1
      then get_or sorted (n / 2) zero_value
      else f.div (f.add (get_or sorted (n / 2 - 1) zero_value) (get_or sorted (n / 2) zero_value))
          (f.of_int (pos 2))

  unfoldable pub median : RingBuffer F → F
  unfolding middle
  median rb =
      let n = length rb.items in if eqb n 0 then f.of_int (pos 0) else middle (f.sort rb.items) n
