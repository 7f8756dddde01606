-- ===== src/Decision/Ring/Window.antt =====
-- The ring buffer is a sliding window: it holds the last observations, in their order.
use agentic_autoscaler.Prelude.{
  ℕ, ◌+◌, ◌-◌, ◌≤◌, ◌<◌, ◌≡◌, refl, Option, some, none, List, [], ◌∷◌, ◌++◌, length, drop, arith,
  length-append, length-drop, drop-append, drop-drop, Bool-cases, inl, inr, eqb, ◌∙◌,
}
use agentic_autoscaler.Decision.Ring.{rest, RingBuffer, push}
use mathlib.Core.List.{append_assoc, append-nil}

module _ {ℓ} {F : Type ℓ} where
  abbrev pub last : ℕ → List F → List F
  last n xs = drop (length xs - n) xs

  abbrev pub IsWithin : RingBuffer F → Type 0
  IsWithin rb = length rb.items ≤ rb.cap

  abbrev pub push_all : RingBuffer F → List F → Option (RingBuffer F)
  push_all rb [] = some rb
  push_all rb (v ∷ vs) = elim (push rb v) [ none ↦ none | some next ↦ push_all next vs ]

  drop_full :
      (xs : List F) (v : F) (n : ℕ)
      → 0 < n
      → length xs ≡ n
      → rest xs ≡ some (drop 1 xs)
        × (drop 1 xs ++ v ∷ [] ≡ drop (length (xs ++ v ∷ []) - n) (xs ++ v ∷ []))
  drop_full [] v n h e = absurd (omega arith)
  drop_full (x ∷ xs) v n h e =
      let one : length ((x ∷ xs) ++ v ∷ []) - n ≡ 1 = omega (arith, length-append xs (v ∷ []), e) in
      (refl, rw one refl)

  -- One push into a window within its capacity: the oldest value goes if it is full.
  pub push_lem :
      (rb : RingBuffer F) (v : F)
      → 0 < rb.cap
      → IsWithin rb
      → push rb v ≡ some (record rb { items = last rb.cap (rb.items ++ v ∷ []) })
  unfolding push
  push_lem rb v h w = elim (Bool-cases (eqb (length rb.items) rb.cap)) [
    | inl full ↦
        let same : length rb.items ≡ rb.cap = ground arith in
        let both = drop_full rb.items v rb.cap h same in rw (full, both.0, both.1)
    | inr room ↦
        let none_over : length (rb.items ++ v ∷ []) - rb.cap ≡ 0 =
          ground (arith, length-append rb.items (v ∷ [])) in
        rw (room, none_over)
  ]

  pub length-last : (n : ℕ) (xs : List F) → length (last n xs) ≤ n
  length-last n xs = omega (arith, length-drop (length xs - n) xs)

  last_append : (n : ℕ) (xs ys : List F) → last n (last n xs ++ ys) ≡ last n (xs ++ ys)
  last_append n xs ys =
      let k = length xs - n in
      let within : k ≤ length xs = omega arith in
      let offset : k + (length (drop k (xs ++ ys)) - n) ≡ length (xs ++ ys) - n =
        omega (arith, length-drop k (xs ++ ys), length-append xs ys) in
      rw (
        ← drop-append k xs ys within,
        drop-drop (length (drop k (xs ++ ys)) - n) k (xs ++ ys),
        offset,
      )

  -- Any number of pushes into a window within its positive capacity leaves the last values of the
  -- window and the new ones, in their order.
  pub push_all_lem :
      (vs : List F) (rb : RingBuffer F)
      → 0 < rb.cap
      → IsWithin rb
      → push_all rb vs ≡ some (record rb { items = last rb.cap (rb.items ++ vs) })
  push_all_lem [] rb h w =
      let fits : length rb.items - rb.cap ≡ 0 = omega arith in rw (append-nil, fits)
  push_all_lem (v ∷ vs) rb h w =
      let next : RingBuffer F = record rb { items = last rb.cap (rb.items ++ v ∷ []) } in
      rw (push_lem rb v h w, push_all)
        (push_all_lem vs next h (length-last rb.cap (rb.items ++ v ∷ []))
          ∙ rw (last_append rb.cap (rb.items ++ v ∷ []) vs, append_assoc))
