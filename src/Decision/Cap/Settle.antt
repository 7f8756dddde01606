-- ===== src/Decision/Cap/Settle.antt =====
-- Repeated reconciles under a steady recommendation.
use agentic_autoscaler.Prelude.{
  ℕ, ◌+◌, ℤ, not, ◌&&◌, ltb_ℤ, if◌then◌else◌, List, [], ◌∷◌, All, ◌*◌, ◌≤◌, pos_part, ◌≤ℤ◌,
}
use agentic_autoscaler.Go.Time.{GoTime, seconds}
use agentic_autoscaler.Decision.Cap.{CapInput, apply_cap_and_cooldown}

module _ {ℓ} {T : Type ℓ} ⦃t : GoTime T⦄ where
  -- The input of the next reconcile, after one at `x` whose patch, if there is one, succeeds: the
  -- replicas that it asked for, and the time of the scale event.
  abbrev pub advance : T → CapInput T → CapInput T
  advance x c =
      let out = apply_cap_and_cooldown (record c { now = x }) in
      record c {
        now = x;
        current = out.target;
        last_scale_up =
            if out.should_patch && ltb_ℤ c.current out.target then x else c.last_scale_up;
        last_scale_down =
            if out.should_patch && not (ltb_ℤ c.current out.target) then x else c.last_scale_down;
      }

  -- Reconciles at the times, in their order.
  abbrev pub settle : List T → CapInput T → CapInput T
  settle [] c = c
  settle (x ∷ xs) c = settle xs (advance x c)

  -- At `y` both cooldowns have passed since the last scale events.
  abbrev pub IsRested : CapInput T → T → Type 0
  IsRested c y =
      (seconds c.cooldown_up ≤ℤ t.sub y c.last_scale_up)
      × (seconds c.cooldown_down ≤ℤ t.sub y c.last_scale_down)

  abbrev IsApart : ℤ → ℤ → T → T → Type 0
  IsApart up down x y = (seconds up ≤ℤ t.sub y x) × (seconds down ≤ℤ t.sub y x)

  -- Each time is at least both cooldowns after every earlier one.
  abbrev pub AreSpaced : ℤ → ℤ → List T → Type 0
  AreSpaced up down [] = Unit
  AreSpaced up down (x ∷ xs) = All (IsApart up down x) xs × AreSpaced up down xs

  -- The remaining distance falls by a step, or is gone.
  abbrev pub IsNear : ℕ → CapInput T → Type 0
  IsNear n c =
      (pos_part c.recommended ≤ pos_part c.current + n * pos_part c.max_step)
      × (pos_part c.current ≤ pos_part c.recommended + n * pos_part c.max_step)
