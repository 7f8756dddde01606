-- ===== src/Go/Time.antt =====
-- Go's time.Time: a parameter. A Duration is its number of nanoseconds, an int64.
use agentic_autoscaler.Prelude.{ℤ, pos, ◌*ℤ◌, Bool}

pub record GoTime {ℓ} (T : Type ℓ) : Type ℓ where
  -- t.Sub(u), t.After(u), t.Add(d), t.IsZero(), and the zero value of the type
  pub sub : T → T → ℤ
  pub after : T → T → Bool
  pub add : T → ℤ → T
  pub is_zero : T → Bool
  pub zero_time : T
  -- t.UTC().Hour(), t.UTC().Minute()
  pub utc_hour : T → ℤ
  pub utc_minute : T → ℤ

abbrev pub second : ℤ
second = pos 1000000000

abbrev pub minute : ℤ
minute = pos 60000000000

-- time.Duration(n) * time.Second, for an int32 n: the product fits an int64.
unfoldable pub seconds : ℤ → ℤ
seconds n = n *ℤ second
