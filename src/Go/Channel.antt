-- ===== src/Go/Channel.antt =====
-- A buffered channel: its queue and its capacity. A select with a default branch tries one operation.
use agentic_autoscaler.Prelude.{ℕ, List, [], ◌∷◌, ◌++◌, length, ltb, if◌then◌else◌, Bool}

pub record Channel {ℓ} (A : Type ℓ) : Type ℓ where
  pub queue : List A
  pub limit : ℕ

module _ {ℓ} {A : Type ℓ} where
  -- make(chan A, n)
  unfoldable pub make : ℕ → Channel A
  make n = record { queue = []; limit = n }

  unfoldable pub has_room : Channel A → Bool
  has_room ch = ltb (length ch.queue) ch.limit

  -- select { case ch <- a: default: }
  unfoldable pub try_send : A → Channel A → Channel A
  unfolding has_room
  try_send a ch = if has_room ch then record ch { queue = ch.queue ++ (a ∷ []) } else ch

  abbrev pub rest : List A → List A
  rest [] = []
  rest (x ∷ xs) = xs

  -- select { case <-ch: default: }
  unfoldable pub try_receive : Channel A → Channel A
  try_receive ch = record ch { queue = rest ch.queue }
