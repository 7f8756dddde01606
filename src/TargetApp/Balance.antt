-- ===== src/TargetApp/Balance.antt =====
-- What adds up over every order of the steps of the target app's requests.
use agentic_autoscaler.Prelude.{ℕ, ◌+◌, ◌≤◌, Option, some, none, List, [], ◌∷◌, ◌≡◌}
use agentic_autoscaler.TargetApp.{Server, Step, run_steps}

abbrev pub is_arrival : Step → ℕ
is_arrival Step.arrive = 1
is_arrival _ = 0

abbrev pub arrivals : List Step → ℕ
arrivals [] = 0
arrivals (x ∷ xs) = is_arrival x + arrivals xs

-- `n` requests have arrived: the places taken are those of the requests at work and of those that have
-- not released theirs, and are within the capacity; each request is at work, or counted under one
-- status; each is observed once, after its last step.
abbrev pub IsBalanced : ℕ → Server → Type 0
IsBalanced n s =
    (s.taken ≡ s.working + s.answered)
    × (s.taken ≤ s.capacity)
    × (n ≡ s.working + s.counted_200 + s.counted_503)
    × (n ≡ s.taken + s.leaving + s.observed)

abbrev pub Balances : ℕ → Option Server → Type 0
Balances n none = Unit
Balances n (some s) = IsBalanced n s

-- A server that starts, and what holds after the steps.
abbrev pub Serves : List Step → Option Server → Type 0
Serves xs none = ⊥
Serves xs (some s) = Balances (arrivals xs) (run_steps xs s)
