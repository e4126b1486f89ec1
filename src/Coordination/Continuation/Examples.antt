-- ===== src/Coordination/Continuation/Examples.antt =====
-- The theorems on continuation, applied to an assignment that spends its three attempts.
use uber_coder.Prelude.{ℕ, ◌≤◌, ◌≡◌, none, true, List, [], ◌∷◌, ◌+◌}
use uber_coder.Coordination.Continuation.{unattended, idle_unfinished, new_control}
use uber_coder.Coordination.Continuation.Rounds.{sets, works, ends, sent, Operation, step, run}
use uber_coder.Coordination.Continuation.Budget.{IsBounded, run-IsBounded, attempts_of}
use uber_coder.Coordination.Continuation.Budget.Permission.{step-keeps_permission}

abbrev round : ℕ → ℕ × Operation
round now = (now, works none true idle_unfinished (now + 15000))

abbrev history : List (ℕ × Operation)
history =
    (1, sets unattended none)
    ∷ round 400000
    ∷ round 500000
    ∷ (500001, ends sent [])
    ∷ round 600000
    ∷ (600001, ends sent [])
    ∷ round 700000
    ∷ []

run-IsBounded_example : IsBounded (run history new_control)
run-IsBounded_example = run-IsBounded history

step-keeps_permission_example :
    ((step 800000 (ends sent []) (run history new_control)).continuation
      ≡ (run history new_control).continuation)
    × (attempts_of (run history new_control).recovery
        ≤ attempts_of (step 800000 (ends sent []) (run history new_control)).recovery)
step-keeps_permission_example =
    step-keeps_permission 800000 (ends sent []) (run history new_control) (λ k supervisor e. cc)
