-- ===== src/Stats/Tests.antt =====
-- The statistics after a short history.
use operative_system_project.Prelude.{arith, ℕ, List, [], ◌∷◌}
use operative_system_project.Stats.{
  Update, resets, pauses, requests, refuses, serves, zero_stats, apply_all,
}
use operative_system_project.Shared.Tests.{whole_minutes}
use operative_system_project.Stats.Consistency.{
  AreValid, IsConsistent, apply_all-IsConsistent, zero_stats-IsConsistent,
}

abbrev history : List (Update ℕ)
history =
    requests 2
    ∷ requests 5
    ∷ serves 2 3 8
    ∷ refuses 5
    ∷ pauses
    ∷ resets
    ∷ requests 0
    ∷ refuses 0
    ∷ []

history_valid : AreValid history
history_valid = omega arith

apply_all-IsConsistent_example : IsConsistent (apply_all history zero_stats)
apply_all-IsConsistent_example =
    apply_all-IsConsistent history zero_stats history_valid zero_stats-IsConsistent
