-- ===== src/User/Tests.antt =====
-- A user of a small simulation.
use operative_system_project.Prelude.{ℕ, List, [], ◌∷◌, false, true, ◌≡◌, refl}
use operative_system_project.Prelude.Int.{pos}
use operative_system_project.Shared.Tests.{whole_minutes, small_office, small_office-IsSound}
use operative_system_project.Shared.Soundness
use operative_system_project.Process.{
  Signal, Event, grant, interrupted, turn, handled, returned, slept,
}
use operative_system_project.User.{Flags, Identity, request_service, run_day}
use operative_system_project.User.Request.{Asked, request_service-Asked}
use operative_system_project.Process.Post.{Keeps, Post}
use operative_system_project.Shared.Soundness.{IsSound, IsSound-IsKept}
use operative_system_project.User.Closing.{closed, run_day-closed}
use operative_system_project.Process.Interrupted.{after_turns, all_turns}
use operative_system_project.Shared.{Shared}
use operative_system_project.Process.Quiet.{world}

abbrev started : Flags
started = record { day_started = true; day_closed = false; terminate_requested = false }

abbrev me : Identity
me = record { user_index = 0; pid = pos 30 }

abbrev busy : List (Event ℕ)
busy =
    grant
    ∷ interrupted Signal.sigusr2
    ∷ turn (λ s. record s { mailbox = [] })
    ∷ grant
    ∷ interrupted Signal.sigterm
    ∷ []

busy-Keeps : Keeps (IsSound 1) busy
busy-Keeps = ((λ s v. Soundness.by_mailbox v []), tt)

request_service-Asked_example :
    Post
      (λ _ w'. Asked (IsSound 1) me 2 [] w')
      (λ w'. IsSound 1 w'.shared)
      (request_service me 2 (world started small_office busy []))
request_service-Asked_example =
    request_service-Asked 1 (IsSound 1) (IsSound-IsKept 1) me 2 (world started small_office busy [])
      small_office-IsSound busy-Keeps

abbrev clear_mailbox : Shared ℕ → Shared ℕ
clear_mailbox s = record s { mailbox = [] }

run_day-closed_example :
    (run_day me
        (record { go = 110; service = 8 })
        (world started small_office
          (after_turns (clear_mailbox ∷ []) (interrupted Signal.sigusr2 ∷ []))
          [])
      ≡ returned tt (world (closed started) (all_turns (clear_mailbox ∷ []) small_office) [] []))
    × (run_day me
          (record { go = 110; service = 8 })
          (world started small_office
            (after_turns
              (clear_mailbox ∷ [])
              (grant ∷ after_turns (clear_mailbox ∷ []) (handled Signal.sigusr2 ∷ grant ∷ [])))
            [])
        ≡ returned tt (
            world
              (closed started)
              (all_turns (clear_mailbox ∷ []) (all_turns (clear_mailbox ∷ []) small_office))
              (grant ∷ [])
              (slept ∷ [])))
run_day-closed_example =
    run_day-closed me (record { go = 110; service = 8 }) started small_office (clear_mailbox ∷ [])
      (clear_mailbox ∷ []) [] [] refl
