-- ===== src/Operator/Tests.antt =====
-- An operator on a small simulation.
use operative_system_project.Prelude.{◌≡◌, arith, ℕ, List, [], ◌∷◌, false, true, ◌≤◌}
use operative_system_project.Prelude.Int.{pos}
use operative_system_project.Shared.Tests.{whole_minutes, small_office, small_office-IsSound}
use operative_system_project.Shared.Soundness
use operative_system_project.Process.{Signal, Event, grant, turn, interrupted, exited, slept}
use operative_system_project.Operator.{Flags, Identity, random_service_duration_minutes}
use operative_system_project.Operator.Day.{main, Draw, serve_ticket}
use operative_system_project.Queue.{QueueTicket}
use operative_system_project.Shared.{Shared}
use operative_system_project.Process.Post.{Keeps, Post}
use operative_system_project.Shared.Soundness.{IsSound}
use operative_system_project.Operator.Duration.{IsNear, duration_reached, duration-IsNear}
use operative_system_project.Process.Guarded.{IsGuarded}
use operative_system_project.Process.Quiet.{world}
use operative_system_project.Operator.Day.Safety.{operator-IsSound}
use operative_system_project.Operator.Interruption.{stop_day, serve_ticket_interrupted}
use operative_system_project.Process.Interrupted.{after_turns, all_turns}

abbrev ready : Flags
ready = record { day_started = true; day_stop_requested = false; terminate_requested = false }

abbrev me : Identity
me = record { worker_index = 0; pid = pos 20 }

abbrev draw : Draw
draw = record { now = pos 700; duration = 3; pause = 50 }

abbrev ticket : QueueTicket
ticket = record { user_pid = pos 30; user_index = pos 0; requested_at_ns = pos 100 }

abbrev clear_mailbox : Shared ℕ → Shared ℕ
clear_mailbox s = record s { mailbox = [] }

abbrev busy : List (Event ℕ)
busy =
    grant
    ∷ turn clear_mailbox
    ∷ grant
    ∷ interrupted Signal.sigint
    ∷ grant
    ∷ grant
    ∷ grant
    ∷ interrupted Signal.sigusr2
    ∷ grant
    ∷ []

busy-Keeps : Keeps (IsSound 1) busy
busy-Keeps = ((λ s v. Soundness.by_mailbox v []), tt)

operator-IsSound_example :
    Post
      (λ _ w'. IsSound 1 w'.shared × IsGuarded 1 w'.trace)
      (λ w'. IsSound 1 w'.shared × IsGuarded 1 w'.trace)
      (main me (λ day round. draw) 3 2 (world ready small_office busy []))
operator-IsSound_example =
    operator-IsSound 1 me (λ day round. draw) 3 2 (world ready small_office busy [])
      small_office-IsSound busy-Keeps tt

serve_ticket_interrupted_example :
    serve_ticket 2 ticket draw (
      world ready small_office
        (grant ∷ after_turns (clear_mailbox ∷ []) (interrupted Signal.sigusr2 ∷ []))
        [])
    ≡ exited (world (stop_day ready) (all_turns (clear_mailbox ∷ []) small_office) [] (slept ∷ []))
serve_ticket_interrupted_example =
    serve_ticket_interrupted 2 ticket draw ready small_office (clear_mailbox ∷ []) [] []

duration-IsNear_example :
    (1 ≤ random_service_duration_minutes 4 123) × IsNear 4 (random_service_duration_minutes 4 123)
duration-IsNear_example = duration-IsNear 4 123 (omega arith)

duration_reached_example :
    (draw : ℕ) × (draw ≤ 32767) × (random_service_duration_minutes 2 draw ≡ 9)
duration_reached_example = duration_reached 2 9 (omega arith) (omega arith)
