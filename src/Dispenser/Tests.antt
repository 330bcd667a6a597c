-- ===== src/Dispenser/Tests.antt =====
-- The ticket dispenser on a small simulation, in which the others empty the message queue between
-- its calls and a signal interrupts it.
use operative_system_project.Prelude.{refl, ◌≡◌, arith, ℕ, List, [], ◌∷◌, false, ◌<◌}
use operative_system_project.Prelude.Int.{pos}
use operative_system_project.Shared.Tests.{whole_minutes, small_office, small_office-IsSound}
use operative_system_project.Shared.Soundness
use operative_system_project.Process.{Signal, Event, World, grant, turn, interrupted, returned}
use operative_system_project.Commons.{TicketMessage}
use operative_system_project.Dispenser.{Flags, enqueue_user_request, main}
use operative_system_project.Process.Post.{Keeps, Post}
use operative_system_project.Commons.Semaphores.{
  total_sems, service_queue_mutex_sem, stats_mutex_sem,
}
use operative_system_project.Shared.Soundness.{IsSound}
use operative_system_project.Dispenser.Protocol.{Settled, enqueue_user_request-Settled}
use operative_system_project.Dispenser.Steps.{counting}
use operative_system_project.Dispenser.Undisturbed.{settle, enqueue_user_request_returns}
use operative_system_project.Process.Quiet.{IsReady, value, world}
use operative_system_project.Stats.{requests}
use operative_system_project.Process.Guarded.{IsGuarded}
use operative_system_project.Dispenser.Safety.{main-IsSound, IsSound-IsPreserved}

abbrev request : TicketMessage
request = record { mtype = 2; user_index = pos 0; user_pid = pos 30; service = pos 2 }

abbrev busy : List (Event ℕ)
busy =
    grant
    ∷ turn (λ s. record s { mailbox = [] })
    ∷ grant
    ∷ interrupted Signal.sigint
    ∷ grant
    ∷ grant
    ∷ grant
    ∷ []

abbrev calm : Flags
calm = record { terminate_requested = false }

busy-Keeps : Keeps (IsSound 1) busy
busy-Keeps = ((λ s v. Soundness.by_mailbox v []), tt)

enqueue_user_request-Settled_example :
    Post
      (λ _ w'. Settled 1 (IsSound 1) (pos 5) request 2 (counting 1 (requests 2) []) w')
      (λ w'. IsSound 1 w'.shared)
      (enqueue_user_request (pos 5) request (world calm small_office busy []))
enqueue_user_request-Settled_example =
    enqueue_user_request-Settled 1 (IsSound 1) (IsSound-IsPreserved 1) (pos 5) request (omega arith)
      (world calm small_office busy []) small_office-IsSound busy-Keeps

small_office-IsReady : IsReady 1 small_office
unfolding total_sems stats_mutex_sem
small_office-IsReady = record { fixed = refl; sem_set = refl; stats_free = omega arith }

queue_free : 0 < value (service_queue_mutex_sem 1 2) small_office
unfolding service_queue_mutex_sem
queue_free = omega arith

enqueue_user_request_returns_example :
    (w : World Flags ℕ) × (enqueue_user_request
        (pos 5)
        request
        (world calm small_office (grant ∷ grant ∷ grant ∷ grant ∷ grant ∷ grant ∷ grant ∷ []) [])
      ≡ returned tt w)
    × (w.shared ≡ settle 1 (pos 5) request small_office)
enqueue_user_request_returns_example =
    enqueue_user_request_returns 1 (pos 5) request calm small_office [] [] small_office-IsReady
      (omega arith) queue_free

main-IsSound_example :
    Post
      (λ _ w'. IsSound 1 w'.shared × IsGuarded 1 w'.trace)
      (λ w'. IsSound 1 w'.shared × IsGuarded 1 w'.trace)
      (main (pos 9) pos 4 (world calm small_office busy []))
main-IsSound_example =
    main-IsSound 1 (pos 9) pos 4 (world calm small_office busy []) small_office-IsSound busy-Keeps
      tt
