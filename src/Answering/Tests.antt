-- ===== src/Answering/Tests.antt =====
-- An operator with a user who waits, and a second user who asks for the same service.
use operative_system_project.Prelude.{
  ℕ, ◌+◌, ◌*◌, ◌≡◌, refl, true, false, List, [], ◌∷◌, ◌++◌, arith, map, length,
}
use operative_system_project.Prelude.Int.{pos}
use operative_system_project.Shared.Tests.{
  whole_minutes, waiting_office, waiting_ticket, waiting_office-IsReady, line_queue-IsValid,
  contents-line_queue,
}
use operative_system_project.Shared.{Shared, queue_of}
use operative_system_project.Commons.{TicketMessage}
use operative_system_project.Commons.Semaphores.{service_queue_mutex_sem, service_jobs_sem}
use operative_system_project.Process.{Act, World, returned, blocked}
use operative_system_project.Process.Quiet.{world}
use operative_system_project.Process.Runs.{grants}
use operative_system_project.Queue.Refinement.{contents}
use operative_system_project.Dispenser
use operative_system_project.Dispenser.{enqueue_user_request, service_is_offered_today}
use operative_system_project.Operator.{Identity}
use operative_system_project.Operator.Day.{Draw, work_loop}
use operative_system_project.Operator.Work.{served_reply}
use operative_system_project.Operator.Work.Line.{on_duty}
use operative_system_project.Operator.Work.Served.{HasLine, IsServed, line-IsServed}
use operative_system_project.Answering.{IsTaken, request_answered}

abbrev me : Identity
me = record { worker_index = 0; pid = pos 20 }

abbrev draw : ℕ → Draw
draw round = record { now = pos 700; duration = 3; pause = 50 }

abbrev calm : Dispenser.Flags
calm = record { terminate_requested = false }

abbrev request : TicketMessage
request = record { mtype = 2; user_index = pos 1; user_pid = pos 31; service = pos 2 }

one_waits : HasLine 1 2 (waiting_ticket ∷ []) waiting_office
unfolding service_queue_mutex_sem service_jobs_sem
one_waits = record {
  ready = waiting_office-IsReady;
  known = omega arith;
  mutex_free = omega arith;
  open_ = refl;
  exists = omega arith;
  valid = line_queue-IsValid;
  waiting = contents-line_queue;
  jobs = refl;
}

taken : IsTaken request (waiting_ticket ∷ []) waiting_office
unfolding service_is_offered_today
taken = record { offered = refl; room = omega arith; person = refl }

line-IsServed_example :
    (s' : Shared ℕ) × (u : List (Act ℕ)) × (work_loop me 2 draw 2
        (world (on_duty true) waiting_office (grants (7 * length (waiting_ticket ∷ [])) []) [])
      ≡ blocked (world (on_duty true) s' [] u))
    × IsServed 1 2 (waiting_ticket ∷ []) waiting_office s'
line-IsServed_example =
    line-IsServed 1 me 2 draw true (waiting_ticket ∷ []) 2 waiting_office [] one_waits (refl, tt)
      (λ i. omega arith) (omega arith)

request_answered_example :
    (w : World Dispenser.Flags ℕ) × (s' : Shared ℕ) × (u : List (Act ℕ)) × (enqueue_user_request
        (pos 5)
        request
        (world calm waiting_office (grants 7 []) [])
      ≡ returned tt w)
    × (work_loop me 2 draw 3
          (world (on_duty true) w.shared (grants (7 * (length (waiting_ticket ∷ []) + 1)) []) [])
        ≡ blocked (world (on_duty true) s' [] u))
    × (s'.mailbox
        ≡ waiting_office.mailbox
          ++ map (λ x. served_reply x.user_pid 2) (waiting_ticket ∷ [])
          ++ served_reply (pos 31) 2 ∷ [])
    × (contents (queue_of 2 s') ≡ [])
request_answered_example =
    request_answered 1 (pos 5) request (waiting_ticket ∷ []) waiting_office calm me draw true 3 []
      one_waits taken (refl, tt) (λ i. omega arith) (omega arith)
