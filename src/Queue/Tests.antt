-- ===== src/Queue/Tests.antt =====
-- The ring of commons.h on small runs.
use operative_system_project.Prelude.{◌≡◌, [], ◌∷◌, List, ℕ}
use operative_system_project.Prelude.Int.{pos}
use operative_system_project.Queue.{
  QueueTicket, ServiceQueue, Op, put, get, clear, run, reset, push, pop,
}
use operative_system_project.Queue.Invariant.{reset-IsValid, push-IsValid, IsValid}
use operative_system_project.Queue.Fifo
use operative_system_project.Queue.Refinement.{contents, run_refines, push_refines, pop_refines}

abbrev ticket : ℕ → QueueTicket
ticket n = record { user_pid = pos n; user_index = pos n; requested_at_ns = pos 0 }

abbrev fresh : ServiceQueue
fresh = reset (record { entries = []; head = 7; tail = 3; length = 9 })

abbrev one_ticket : ServiceQueue
one_ticket = (push fresh (ticket 1)).1

abbrev calls : List Op
calls = get ∷ put (ticket 2) ∷ get ∷ get ∷ clear ∷ get ∷ []

one_ticket-IsValid : IsValid one_ticket
one_ticket-IsValid = push-IsValid (ticket 1) (reset-IsValid _)

run_refines_example : run one_ticket calls ≡ Fifo.run (contents one_ticket) calls
run_refines_example = run_refines calls one_ticket-IsValid

push_refines_example :
    let (b, q') = push one_ticket (ticket 2) in
    (b, contents q') ≡ Fifo.push (contents one_ticket) (ticket 2)
push_refines_example = push_refines (ticket 2) one_ticket-IsValid

pop_refines_example :
    let (t, q') = pop one_ticket in (t, contents q') ≡ Fifo.pop (contents one_ticket)
pop_refines_example = pop_refines one_ticket-IsValid
