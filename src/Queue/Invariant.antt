-- ===== src/Queue/Invariant.antt =====
-- The representation invariant of the ring of commons.h, kept by every operation.
use operative_system_project.Prelude.{
  ◌+◌, ◌%◌, ◌≤◌, ◌<◌, ◌≡◌, arith, length, length-set, length-replicate,
}
use operative_system_project.Queue.{
  ServiceQueue, QueueTicket, max_count_queue, zero_ticket, no_ticket, reset, push, pop,
}

pub record IsValid (q : ServiceQueue) : Type 0 where
  pub storage : length q.entries ≡ max_count_queue
  pub head_in : q.head < max_count_queue
  pub tail_at : q.tail ≡ (q.head + q.length) % max_count_queue
  pub length_in : q.length ≤ max_count_queue

pub reset-IsValid : (q : ServiceQueue) → IsValid (reset q)
unfolding reset
reset-IsValid q = record {
  storage = length-replicate max_count_queue zero_ticket;
  head_in = omega arith;
  tail_at = omega arith;
  length_in = omega arith;
}

pub push-IsValid : {q : ServiceQueue} (t : QueueTicket) → IsValid q → IsValid (push q t).1
unfolding push
push-IsValid {q} t v = ground (arith, length-set q.entries q.tail t)

pub pop-IsValid : {q : ServiceQueue} → IsValid q → IsValid (pop q).1
unfolding pop
pop-IsValid {q} v = ground (arith, length-set q.entries q.head no_ticket)

-- Every index that the operations use lies inside `entries`.
pub in_bounds :
    {q : ServiceQueue} → IsValid q → (q.head < length q.entries) × (q.tail < length q.entries)
in_bounds v = omega arith
