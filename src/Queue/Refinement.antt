-- ===== src/Queue/Refinement.antt =====
-- A valid ring behaves as the list of the tickets from `head` on, round the array.
use operative_system_project.Prelude.{
  ℕ, suc, ◌+◌, ◌-◌, ◌%◌, ◌<◌, ◌≡◌, refl, sym, ap, ap₂, ◌∙◌, true, inl, inr, List, [], ◌∷◌, ◌++◌,
  arith, length, get_or, set, get_or-set_self, get_or-set_ne, tabulate, length-tabulate,
  tabulate-ext, tabulate-snoc, ◌==◌, Bool-cases,
}
use operative_system_project.Queue.{
  ServiceQueue, QueueTicket, max_count_queue, zero_ticket, no_ticket, reset, push, pop, run, Op,
  put, get, clear,
}
use operative_system_project.Queue.Invariant.{IsValid, push-IsValid, pop-IsValid, reset-IsValid}
use operative_system_project.Queue.Fifo
use operative_system_project.Queue.Fifo.{Fifo}

-- The ticket that is `k` places behind the head.
abbrev slot : ServiceQueue → ℕ → QueueTicket
slot q k = get_or q.entries ((q.head + k) % max_count_queue) zero_ticket

unfoldable pub contents : ServiceQueue → Fifo
contents q = tabulate q.length (slot q)

pub length-contents : (q : ServiceQueue) → length (contents q) ≡ q.length
unfolding contents
length-contents q = length-tabulate q.length (slot q)

pub contents-reset : (q : ServiceQueue) → contents (reset q) ≡ []
unfolding contents reset tabulate
contents-reset q = refl

-- The entries and the state after a push that finds room, and after a pop that finds a ticket.
module _ (q : ServiceQueue) where
  abbrev pushed : QueueTicket → ServiceQueue
  pushed t = record q {
    entries = set q.entries q.tail t;
    tail = (q.tail + 1) % max_count_queue;
    length = q.length + 1;
  }

  abbrev popped : ServiceQueue
  popped = record q {
    entries = set q.entries q.head no_ticket;
    head = (q.head + 1) % max_count_queue;
    length = q.length - 1;
  }

  push_room : (t : QueueTicket) → q.length < max_count_queue → push q t ≡ (true, pushed t)
  unfolding push
  push_room t h = ground arith

  pop_some : 0 < q.length → pop q ≡ (get_or q.entries q.head zero_ticket, popped)
  unfolding pop
  pop_some h = ground arith

module _ {q : ServiceQueue} (v : IsValid q) where
  contents-pushed :
      (t : QueueTicket) → q.length < max_count_queue → contents (pushed q t) ≡ contents q ++ t ∷ []
  unfolding contents
  contents-pushed t h =
      ap (λ n. tabulate n (slot (pushed q t))) grown
      ∙ tabulate-snoc _ _
      ∙ ap₂ (λ f x. f ++ x ∷ []) kept fresh
    where
      grown : q.length + 1 ≡ suc q.length
      grown = omega arith

      kept : tabulate q.length (slot (pushed q t)) ≡ tabulate q.length (slot q)
      kept = tabulate-ext _ _ _ λ k lt. get_or-set_ne q.entries q.tail _ t zero_ticket (omega arith)

      here : (q.head + q.length) % max_count_queue ≡ q.tail
      here = omega arith

      fresh : slot (pushed q t) q.length ≡ t
      fresh = rw here (get_or-set_self q.entries q.tail t zero_ticket (omega arith))

  contents-popped :
      0 < q.length → contents q ≡ get_or q.entries q.head zero_ticket ∷ contents (popped q)
  unfolding contents tabulate
  contents-popped h = ap (λ n. tabulate n (slot q)) shrunk ∙ ap₂ ◌∷◌ first rest
    where
      shrunk : q.length ≡ suc (q.length - 1)
      shrunk = omega arith

      here : (q.head + 0) % max_count_queue ≡ q.head
      here = omega arith

      first : slot q 0 ≡ get_or q.entries q.head zero_ticket
      first = rw here

      rest : tabulate (q.length - 1) (λ k. slot q (suc k)) ≡ contents (popped q)
      rest = tabulate-ext _ _ _ λ k lt. sym (
          get_or-set_ne q.entries q.head _ no_ticket zero_ticket (omega arith)
          ∙ ap (λ i. get_or q.entries i zero_ticket) (omega arith))

-- On a valid ring service_queue_push answers as the push of the list, and leaves the ring holding
-- the result of the list.
pub push_refines :
    {q : ServiceQueue} (t : QueueTicket)
    → IsValid q
    → let (b, q') = push q t in (b, contents q') ≡ Fifo.push (contents q) t
unfolding push Fifo.push
push_refines {q} t v = ground (arith, length-contents q, contents-pushed v t)

-- On a valid ring service_queue_pop hands out the ticket of the pop of the list, and leaves the
-- ring holding the rest.
pub pop_refines :
    {q : ServiceQueue} → IsValid q → let (t, q') = pop q in (t, contents q') ≡ Fifo.pop (contents q)
unfolding pop Fifo.pop
pop_refines {q} v = elim (Bool-cases (q.length == 0)) [
  | inl e ↦ ground (arith, length-contents q)
  | inr e ↦ rw (contents-popped v (ground arith)) (ground arith)
]

-- No sequence of calls of service_queue_push, service_queue_pop and service_queue_reset tells a
-- valid ring from the list of its tickets.
pub run_refines :
    (ops : List Op) {q : ServiceQueue} → IsValid q → run q ops ≡ Fifo.run (contents q) ops
unfolding run Fifo.run
run_refines [] v = refl
run_refines (put t ∷ ops) {q} v = rw (run_refines ops (push-IsValid t v), ← push_refines t v)
run_refines (get ∷ ops) {q} v = rw (run_refines ops (pop-IsValid v), ← pop_refines v)
run_refines (clear ∷ ops) {q} v = rw (run_refines ops (reset-IsValid q), contents-reset q)
