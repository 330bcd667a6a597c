-- ===== src/Answering.antt =====
-- A request of a user on its whole way: from the ticket dispenser (src/erogatore_ticket.c) through
-- the queue of the service to the operator who answers it (src/operator.c).
mod Tests
use operative_system_project.Prelude.{
  ℕ, ◌+◌, ◌*◌, ◌<◌, ◌≡◌, ◌≤◌, ◌%◌, Bool, true, false, refl, sym, ap, ◌∙◌, List, [], ◌∷◌, ◌++◌,
  length, arith, subst, map, get_or-set_self, length-append, length-set, get_or-set_ne, map-append,
  append_assoc,
}
use operative_system_project.Prelude.Int.{ℤ, pos, ltb_ℤ, pos_part}
use operative_system_project.Shared.{Shared, queue_of, no_queue}
use operative_system_project.Queue.{QueueTicket, max_count_queue, ServiceQueue}
use operative_system_project.Queue
use operative_system_project.Queue.Fifo
use operative_system_project.Queue.Refinement.{contents, length-contents, push_refines}
use operative_system_project.Stats.{Floating}
use operative_system_project.Commons.{TicketMessage}
use operative_system_project.Commons.Semaphores.{
  service_jobs_sem, service_queue_mutex_sem, layout, stats_mutex_sem,
}
use operative_system_project.Process.{Act, returned, blocked, World}
use operative_system_project.Process.Quiet.{world, value}
use operative_system_project.Process.Runs.{grants}
use operative_system_project.Dispenser
use operative_system_project.Dispenser.{enqueue_user_request, service_is_offered_today}
use operative_system_project.Dispenser.Protocol.{ticket_of}
use operative_system_project.Dispenser.Undisturbed.{settle, enqueue_user_request_returns, queued}
use operative_system_project.Operator.{Identity}
use operative_system_project.Operator.Day.{Draw, work_loop}
use operative_system_project.Operator.Work.{served_reply}
use operative_system_project.Operator.Work.Line.{on_duty, jobs-ne-queue}
use operative_system_project.Operator.Work.Served.{HasLine, ArePeople, line-IsServed}
use operative_system_project.Queue.Invariant.{IsValid, push-IsValid}

ArePeople-snoc :
    (ts : List QueueTicket) (t : QueueTicket)
    → ArePeople ts
    → ltb_ℤ (pos 0) t.user_pid ≡ true
    → ArePeople (ts ++ t ∷ [])
ArePeople-snoc [] t a e = (e, tt)
ArePeople-snoc (x ∷ ts) t a e = (a.0, ArePeople-snoc ts t a.1 e)

-- The dispenser takes the request: there is room, the day is on, and a counter offers the service.
pub record IsTaken {D : Type 0} (m : TicketMessage) (tickets : List QueueTicket) (s : Shared D)
    : Type 0 where
  pub offered : service_is_offered_today m.service s.counters ≡ true
  pub room : length tickets < max_count_queue
  pub person : ltb_ℤ (pos 0) m.user_pid ≡ true

module _ {D : Type 0} (n : ℕ) (now : ℤ) (m : TicketMessage) (tickets : List QueueTicket)
    (s : Shared D) (line : HasLine n (pos_part m.service) tickets s)
    (taken : IsTaken m tickets s) where
  abbrev index : ℕ
  index = pos_part m.service

  not_full : Queue.is_full (queue_of index s) ≡ false
  unfolding Queue.is_full
  not_full = ground (arith, taken.room, line.waiting, length-contents (queue_of index s))

  settled : settle n now m s ≡ queued n now m s
  unfolding settle
  settled = rw (line.open_, taken.offered, not_full) refl

  pushed_ticket :
      contents (Queue.push (queue_of index s) (ticket_of now m)).1 ≡ tickets ++ ticket_of now m ∷ []
  unfolding Fifo.push
  pushed_ticket =
      ap (λ p. p.1) (push_refines (ticket_of now m) line.valid)
      ∙ ap (λ f. (Fifo.push f (ticket_of now m)).1) line.waiting
      ∙ ground (arith, taken.room)

  queued-HasLine : HasLine n index (tickets ++ ticket_of now m ∷ []) (queued n now m s)
  queued-HasLine = record {
    ready = record {
      fixed = line.ready.fixed;
      sem_set = length-set s.sems (service_jobs_sem n index) _ ∙ line.ready.sem_set;
      stats_free =
          subst (λ v. 0 < v)
            (sym (
              get_or-set_ne s.sems (service_jobs_sem n index) (stats_mutex_sem n) _ 0
                (layout n index line.known).jobs-ne-stats))
            line.ready.stats_free;
    };
    known = line.known;
    mutex_free =
        subst (λ v. 0 < v)
          (sym (
            get_or-set_ne s.sems (service_jobs_sem n index) (service_queue_mutex_sem n index) _ 0
              (jobs-ne-queue n index line.known)))
          line.mutex_free;
    open_ = line.open_;
    exists = omega (arith, line.exists, length-set s.queues index grown);
    valid = subst IsValid (sym here) (push-IsValid (ticket_of now m) line.valid);
    waiting = ap contents here ∙ pushed_ticket;
    jobs =
        get_or-set_self s.sems (service_jobs_sem n index) (value (service_jobs_sem n index) s + 1) 0
          jobs_exist
        ∙ omega (arith, line.jobs, length-append tickets (ticket_of now m ∷ []));
  }
    where
      grown : ServiceQueue
      grown = (Queue.push (queue_of index s) (ticket_of now m)).1

      here : queue_of index (queued n now m s) ≡ grown
      here = get_or-set_self s.queues index grown no_queue line.exists

      jobs_exist : service_jobs_sem n index < length s.sems
      jobs_exist = omega (arith, line.ready.sem_set, (layout n index line.known).jobs_in)

-- If the day is on, a counter offers the service, its queue has room, the mutexes are free and all
-- calls complete at once, then enqueue_user_request returns, and the operator of the service, if no
-- pause is drawn, goes on from the state it leaves to answer every waiting user once: those who
-- waited before in their order, and the one who has asked now after them. Then the queue is empty
-- and the operator waits for the next ticket.
pub request_answered :
    {D : Type 0} ⦃float : Floating D⦄ (n : ℕ) (now : ℤ) (m : TicketMessage)
    (tickets : List QueueTicket) (s : Shared D) (f : Dispenser.Flags) (me : Identity)
    (draws : ℕ → Draw) (b : Bool) (rounds : ℕ) (t : List (Act D))
    → HasLine n (pos_part m.service) tickets s
    → IsTaken m tickets s
    → ArePeople tickets
    → ((i : ℕ) → 10 ≤ (draws i).pause % 100)
    → length tickets + 1 < rounds
    → (w : World Dispenser.Flags D) × (s' : Shared D) × (u : List (Act D)) × (enqueue_user_request
          now m
          (world f s (grants 7 []) t)
        ≡ returned tt w)
      × (work_loop me
            (pos_part m.service)
            draws
            rounds
            (world (on_duty b) w.shared (grants (7 * (length tickets + 1)) []) [])
          ≡ blocked (world (on_duty b) s' [] u))
      × (s'.mailbox
          ≡ s.mailbox
            ++ map (λ x. served_reply x.user_pid (pos_part m.service)) tickets
            ++ served_reply m.user_pid (pos_part m.service) ∷ [])
      × (contents (queue_of (pos_part m.service) s') ≡ [])
unfolding grants
request_answered {D} n now m tickets s f me draws b rounds t line taken people long enough =
    let (w, e, same) =
      enqueue_user_request_returns n now m f s [] t line.ready line.known line.mutex_free in
    let all = tickets ++ ticket_of now m ∷ [] in
    let (s', u, e', served) =
      line-IsServed n me (pos_part m.service) draws b all rounds (queued n now m s) []
        (queued-HasLine n now m tickets s line taken)
        (ArePeople-snoc tickets (ticket_of now m) people taken.person) long
        (omega (arith, enough, length-append tickets (ticket_of now m ∷ []))) in
    (
      w,
      s',
      u,
      e,
      ap
            (λ x.
              work_loop me (pos_part m.service) draws rounds
                (world (on_duty b) x (grants (7 * (length tickets + 1)) []) []))
            (same ∙ settled n now m tickets s line taken)
          ∙ ap
              (λ k.
                work_loop me (pos_part m.service) draws rounds
                  (world (on_duty b) (queued n now m s) (grants k []) []))
              (omega (arith, length-append tickets (ticket_of now m ∷ [])))
          ∙ e',
      served.told
          ∙ ap (λ l. s.mailbox ++ l)
              (map-append (λ x. served_reply x.user_pid (pos_part m.service)) tickets _)
          ∙ sym (append_assoc s.mailbox _ _),
      served.line.waiting,
    )
