-- ===== src/Director/Flush/Drained.antt =====
-- What the inner loop of flush_pending_users in src/director.c leaves of one queue.
use operative_system_project.Prelude.{
  ℕ, ◌+◌, ◌<◌, ◌≡◌, ◌≢◌, refl, List, [], ◌∷◌, ◌++◌, zero, suc, length, arith, ap, ◌∙◌, append_assoc,
  append-nil, sym, subst, length-set, get_or-set_ne,
}
use operative_system_project.Queue
use operative_system_project.Queue.Fifo
use operative_system_project.Queue.Refinement.{contents, length-contents, pop_refines}
use operative_system_project.Director.Flush.{
  after_one, after_tickets, queue_of-set, IsValid, popped_length,
}
use operative_system_project.Queue.{QueueTicket, ServiceQueue}
use operative_system_project.Shared.{Shared, Message, queue_of, no_queue}
use operative_system_project.Dispenser.Steps.{refusal}
use operative_system_project.Queue.Invariant.{pop-IsValid}
use operative_system_project.Stats.{count_not_served}

-- The refusals that the users with these tickets get.
unfoldable pub refusals : ℕ → List QueueTicket → List Message
refusals service [] = []
refusals service (t ∷ ts) = refusal t.user_pid service ∷ refusals service ts

none_left : {A : Type 0} (l : List A) → length l ≡ 0 → l ≡ []
none_left [] e = refl
none_left (x ∷ l) e = absurd (omega (arith, e))

first_of :
    (l : List QueueTicket) (k : ℕ) (t : QueueTicket) (rest : List QueueTicket)
    → length l ≡ suc k
    → (t, rest) ≡ Fifo.pop l
    → l ≡ t ∷ rest
unfolding Fifo.pop
first_of [] k t rest e q = absurd (omega (arith, e))
first_of (x ∷ l) k t rest e q = ap (λ p. p.0 ∷ p.1) (sym q)

contents-pop :
    (q : ServiceQueue) (k : ℕ)
    → IsValid q
    → q.length ≡ suc k
    → contents q ≡ (Queue.pop q).0 ∷ contents (Queue.pop q).1
contents-pop q k v e = first_of (contents q) k _ _ (length-contents q ∙ e) (pop_refines v)

contents-none : (q : ServiceQueue) → q.length ≡ 0 → contents q ≡ []
contents-none q e = none_left (contents q) (length-contents q ∙ e)

module _ {D : Type 0} where
  pub record IsDrained (service k : ℕ) (s s' : Shared D) : Type 0 where
    pub same_config : s'.config ≡ s.config
    pub same_sems : s'.sems ≡ s.sems
    pub same_size : length s'.queues ≡ length s.queues
    pub others : (i : ℕ) → i ≢ service → queue_of i s' ≡ queue_of i s
    pub valid : IsValid (queue_of service s')
    pub empty : (queue_of service s').length ≡ 0
    pub told : s'.mailbox ≡ s.mailbox ++ refusals service (contents (queue_of service s))
    pub day_counted : s'.stats.day_services_not_served ≡ s.stats.day_services_not_served + k
    pub total_counted : s'.stats.total_services_not_served ≡ s.stats.total_services_not_served + k

  pub drained :
      (service k : ℕ) (s : Shared D)
      → IsValid (queue_of service s)
      → service < length s.queues
      → (queue_of service s).length ≡ k
      → IsDrained service k s (after_tickets service k s)
  unfolding after_tickets refusals count_not_served
  drained service zero s valid exists size = record {
    same_config = refl;
    same_sems = refl;
    same_size = refl;
    others = λ i ne. refl;
    valid = valid;
    empty = size;
    told =
        sym (append-nil s.mailbox)
        ∙ ap (λ l. s.mailbox ++ refusals service l) (sym (contents-none (queue_of service s) size));
    day_counted = omega arith;
    total_counted = omega arith;
  }
  drained service (suc k) s valid exists size =
      let v =
        drained service k (after_one service s) (subst IsValid (sym here) (pop-IsValid valid))
          (omega (arith, exists, length-set s.queues service (Queue.pop (queue_of service s)).1))
          (ap (λ q. q.length) here ∙ popped_length (queue_of service s) k size) in
      record {
        same_config = v.same_config;
        same_sems = v.same_sems;
        same_size = v.same_size ∙ length-set s.queues service _;
        others = λ i ne.
            v.others i ne
            ∙ get_or-set_ne s.queues service i (Queue.pop (queue_of service s)).1 no_queue
                (λ e. ne (sym e));
        valid = v.valid;
        empty = v.empty;
        told =
            v.told
            ∙ ap
                (λ l.
                  (s.mailbox ++ refusal (Queue.pop (queue_of service s)).0.user_pid service ∷ [])
                  ++ refusals service (contents l))
                here
            ∙ append_assoc s.mailbox _ _
            ∙ ap (λ l. s.mailbox ++ refusals service l)
                (sym (contents-pop (queue_of service s) k valid size));
        day_counted = v.day_counted ∙ omega arith;
        total_counted = v.total_counted ∙ omega arith;
      }
    where
      here : queue_of service (after_one service s) ≡ (Queue.pop (queue_of service s)).1
      here = queue_of-set service (Queue.pop (queue_of service s)).1 s exists
