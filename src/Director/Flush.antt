-- ===== src/Director/Flush.antt =====
-- The loops of src/director.c over the six queues when their calls complete at once and nobody else
-- runs: flush_pending_users empties the queues and tells every user, and it returns.
pub mod Drained
pub mod Pending
pub mod Services
pub mod Counting
use operative_system_project.Prelude.{
  ℕ, ◌+◌, ◌*◌, ◌<◌, ◌≤◌, ◌≡◌, refl, List, [], ◌∷◌, ◌++◌, map, zero, suc, set, length, arith, ap,
  ◌∙◌, get_or, ◌-◌, subst, length-set, false, sym, ◌==◌, true, if◌then◌else◌, get_or-set_self,
}
use operative_system_project.Queue
use operative_system_project.Director.{
  Flags, handle_director_signal, lock_stats, unlock_stats, sem_up, sem_down, mark_not_served,
  pop_ticket, send_user_reply, flush_queue, flush_services, flush_pending_users, set_sem_value,
  count_services, count_pending_users, seats,
}
use operative_system_project.Shared.{Shared, queue_of, no_queue}
use operative_system_project.Process.Quiet.{Has, value, with_sem, IsReady}
use operative_system_project.Process.{
  Proc, peek, ◌>>=◌, require, ◌>>◌, popped, retry, send, got, commit, counted, ret,
}
use operative_system_project.Stats.{refuses, count_not_served}
use operative_system_project.Queue.{run}
use operative_system_project.Dispenser.Steps.{refusal}
use operative_system_project.Process.Runs.{
  Runs, peek-Runs, up-Runs, down-Runs, then_steps, bind-Runs, grants, restored, send-Runs, ret-Runs,
  commit-Runs, recount, if_true-Runs, if_false-Runs,
}
use operative_system_project.Prelude.Int.{ℤ}
use operative_system_project.Commons.{UserReplyStatus}
use operative_system_project.Queue.Invariant.{IsValid}
use operative_system_project.Commons.Semaphores.{stats_mutex_sem, total_sems}

is_empty : (q : Queue.ServiceQueue) → q.length ≡ 0 → (Queue.queue_length q == 0) ≡ true
unfolding Queue.queue_length
is_empty q e = ground (arith, e)

is_busy : (q : Queue.ServiceQueue) (k : ℕ) → q.length ≡ suc k → (Queue.queue_length q == 0) ≡ false
unfolding Queue.queue_length
is_busy q k e = ground (arith, e)

pub popped_length : (q : Queue.ServiceQueue) (k : ℕ) → q.length ≡ suc k → (Queue.pop q).1.length ≡ k
unfolding Queue.pop
popped_length q k e = ground (arith, e)

pub queue_of-set :
    {D : Type 0} (service : ℕ) (q : Queue.ServiceQueue) (s : Shared D)
    → service < length s.queues
    → queue_of service (record s { queues = set s.queues service q }) ≡ q
queue_of-set service q s h = get_or-set_self s.queues service q no_queue h

module _ {D : Type 0} where
  -- What flush_pending_users does for one ticket of a queue.
  abbrev pub after_one : ℕ → Shared D → Shared D
  after_one service s = record s {
    queues = set s.queues service (Queue.pop (queue_of service s)).1;
    mailbox = s.mailbox ++ refusal (Queue.pop (queue_of service s)).0.user_pid service ∷ [];
    stats = count_not_served service s.stats;
  }

  unfoldable pub after_tickets : ℕ → ℕ → Shared D → Shared D
  after_tickets service zero s = s
  after_tickets service (suc k) s = after_tickets service k (after_one service s)

  module _ (n : ℕ) (f : Flags) where
    pub up_at-Runs :
        (place : Shared D → ℕ) (s : Shared D)
        → Has (place s) s
        → Runs
            (peek >>= λ r. require (sem_up (place r)))
            f
            s
            1
            tt
            (with_sem (place s) (value (place s) s + 1) s)
    unfolding sem_up
    up_at-Runs place s h =
        peek-Runs (λ r. require (sem_up (place r))) f s _ 1 tt
          (up-Runs handle_director_signal (λ g. g.shutdown_requested) f s (place s) h)

    pub down_at-Runs :
        (place : Shared D → ℕ) (s : Shared D)
        → Has (place s) s
        → 0 < value (place s) s
        → Runs
            (peek >>= λ r. require (sem_down (place r)))
            f
            s
            1
            tt
            (with_sem (place s) (value (place s) s - 1) s)
    unfolding sem_down
    down_at-Runs place s h p =
        peek-Runs (λ r. require (sem_down (place r))) f s _ 1 tt
          (down-Runs handle_director_signal (λ g. g.shutdown_requested) f s (place s) h p)

    -- A lock is given back after a step that leaves the semaphores alone.
    pub unlock-Runs :
        (place : Shared D → ℕ) (s s' : Shared D)
        → Has (place s) s
        → 0 < value (place s) s
        → s'.sems ≡ set s.sems (place s) (value (place s) s - 1)
        → place s' ≡ place s
        → Runs (peek >>= λ r. require (sem_up (place r))) f s' 1 tt (record s' { sems = s.sems })
    unlock-Runs place s s' h p same fixed =
        subst (λ x. Runs (peek >>= λ r. require (sem_up (place r))) f s' 1 tt x)
          (ap (λ i. with_sem i (value i s' + 1) s') fixed ∙ restored (place s) s s' same h p)
          (up_at-Runs place s' (
            omega (
              arith,
              h,
              fixed,
              ap length same,
              length-set s.sems (place s) (value (place s) s - 1),
            )))

    pub stats_exists : (s : Shared D) → IsReady n s → Has (stats_mutex_sem (seats s)) s
    unfolding stats_mutex_sem total_sems
    stats_exists s r = omega (arith, r.fixed, r.sem_set)

    pub stats_free : (s : Shared D) → IsReady n s → 0 < value (stats_mutex_sem (seats s)) s
    stats_free s r = subst (λ m. 0 < value (stats_mutex_sem m) s) (sym r.fixed) r.stats_free

    mark-Runs :
        (service : ℕ) (s : Shared D)
        → IsReady n s
        → Runs
            (mark_not_served service)
            f
            s
            2
            tt
            (record s { stats = count_not_served service s.stats })
    unfolding mark_not_served lock_stats unlock_stats
    mark-Runs service s r =
        then_steps _ _ f s (with_sem (place s) (value (place s) s - 1) s) _ 1 1 tt
          (down_at-Runs place s (stats_exists s r) (stats_free s r))
          (then_steps
            (commit (λ x. record x { stats = count_not_served service x.stats })
              (counted (refuses service)))
            _ f _ _ _ 0 1 tt
            (commit-Runs _ (counted (refuses service)) f
              (with_sem (place s) (value (place s) s - 1) s))
            (unlock-Runs place s
              (record s {
                stats = count_not_served service s.stats;
                sems = set s.sems (place s) (value (place s) s - 1);
              })
              (stats_exists s r) (stats_free s r) refl refl))
      where
        place : Shared D → ℕ
        place x = stats_mutex_sem (seats x)

    reply-Runs :
        (pid : ℤ) (service : ℕ) (s : Shared D)
        → Runs
            (send_user_reply pid UserReplyStatus.not_served service)
            f
            s
            1
            tt
            (record s { mailbox = s.mailbox ++ refusal pid service ∷ [] })
    unfolding send_user_reply
    reply-Runs pid service s =
        bind-Runs (retry handle_director_signal (λ _. false) (send (refusal pid service))) _ f s _ _
          1 0 (got tt) tt (send-Runs handle_director_signal (λ _. false) f s (refusal pid service))
          (ret-Runs tt f _)

    pop-Runs :
        (service : ℕ) (s : Shared D)
        → Runs
            (pop_ticket service)
            f
            s
            0
            (Queue.pop (queue_of service s)).0
            (record s { queues = set s.queues service (Queue.pop (queue_of service s)).1 })
    unfolding pop_ticket grants
    pop-Runs service s = record { run = λ es t. (popped service ∷ t, refl) }

    abbrev flush_rest : ℕ → ℕ → ℕ → Proc Flags D ℕ
    flush_rest service rounds total = pop_ticket service >>= λ ticket.
        send_user_reply ticket.user_pid UserReplyStatus.not_served service
        >> (mark_not_served service >> flush_queue service rounds (total + 1))

    pub flush_queue-Runs :
        (service rounds k total : ℕ) (s : Shared D)
        → IsReady n s
        → service < length s.queues
        → (queue_of service s).length ≡ k
        → k < rounds
        → Runs
            (flush_queue service rounds total)
            f
            s
            (3 * k)
            (total + k)
            (after_tickets service k s)
    unfolding flush_queue after_tickets
    flush_queue-Runs service zero k total s ready exists size enough =
        absurd (omega (arith, enough))
    flush_queue-Runs service (suc rounds) zero total s ready exists size enough =
        recount _ f s s 0 0 total (total + 0) refl (omega arith) (
          peek-Runs
            (λ x.
              if Queue.queue_length (queue_of service x) == 0
              then ret total
              else flush_rest service rounds total)
            f s s 0 total
            (if_true-Runs (Queue.queue_length (queue_of service s) == 0) (ret total) _ f s s 0 total
              (is_empty (queue_of service s) size) (ret-Runs total f s)))
    flush_queue-Runs service (suc rounds) (suc k) total s ready exists size enough =
        recount _ f s _ (0 + (1 + (2 + 3 * k))) (3 * suc k) (total + 1 + k) (total + suc k)
          (omega arith) (omega arith)
          (peek-Runs
            (λ x.
              if Queue.queue_length (queue_of service x) == 0
              then ret total
              else flush_rest service rounds total)
            f s _ (0 + (1 + (2 + 3 * k))) (total + 1 + k)
            (if_false-Runs (Queue.queue_length (queue_of service s) == 0) (ret total)
              (flush_rest service rounds total) f s _ (0 + (1 + (2 + 3 * k))) (total + 1 + k)
              (is_busy (queue_of service s) k size)
              (bind-Runs (pop_ticket service) _ f s _ _ 0 (1 + (2 + 3 * k))
                (Queue.pop (queue_of service s)).0 (total + 1 + k) (pop-Runs service s)
                (then_steps
                  (send_user_reply (Queue.pop (queue_of service s)).0.user_pid
                    UserReplyStatus.not_served service)
                  _ f _ _ _ 1 (2 + 3 * k) (total + 1 + k) (reply-Runs _ service _)
                  (then_steps (mark_not_served service) _ f _ _ _ 2 (3 * k) (total + 1 + k)
                    (mark-Runs service _ (record {
                      fixed = ready.fixed;
                      sem_set = ready.sem_set;
                      stats_free = ready.stats_free;
                    }))
                    (flush_queue-Runs service rounds k (total + 1) (after_one service s)
                      (record {
                        fixed = ready.fixed;
                        sem_set = ready.sem_set;
                        stats_free = ready.stats_free;
                      })
                      (omega (
                        arith,
                        exists,
                        length-set s.queues service (Queue.pop (queue_of service s)).1,
                      ))
                      (ap (λ q. q.length)
                          (queue_of-set service (Queue.pop (queue_of service s)).1 s exists)
                        ∙ popped_length (queue_of service s) k size)
                      (omega (arith, enough))))))))
