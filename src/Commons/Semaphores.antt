-- ===== src/Commons/Semaphores.antt =====
-- The places of the semaphores in the one set of the program (the `_sem` functions of
-- src/headers/commons.h), and the cast of a number to the unsigned short of a sembuf, by which the
-- sem_down and sem_up of src/director.c, src/operator.c and src/erogatore_ticket.c name a semaphore.
use operative_system_project.Prelude.{
  ◌↔◌, ℕ, ◌+◌, ◌-◌, ◌*◌, ◌<◌, ◌≡◌, sym, ap, ◌∙◌, ltb, if◌then◌else◌, arith, ◌≢◌, ◌%◌, ◌≤◌, ◌^◌,
}
use operative_system_project.Commons.{service_count}

unfoldable pub counter_mutex_sem : ℕ → ℕ
counter_mutex_sem counter_id = counter_id

unfoldable pub service_queue_mutex_sem : ℕ → ℕ → ℕ
service_queue_mutex_sem total_counters service = total_counters + service

unfoldable pub service_jobs_sem : ℕ → ℕ → ℕ
service_jobs_sem total_counters service = total_counters + service_count + service

unfoldable pub service_free_counter_sem : ℕ → ℕ → ℕ
service_free_counter_sem total_counters service = total_counters + service_count * 2 + service

unfoldable pub stats_mutex_sem : ℕ → ℕ
stats_mutex_sem total_counters = total_counters + service_count * 3

unfoldable pub total_sems : ℕ → ℕ
total_sems total_counters = total_counters + service_count * 3 + 1

-- What a semaphore of the set is for.
pub data Purpose : Type 0 where
  counter_mutex : ℕ → Purpose
  queue_mutex jobs free_counters : ℕ → Purpose
  stats_mutex : Purpose

-- The purposes that exist with so many counters.
abbrev pub Exists : ℕ → Purpose → Type 0
Exists seats (counter_mutex i) = i < seats
Exists seats (queue_mutex s) = s < service_count
Exists seats (jobs s) = s < service_count
Exists seats (free_counters s) = s < service_count
Exists seats stats_mutex = 0 < service_count

unfoldable pub place : ℕ → Purpose → ℕ
place seats (counter_mutex i) = counter_mutex_sem i
place seats (queue_mutex s) = service_queue_mutex_sem seats s
place seats (jobs s) = service_jobs_sem seats s
place seats (free_counters s) = service_free_counter_sem seats s
place seats stats_mutex = stats_mutex_sem seats

place-lt-total_sems : (seats : ℕ) (p : Purpose) → Exists seats p → place seats p < total_sems seats
unfolding place counter_mutex_sem service_queue_mutex_sem service_jobs_sem service_free_counter_sem
    stats_mutex_sem total_sems
place-lt-total_sems seats (counter_mutex i) h = omega arith
place-lt-total_sems seats (queue_mutex s) h = omega arith
place-lt-total_sems seats (jobs s) h = omega arith
place-lt-total_sems seats (free_counters s) h = omega arith
place-lt-total_sems seats stats_mutex h = omega arith

-- The purpose that a semaphore number stands for: `place` read backwards.
unfoldable pub purpose_at : ℕ → ℕ → Purpose
purpose_at seats n =
    if ltb n seats
    then counter_mutex n
    else if ltb n (seats + 6)
    then queue_mutex (n - seats)
    else if ltb n (seats + 12)
    then jobs (n - seats - 6)
    else if ltb n (seats + 18)
    then free_counters (n - seats - 12)
    else stats_mutex

purpose_at-place : (seats : ℕ) (p : Purpose) → Exists seats p → purpose_at seats (place seats p) ≡ p
unfolding purpose_at place counter_mutex_sem service_queue_mutex_sem service_jobs_sem
    service_free_counter_sem stats_mutex_sem
purpose_at-place seats (counter_mutex i) h = ground arith
purpose_at-place seats (queue_mutex s) h = ground arith
purpose_at-place seats (jobs s) h = ground arith
purpose_at-place seats (free_counters s) h = ground arith
purpose_at-place seats stats_mutex h = ground arith

-- `(unsigned short) sem_num`
unfoldable pub sem_num : ℕ → ℕ
sem_num n = n % 2 ^ 16

small-sem_num : (n : ℕ) → n < 65536 → sem_num n ≡ n
unfolding sem_num
small-sem_num n h = omega (arith, h)

-- With at most 65,517 counters the size of the set is an int, and the numbers that the semaphore
-- operations of two purposes name after the cast lie inside the set, and are the same only for the
-- same purpose.
pub place_distinct :
    (seats : ℕ) (p q : Purpose)
    → seats ≤ 65517
    → Exists seats p
    → Exists seats q
    → (total_sems seats < 2 ^ 31)
      × (sem_num (place seats p) < total_sems seats)
      × (sem_num (place seats q) < total_sems seats)
      × ((sem_num (place seats p) ≡ sem_num (place seats q)) ↔ (p ≡ q))
unfolding total_sems
place_distinct seats p q few hp hq =
    let inp = place-lt-total_sems seats p hp in
    let inq = place-lt-total_sems seats q hq in
    let same_p = small-sem_num (place seats p) (omega (arith, inp, few)) in
    let same_q = small-sem_num (place seats q) (omega (arith, inq, few)) in
    rw (same_p, same_q)
      (
        omega (arith, few),
        inp,
        inq,
        (
          λ e.
              sym (purpose_at-place seats p hp)
              ∙ ap (purpose_at seats) e
              ∙ purpose_at-place seats q hq,
          ap (place seats),
        ),
      )

-- The bound is tight: with more counters, up to 131,053, the mutex of the statistics and the mutex
-- of one of the counters are two semaphores of the set, but the operations on either name the same.
pub place_collides :
    (seats : ℕ)
    → 65517 < seats
    → seats ≤ 131053
    → (i : ℕ) × (i < seats)
      × (place seats (counter_mutex i) ≢ place seats stats_mutex)
      × (sem_num (place seats (counter_mutex i)) ≡ sem_num (place seats stats_mutex))
unfolding place sem_num counter_mutex_sem stats_mutex_sem
place_collides seats many few = (
  seats + 18 - 65536,
  omega (arith, many, few),
  λ e. omega (arith, many, few, e),
  omega (arith, many, few),
)

-- The semaphores of one service and of the statistics lie in the set and are different.
pub record Layout (seats service : ℕ) : Type 0 where
  pub stats_in : stats_mutex_sem seats < total_sems seats
  pub queue_in : service_queue_mutex_sem seats service < total_sems seats
  pub jobs_in : service_jobs_sem seats service < total_sems seats
  pub free_in : service_free_counter_sem seats service < total_sems seats
  pub queue-ne-stats : service_queue_mutex_sem seats service ≢ stats_mutex_sem seats
  pub jobs-ne-stats : service_jobs_sem seats service ≢ stats_mutex_sem seats
  pub jobs-ne-queue : service_jobs_sem seats service ≢ service_queue_mutex_sem seats service

pub layout : (seats service : ℕ) → service < service_count → Layout seats service
unfolding service_queue_mutex_sem service_jobs_sem service_free_counter_sem stats_mutex_sem
    total_sems
layout seats service h = omega arith
