-- ===== src/Commons/Tests.antt =====
-- The semaphores of a simulation with three counters, and a sleep of a whole day.
use operative_system_project.Prelude.{◌≡◌, arith, ◌↔◌, ◌<◌, ◌^◌, ◌*◌, ◌+◌, ℕ, ◌≢◌}
use operative_system_project.Commons.Semaphores.{
  place_distinct, place_collides, jobs, queue_mutex, place, total_sems, sem_num, counter_mutex,
  stats_mutex,
}
use operative_system_project.Commons.Time.{minutes_to_ns, to_timespec, sleep_request}

place_distinct_example :
    (total_sems 3 < 2 ^ 31)
    × (sem_num (place 3 (jobs 2)) < total_sems 3)
    × (sem_num (place 3 (queue_mutex 5)) < total_sems 3)
    × ((sem_num (place 3 (jobs 2)) ≡ sem_num (place 3 (queue_mutex 5))) ↔ (jobs 2 ≡ queue_mutex 5))
place_distinct_example =
    place_distinct 3 (jobs 2) (queue_mutex 5) (omega arith) (omega arith) (omega arith)

place_collides_example :
    (i : ℕ) × (i < 65518)
    × (place 65518 (counter_mutex i) ≢ place 65518 stats_mutex)
    × (sem_num (place 65518 (counter_mutex i)) ≡ sem_num (place 65518 stats_mutex))
place_collides_example = place_collides 65518 (omega arith) (omega arith)

sleep_request_example :
    let d = minutes_to_ns 480 2000000000 in
    (d ≡ 480 * 2000000000)
    × (d < 2 ^ 63)
    × ((to_timespec d).tv_nsec < 1000000000)
    × ((to_timespec d).tv_sec * 1000000000 + (to_timespec d).tv_nsec ≡ 480 * 2000000000)
sleep_request_example = sleep_request 480 2000000000 (omega arith) (omega arith)
