-- ===== src/Director/Tests.antt =====
-- A director of a small simulation of two days.
use operative_system_project.Prelude.{
  ℕ, List, [], ◌∷◌, false, refl, ◌+◌, ◌*◌, length, ◌≡◌, ◌<◌, arith, suc, zero,
}
use operative_system_project.Shared.Tests.{
  whole_minutes, small_office, small_office-IsSound, waiting_office, waiting_office-IsReady,
  waiting_office-IsValid,
}
use operative_system_project.Shared.Soundness
use operative_system_project.Process.{Signal, Event, grant, interrupted, turn, exited}
use operative_system_project.Director.{
  Flags, count_pending_users, flush_pending_users, assign_daily_counters,
}
use operative_system_project.Director.Days.{DayBounds, main}
use operative_system_project.Director.Start.{StartDraw, initialize_shared_state, initialize-IsSound}
use operative_system_project.Process.Post.{Keeps, Post}
use operative_system_project.Commons.Semaphores.{
  total_sems, service_queue_mutex_sem, counter_mutex_sem,
}
use operative_system_project.Shared.Soundness.{IsSound}
use operative_system_project.Process.Quiet.{world, value}
use operative_system_project.Process.Guarded.{IsGuarded}
use operative_system_project.Director.Days.Safety.{director-IsSound}
use operative_system_project.Shared.{Shared}
use operative_system_project.Process.Runs.{Runs}
use operative_system_project.Director.Flush.Services.{flush_pending_users_drains}
use operative_system_project.Director.Flush.Pending.{IsCalm, pending, IsFlushed}
use operative_system_project.Commons.{service_count}
use operative_system_project.Director.Assign.Services.{IsAssigned, assign_daily_counters-Runs}
use operative_system_project.Process.Interrupted.{after_turns}
use operative_system_project.Director.Flush.Counting.{count_pending_users-Runs}
use operative_system_project.Director.Interruption.{shutting_down, pending_users_interrupted}

abbrev running_on : Flags
running_on = record { shutdown_requested = false }

abbrev draws : StartDraw
draws = record { service = λ i. i + 4; probability = λ i. 7 * i }

abbrev bounds : ℕ → DayBounds
bounds day = record { draw = λ i. i + day; messages = 5; tickets = 9 }

abbrev busy : List (Event ℕ)
busy =
    grant ∷ interrupted Signal.sigint ∷ turn (λ s. record s { mailbox = [] }) ∷ grant ∷ grant ∷ []

busy-Keeps : Keeps (IsSound 1) busy
busy-Keeps = ((λ s v. Soundness.by_mailbox v []), tt)

director-IsSound_example :
    Post
      (λ _ w'. IsSound 1 w'.shared × IsGuarded 1 w'.trace)
      (λ w'. IsSound 1 w'.shared × IsGuarded 1 w'.trace)
      (main bounds 3 2 (world running_on small_office busy []))
director-IsSound_example =
    director-IsSound 1 bounds 3 2 (world running_on small_office busy []) small_office-IsSound
      busy-Keeps tt

set_size : length small_office.sems ≡ total_sems 1
unfolding total_sems
set_size = refl

initialize-IsSound_example :
    Post
      (λ _ w'. IsSound 1 w'.shared)
      (λ w'. IsSound 1 w'.shared)
      (initialize_shared_state draws (world running_on small_office busy []))
initialize-IsSound_example =
    initialize-IsSound 1 draws (world running_on small_office busy []) refl set_size busy-Keeps

office-IsCalm : IsCalm 1 waiting_office
unfolding service_queue_mutex_sem
office-IsCalm = record {
  ready = waiting_office-IsReady;
  mutexes_free = mutexes;
  six_queues = refl;
  valid_queues = waiting_office-IsValid;
}
  where
    mutexes : (i : ℕ) → i < service_count → 0 < value (service_queue_mutex_sem 1 i) waiting_office
    mutexes zero h = omega arith
    mutexes (suc zero) h = omega arith
    mutexes (suc (suc zero)) h = omega arith
    mutexes (suc (suc (suc zero))) h = omega arith
    mutexes (suc (suc (suc (suc zero)))) h = omega arith
    mutexes (suc (suc (suc (suc (suc zero))))) h = omega arith
    mutexes (suc (suc (suc (suc (suc (suc i)))))) h = absurd (omega (arith, h))

flush_pending_users_drains_example :
    (s' : Shared ℕ) × Runs
      (flush_pending_users 4097)
      running_on
      waiting_office
      (12 + 3 * pending 0 service_count waiting_office)
      (pending 0 service_count waiting_office)
      s'
    × IsFlushed 1 0 service_count waiting_office s'
flush_pending_users_drains_example =
    flush_pending_users_drains 1 4097 running_on waiting_office office-IsCalm (omega arith)

count_pending_users-Runs_example :
    Runs count_pending_users running_on waiting_office 12
      (pending 0 service_count waiting_office)
      waiting_office
count_pending_users-Runs_example =
    count_pending_users-Runs 1 running_on waiting_office office-IsCalm

counters_free : (i : ℕ) → i < 1 → 0 < value (counter_mutex_sem i) waiting_office
unfolding counter_mutex_sem
counters_free zero h = omega arith
counters_free (suc i) h = absurd (omega (arith, h))

assign_daily_counters-Runs_example :
    (counts : List ℕ) × (s' : Shared ℕ) × Runs
      (assign_daily_counters (λ i. i + 4))
      running_on
      waiting_office
      (2 * 1)
      counts
      s'
    × IsAssigned 1 (λ i. i + 4) counts s'
assign_daily_counters-Runs_example =
    assign_daily_counters-Runs 1 running_on (λ i. i + 4) waiting_office refl
      waiting_office-IsReady.sem_set refl refl counters_free

pending_users_interrupted_example :
    (count_pending_users
        (world running_on waiting_office (after_turns [] (interrupted Signal.sigint ∷ [])) [])
      ≡ exited (world shutting_down waiting_office [] []))
    × (flush_pending_users 4097
          (world running_on waiting_office (after_turns [] (interrupted Signal.sigint ∷ [])) [])
        ≡ exited (world shutting_down waiting_office [] []))
pending_users_interrupted_example =
    pending_users_interrupted Signal.sigint running_on waiting_office [] [] [] 4097
