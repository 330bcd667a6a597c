-- ===== src/Director/Report/Tests.antt =====
-- The report on a small simulation after its counters have been assigned.
use operative_system_project.Prelude.{
  refl, ◌≡◌, [], ◌∷◌, sum_of, List, ℕ, ◌<◌, get_or, replicate, arith, suc, zero, false, modify,
}
use operative_system_project.Shared.Tests.{
  whole_minutes, small_office, small_office-IsSound, waiting_office, waiting_office-IsReady,
}
use operative_system_project.Director.Report.{
  DailyReport, print_daily_statistics, counter_line, count_workers_for_service,
}
use operative_system_project.Queue
use operative_system_project.Director.{Flags}
use operative_system_project.Director.Report.Totals.{report_totals, report_counters}
use operative_system_project.Director.Assign.{hits, offer, drawn}
use operative_system_project.Director.Assign.Services.{IsAssigned}
use operative_system_project.Commons.Semaphores.{service_free_counter_sem, service_jobs_sem}
use operative_system_project.Commons.{Counter, service_count}
use operative_system_project.Prelude.Int.{pos}
use operative_system_project.Operator.{no_counter}
use operative_system_project.Process.Quiet.{value}
use operative_system_project.Shared.{queue_of, no_queue, Shared}
use operative_system_project.Queue.{run}
use operative_system_project.Process.Runs.{Runs}

abbrev running_on : Flags
running_on = record { shutdown_requested = false }

report_totals_example :
    (r : DailyReport ℕ) × Runs
      (print_daily_statistics 1 (1 ∷ []))
      running_on
      waiting_office
      2
      r
      waiting_office
    × (sum_of (λ l. l.daily_served) r.services ≡ r.day_services_served)
    × (sum_of (λ l. l.daily_not_served) r.services ≡ r.day_not_served)
    × (sum_of (λ l. l.total_served) r.services ≡ r.total_services_served)
    × (sum_of (λ l. l.total_not_served) r.services ≡ r.total_not_served)
    × (r.day_users_served ≡ r.day_services_served)
    × (r.total_users_served ≡ r.total_services_served)
report_totals_example =
    report_totals 1 running_on waiting_office 1 (1 ∷ []) waiting_office-IsReady
      small_office-IsSound.consistent

abbrev counts : List ℕ
counts = 0 ∷ 0 ∷ 1 ∷ 0 ∷ 0 ∷ 0 ∷ []

-- What holds of each service.
by_service :
    (service : ℕ)
    → service < service_count
    → (get_or counts service 0 ≡ hits (λ i. 2) service 0 1)
      × (value (service_free_counter_sem 1 service) small_office ≡ hits (λ i. 2) service 0 1)
      × (value (service_jobs_sem 1 service) small_office ≡ 0)
      × (queue_of service small_office ≡ Queue.reset no_queue)
unfolding hits service_free_counter_sem service_jobs_sem replicate
by_service zero h = (refl, refl, refl, refl)
by_service (suc zero) h = (refl, refl, refl, refl)
by_service (suc (suc zero)) h = (refl, refl, refl, refl)
by_service (suc (suc (suc zero))) h = (refl, refl, refl, refl)
by_service (suc (suc (suc (suc zero)))) h = (refl, refl, refl, refl)
by_service (suc (suc (suc (suc (suc zero))))) h = (refl, refl, refl, refl)
by_service (suc (suc (suc (suc (suc (suc i)))))) h = absurd (omega (arith, h))

first_counter :
    (i : ℕ)
    → i < 1
    → (c : Counter) × (get_or small_office.counters i no_counter ≡ offer (drawn (λ j. 2) i) c)
first_counter zero h = (get_or small_office.counters 0 no_counter, refl)
first_counter (suc i) h = absurd (omega (arith, h))

office-IsAssigned : IsAssigned 1 (λ i. 2) counts small_office
unfolding sum_of
office-IsAssigned = record {
  offered = first_counter;
  counted = λ service h. (by_service service h).0;
  permits = λ service h. (by_service service h).1;
  all_counted = refl;
  no_jobs = λ service h. (by_service service h).2;
  empty = λ service h. (by_service service h).3;
}

-- Later, an operator has claimed the counter, and a user waits.
abbrev claimed_office : Shared ℕ
claimed_office = record waiting_office {
  counters = modify small_office.counters 0 (λ c. record c { worker_pid = pos 20 });
}

same_services :
    (j : ℕ)
    → (get_or claimed_office.counters j no_counter).service
      ≡ (get_or small_office.counters j no_counter).service
unfolding modify
same_services zero = refl
same_services (suc j) = refl

report_counters_example :
    let l = counter_line claimed_office counts 0 in
    (l.service ≡ 2)
    × (l.service < service_count)
    × (l.seats ≡ hits (λ i. 2) 2 0 1)
    × (0 < l.seats)
    × (l.ratio
        ≡ whole_minutes.divide
            (whole_minutes.of_int (pos (count_workers_for_service claimed_office.workers 2)))
            (whole_minutes.of_int (pos (hits (λ i. 2) 2 0 1))))
report_counters_example =
    report_counters 1 (λ i. 2) counts small_office claimed_office 0 office-IsAssigned same_services
      (omega arith)
