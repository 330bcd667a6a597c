-- ===== src/Director/Report.antt =====
-- print_daily_statistics and print_final_statistics of src/director.c: the values that they print, in
-- the order of the lines. The text around them is left out.
pub mod Totals
mod Tests
use operative_system_project.Prelude.{
  ℕ, zero, suc, ◌+◌, Bool, true, false, if◌then◌else◌, List, [], ◌∷◌, get_or, ltb, tabulate, ◌==◌,
  map,
}
use operative_system_project.Prelude.Int.{ℤ, pos, pos_part}
use operative_system_project.Commons.{WorkerInfo, Counter, service_count, TerminationCause}
use operative_system_project.Operator.{no_counter}
use operative_system_project.Stats.{Floating, ServiceStats, SimulationStats, zero_service}
use operative_system_project.Process.{Proc, peek, ret, ◌>>=◌, ◌>>◌}
use operative_system_project.Director.{Flags, lock_stats, unlock_stats}
use operative_system_project.Shared.{Shared, seats}

-- The number of elements that pass a test: the loops that count workers.
unfoldable pub count_if : {A : Type 0} → (A → Bool) → List A → ℕ
count_if p [] = 0
count_if p (x ∷ xs) = if p x then suc (count_if p xs) else count_if p xs

-- count_workers_for_service
unfoldable pub count_workers_for_service : List WorkerInfo → ℕ → ℕ
count_workers_for_service workers service = count_if (λ w. w.service == service) workers

module _ {D : Type 0} ⦃float : Floating D⦄ where
  -- `count > 0 ? sum / count : 0.0`
  unfoldable pub average : D → ℕ → D
  average sum count =
      if ltb 0 count then float.divide sum (float.of_int (pos count)) else float.of_int (pos 0)

  -- `(double) total / day_number`
  unfoldable pub per_day : ℕ → ℕ → D
  per_day total day_number = float.divide (float.of_int (pos total)) (float.of_int (pos day_number))

-- The values of print_service_statistics_line.
pub record ServiceLine (D : Type 0) : Type 0 where
  pub daily_served : ℕ
  pub daily_not_served : ℕ
  pub daily_wait : D
  pub daily_service : D
  pub total_served : ℕ
  pub total_not_served : ℕ
  pub served_per_day : D
  pub not_served_per_day : D
  pub total_wait : D
  pub total_service : D

-- The values of the line of a counter.
pub record CounterLine (D : Type 0) : Type 0 where
  pub counter : ℕ
  pub service : ℕ
  pub available_workers : ℕ
  pub seats : ℕ
  pub ratio : D

-- The values of print_daily_statistics.
pub record DailyReport (D : Type 0) : Type 0 where
  pub day_number : ℕ
  pub day_users_served : ℕ
  pub total_users_served : ℕ
  pub users_per_day : D
  pub day_services_served : ℕ
  pub total_services_served : ℕ
  pub services_per_day : D
  pub day_not_served : ℕ
  pub total_not_served : ℕ
  pub not_served_per_day : D
  pub day_wait_avg : D
  pub total_wait_avg : D
  pub day_service_avg : D
  pub total_service_avg : D
  pub active_today : ℕ
  pub active_total : ℕ
  pub pauses_per_active : D
  pub total_pause_total : ℕ
  pub services : List (ServiceLine D)
  pub counters : List (CounterLine D)

-- The values of print_final_statistics; the cause is the running one for "UNKNOWN".
pub record FinalReport (D : Type 0) : Type 0 where
  pub cause : TerminationCause
  pub days : ℕ
  pub users_served : ℕ
  pub services_served : ℕ
  pub services_not_served : ℕ
  pub wait_avg : D
  pub service_avg : D

module _ {D : Type 0} ⦃float : Floating D⦄ where
  -- print_service_statistics_line
  unfoldable pub service_line : ServiceStats D → ServiceStats D → ℕ → ServiceLine D
  service_line daily total day_number = record {
    daily_served = daily.served;
    daily_not_served = daily.not_served;
    daily_wait = average daily.wait_minutes_sum daily.served;
    daily_service = average daily.service_minutes_sum daily.served;
    total_served = total.served;
    total_not_served = total.not_served;
    served_per_day = per_day total.served day_number;
    not_served_per_day = per_day total.not_served day_number;
    total_wait = average total.wait_minutes_sum total.served;
    total_service = average total.service_minutes_sum total.served;
  }

  -- The body of the last loop of print_daily_statistics. After assign_daily_counters the service of a
  -- counter is not negative.
  unfoldable pub counter_line : Shared D → List ℕ → ℕ → CounterLine D
  counter_line s counters_per_service i =
      let service = pos_part (get_or s.counters i no_counter).service in
      let available_workers = count_workers_for_service s.workers service in
      let seats = get_or counters_per_service service 0 in
      record {
        counter = i;
        service = service;
        available_workers = available_workers;
        seats = seats;
        ratio = average (float.of_int (pos available_workers)) seats;
      }

  -- What print_daily_statistics computes from the workers that it has counted before the lock, and
  -- from the shared state under it.
  unfoldable pub daily_report : List WorkerInfo → Shared D → ℕ → List ℕ → DailyReport D
  daily_report workers s day_number counters_per_service =
      let active_today = count_if (λ w. w.active_today) workers in
      record {
        day_number = day_number;
        day_users_served = s.stats.day_users_served;
        total_users_served = s.stats.total_users_served;
        users_per_day = per_day s.stats.total_users_served day_number;
        day_services_served = s.stats.day_services_served;
        total_services_served = s.stats.total_services_served;
        services_per_day = per_day s.stats.total_services_served day_number;
        day_not_served = s.stats.day_services_not_served;
        total_not_served = s.stats.total_services_not_served;
        not_served_per_day = per_day s.stats.total_services_not_served day_number;
        day_wait_avg = average s.stats.day_wait_minutes_sum s.stats.day_services_served;
        total_wait_avg = average s.stats.total_wait_minutes_sum s.stats.total_services_served;
        day_service_avg = average s.stats.day_service_minutes_sum s.stats.day_services_served;
        total_service_avg = average s.stats.total_service_minutes_sum s.stats.total_services_served;
        active_today = active_today;
        active_total = count_if (λ w. w.active_ever) workers;
        pauses_per_active = average (float.of_int (pos s.stats.day_pause_total)) active_today;
        total_pause_total = s.stats.total_pause_total;
        services = tabulate service_count (λ i.
            service_line (get_or s.stats.day_by_service i zero_service)
              (get_or s.stats.total_by_service i zero_service) day_number);
        counters = tabulate (seats s) (counter_line s counters_per_service);
      }

  -- What print_final_statistics computes; nobody but the director writes the cause.
  unfoldable pub final_report : Shared D → FinalReport D
  final_report s = record {
    cause = s.config.termination_cause;
    days = s.config.current_day;
    users_served = s.stats.total_users_served;
    services_served = s.stats.total_services_served;
    services_not_served = s.stats.total_services_not_served;
    wait_avg = average s.stats.total_wait_minutes_sum s.stats.total_services_served;
    service_avg = average s.stats.total_service_minutes_sum s.stats.total_services_served;
  }

  -- print_daily_statistics: what it prints is its result here.
  unfoldable pub print_daily_statistics : ℕ → List ℕ → Proc Flags D (DailyReport D)
  print_daily_statistics day_number counters_per_service = peek >>= λ before.
      lock_stats
      >> (peek >>= λ s.
          unlock_stats >> ret (daily_report before.workers s day_number counters_per_service))

  -- print_final_statistics, alike
  unfoldable pub print_final_statistics : Proc Flags D (FinalReport D)
  print_final_statistics = lock_stats >> (peek >>= λ s. unlock_stats >> ret (final_report s))
