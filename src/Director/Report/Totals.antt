-- ===== src/Director/Report/Totals.antt =====
-- The totals in the daily report of src/director.c, and the lines of its counters.
use native.Mathlib.Decide.{ℕ_discrete}
use operative_system_project.Prelude.{
  ℕ, zero, suc, ◌+◌, ◌<◌, ◌≤◌, ◌≡◌, refl, sym, ap, ap₂, ◌∙◌, List, [], ◌∷◌, length, get_or, sum_of,
  tabulate, arith, ◌==◌, true, lt→ltb, ==_iff, ◌-◌,
}
use operative_system_project.Prelude.Int.{pos, pos_part}
use operative_system_project.Commons.{service_count}
use operative_system_project.Shared.{Shared}
use operative_system_project.Stats.{Floating, zero_service}
use operative_system_project.Stats.Consistency.{IsConsistent}
use operative_system_project.Director.Assign.{drawn, hits}
use operative_system_project.Director.Assign.Services.{IsAssigned}
use operative_system_project.Director.{Flags, lock_stats, unlock_stats, seats}
use operative_system_project.Director.Flush.{down_at-Runs, unlock-Runs, stats_exists, stats_free}
use operative_system_project.Director.Report.{
  DailyReport, average, count_workers_for_service, counter_line, daily_report, service_line,
  print_daily_statistics,
}
use operative_system_project.Operator.{no_counter}
use operative_system_project.Process.Quiet.{IsReady, with_sem, value}
use operative_system_project.Process.Runs.{Runs, peek-Runs, then_steps, ret-Runs}
use operative_system_project.Commons.Semaphores.{stats_mutex_sem}
use operative_system_project.Process.{◌>>◌, peek, ◌>>=◌, ret}

module _ {A B : Type 0} where
  -- The sum over a list is the sum over the line of each entry.
  sum_of-tabulate :
      (d : A) (w : A → ℕ) (v : B → ℕ) (f : ℕ → B) (xs : List A)
      → ((i : ℕ) → v (f i) ≡ w (get_or xs i d))
      → sum_of v (tabulate (length xs) f) ≡ sum_of w xs
  unfolding sum_of tabulate
  sum_of-tabulate d w v f [] h = refl
  sum_of-tabulate d w v f (x ∷ xs) h =
      ap₂ ◌+◌ (h 0) (sum_of-tabulate d w v (λ i. f (suc i)) xs (λ i. h (suc i)))

hit_once :
    (draw : ℕ → ℕ) (service i left j : ℕ)
    → i ≤ j
    → j < i + left
    → drawn draw j ≡ service
    → 0 < hits draw service i left
unfolding hits
hit_once draw service i zero j low high e = absurd (omega (arith, low, high))
hit_once draw service i (suc left) j low high e = elim (ℕ_discrete i j) [
  | yes here ↦
      let same : (drawn draw i == service) ≡ true =
        (==_iff (drawn draw i) service).1 (ap (drawn draw) here ∙ e) in
      rw same (omega arith)
  | no ne ↦
      omega (
        arith,
        hit_once draw service (i + 1) left j (omega (arith, low, ne)) (omega (arith, high)) e,
      )
]

module _ {D : Type 0} ⦃float : Floating D⦄ where
  print_daily-Runs :
      (n : ℕ) (f : Flags) (s : Shared D) (day : ℕ) (counts : List ℕ)
      → IsReady n s
      → Runs (print_daily_statistics day counts) f s 2 (daily_report s.workers s day counts) s
  unfolding print_daily_statistics daily_report counter_line lock_stats unlock_stats
  print_daily-Runs n f s day counts r =
      let k = stats_mutex_sem (seats s) in
      let locked : Shared D = with_sem k (value k s - 1) s in
      peek-Runs
        (λ b.
          lock_stats >> (peek >>= λ x. unlock_stats >> ret (daily_report b.workers x day counts)))
        f s s 2 (daily_report s.workers s day counts)
        (then_steps lock_stats _ f s locked s 1 1 (daily_report s.workers s day counts)
          (down_at-Runs n f (λ x. stats_mutex_sem (seats x)) s (stats_exists n f s r)
            (stats_free n f s r))
          (peek-Runs (λ x. unlock_stats >> ret (daily_report s.workers x day counts)) f locked s 1
            (daily_report s.workers s day counts)
            (then_steps unlock_stats (ret (daily_report s.workers s day counts)) f locked s s 1 0
              (daily_report s.workers s day counts)
              (unlock-Runs n f (λ x. stats_mutex_sem (seats x)) s locked (stats_exists n f s r)
                (stats_free n f s r) refl refl)
              (ret-Runs (daily_report s.workers s day counts) f s))))

  -- If the mutex of the statistics is free and its two calls complete at once with nobody else at
  -- work, print_daily_statistics returns and leaves the shared state as it is. If the statistics are
  -- consistent, then in what it prints the services served and not served, of the day and
  -- of the simulation, are the sums of those in the lines of the six services, and as many users have
  -- been served as services.
  pub report_totals :
      (n : ℕ) (f : Flags) (s : Shared D) (day : ℕ) (counts : List ℕ)
      → IsReady n s
      → IsConsistent s.stats
      → (r : DailyReport D) × Runs (print_daily_statistics day counts) f s 2 r s
        × (sum_of (λ l. l.daily_served) r.services ≡ r.day_services_served)
        × (sum_of (λ l. l.daily_not_served) r.services ≡ r.day_not_served)
        × (sum_of (λ l. l.total_served) r.services ≡ r.total_services_served)
        × (sum_of (λ l. l.total_not_served) r.services ≡ r.total_not_served)
        × (r.day_users_served ≡ r.day_services_served)
        × (r.total_users_served ≡ r.total_services_served)
  unfolding daily_report service_line
  report_totals n f s day counts ready c =
      let line = λ (i : ℕ).
        service_line (get_or s.stats.day_by_service i zero_service)
          (get_or s.stats.total_by_service i zero_service) day in
      let six : service_count ≡ length s.stats.day_by_service = sym c.tally.day_length in
      let six' : service_count ≡ length s.stats.total_by_service = sym c.tally.total_length in
      (
        daily_report s.workers s day counts,
        print_daily-Runs n f s day counts ready,
        ap (λ n. sum_of (λ l. l.daily_served) (tabulate n line)) six
            ∙ sum_of-tabulate zero_service (λ x. x.served) (λ l. l.daily_served) line
                s.stats.day_by_service (λ i. refl)
            ∙ sym c.tally.day_served,
        ap (λ n. sum_of (λ l. l.daily_not_served) (tabulate n line)) six
            ∙ sum_of-tabulate zero_service (λ x. x.not_served) (λ l. l.daily_not_served) line
                s.stats.day_by_service (λ i. refl)
            ∙ sym c.tally.day_not_served,
        ap (λ n. sum_of (λ l. l.total_served) (tabulate n line)) six'
            ∙ sum_of-tabulate zero_service (λ x. x.served) (λ l. l.total_served) line
                s.stats.total_by_service (λ i. refl)
            ∙ sym c.tally.total_served,
        ap (λ n. sum_of (λ l. l.total_not_served) (tabulate n line)) six'
            ∙ sum_of-tabulate zero_service (λ x. x.not_served) (λ l. l.total_not_served) line
                s.stats.total_by_service (λ i. refl)
            ∙ sym c.tally.total_not_served,
        c.day_users,
        c.total_users,
      )

  -- Let s be the state after assign_daily_counters, and s' a later one in which no counter has been
  -- given another service, whatever has happened to its operator, the queues, the semaphores, the
  -- statistics and the mailbox. Then the line of every counter in the report of s' names the service
  -- drawn for the counter, one of the six, and counts the counters of that service, of which there is
  -- one at least; so the ratio is the quotient, and never the 0.0 that stands for no counter.
  pub report_counters :
      (n : ℕ) (draw : ℕ → ℕ) (counts : List ℕ) (s s' : Shared D) (i : ℕ)
      → IsAssigned n draw counts s
      → ((j : ℕ)
          → (get_or s'.counters j no_counter).service ≡ (get_or s.counters j no_counter).service)
      → i < n
      → let l = counter_line s' counts i in
        (l.service ≡ drawn draw i)
        × (l.service < service_count)
        × (l.seats ≡ hits draw (drawn draw i) 0 n)
        × (0 < l.seats)
        × (l.ratio
            ≡ float.divide
                (float.of_int (pos (count_workers_for_service s'.workers (drawn draw i))))
                (float.of_int (pos (hits draw (drawn draw i) 0 n))))
  unfolding counter_line average
  report_counters n draw counts s s' i a same h =
      let (c, e) = a.offered i h in
      let known : drawn draw i < service_count = omega arith in
      let here : pos_part (get_or s'.counters i no_counter).service ≡ drawn draw i =
        ap pos_part (same i) ∙ ap (λ x. pos_part x.service) e in
      let some_seat = hit_once draw (drawn draw i) 0 n i (omega arith) (omega (arith, h)) refl in
      rw here (
        rw (a.counted (drawn draw i) known) (
          refl,
          known,
          refl,
          some_seat,
          rw (lt→ltb 0 (hits draw (drawn draw i) 0 n) some_seat) refl,
        ))
