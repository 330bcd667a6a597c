-- ===== src/Director/Days/Safety.antt =====
-- The director keeps the shared state sound and the discipline of the locks, from day to day.
use operative_system_project.Prelude.{
  refl, ℕ, false, zero, suc, ◌≡◌, if◌then◌else◌, true, ◌&&◌, not, ◌+◌, List, [], inl,
}
use operative_system_project.Prelude.Int.{ℤ, pos, ◌+ℤ◌, leb_ℤ, ltb_ℤ}
use operative_system_project.Shared.Soundness
use operative_system_project.Director.{
  Flags, handle_director_signal, assign_daily_counters, count_pending_users, flush_pending_users,
  lock_stats, unlock_stats,
}
use operative_system_project.Director.Safety.{
  under_stats, workers_keeps, signal_workers_keeps, signal_users_keeps, assign_daily_keeps,
  flush_keeps, count_keeps, read_stats_keeps,
}
use operative_system_project.Director.Report.{
  print_daily_statistics, print_final_statistics, daily_report, final_report,
}
use operative_system_project.Director.Days.{
  DayBounds, is_kind, is_explode, final_cause, await, wait_for_initialization,
  wait_for_workers_day_end, sleep_for_day_duration, set_config, note_explosion,
  reset_day_statistics, run_day, day_loop, main, got,
}
use operative_system_project.Stats.{Floating, reset_day, resets}
use operative_system_project.Shared.{Shared}
use operative_system_project.Process.{
  stopped, failed, Proc, commit, World, own_flags, counted, ◌>>=◌, Signal, ret, ◌>>◌, peek, wrote,
}
use operative_system_project.Commons.{
  SimulationParameter, DirectorMessageKind, TerminationCause, director_mtype,
}
use operative_system_project.Process.Keeping.{
  peek_keeps, bind_keeps, then_keeps, wait_keeps, KeepsAll, if_keeps, commit_keeps, ret_keeps,
  receive_keeps, exit_keeps, own_flags_keeps, keeps_ends,
}
use operative_system_project.Shared.Soundness.{IsSound, IsSound-IsKept}
use operative_system_project.Process.Sleeping.{sleep_keeps}
use operative_system_project.Process.Post.{Keeps, Post}
use operative_system_project.Process.Guarded.{IsGuarded}
use operative_system_project.Stats.Consistency.{reset_day-IsConsistent}

module _ {D : Type 0} ⦃float : Floating D⦄ (n : ℕ) where
  abbrev I : Shared D → Type 0
  I = IsSound n

  abbrev Sound : {A : Type 0} → Proc Flags D A → Type 0
  Sound m = KeepsAll n I m

  config_keeps :
      (g : SimulationParameter → SimulationParameter)
      → ((c : SimulationParameter) → (g c).nof_worker_seats ≡ c.nof_worker_seats)
      → Sound (set_config g)
  config_keeps g same =
      commit_keeps n I _ wrote tt (λ s v. Soundness.by_config v (g s.config) (same s.config))

  await_keeps :
      (kind : DirectorMessageKind) (expected : ℤ) (rounds received : ℕ)
      → Sound (await kind expected rounds received)
  unfolding await
  await_keeps kind expected zero received = wait_keeps n I (Unit {0})
  await_keeps kind expected (suc rounds) received =
      if_keeps n I (leb_ℤ expected (pos received)) _ _ (ret_keeps n I tt) (
        receive_keeps n I handle_director_signal (λ _. false) (IsSound-IsKept n)
          (pos director_mtype) _
          (elim [
            | got m ↦
                await_keeps kind expected rounds (if is_kind kind m then received + 1 else received)
            | stopped ↦ exit_keeps n I (Unit {0})
            | failed ↦ exit_keeps n I (Unit {0})
          ]))

  init_keeps : (rounds : ℕ) → Sound (wait_for_initialization rounds)
  unfolding wait_for_initialization
  init_keeps rounds =
      peek_keeps n I
        (λ s.
          await DirectorMessageKind.init (s.config.nof_workers +ℤ s.config.nof_users +ℤ pos 1)
            rounds 0)
        λ s i.
          await_keeps DirectorMessageKind.init (s.config.nof_workers +ℤ s.config.nof_users +ℤ pos 1)
            rounds 0

  day_end_keeps : (rounds : ℕ) → Sound (wait_for_workers_day_end rounds)
  unfolding wait_for_workers_day_end
  day_end_keeps rounds =
      peek_keeps n I (λ s. await DirectorMessageKind.day_finished s.config.nof_workers rounds 0)
        λ s i. await_keeps DirectorMessageKind.day_finished s.config.nof_workers rounds 0

  sleep_day_keeps : Sound sleep_for_day_duration
  unfolding sleep_for_day_duration
  sleep_day_keeps =
      bind_keeps n I _ _ (sleep_keeps handle_director_signal (λ f s. f.shutdown_requested) n I [])
        (elim [
          | got _ ↦ ret_keeps n I tt
          | stopped ↦ ret_keeps n I tt
          | failed ↦ exit_keeps n I (Unit {0})
        ])

  explosion_keeps : (pending : ℕ) → Sound (note_explosion pending)
  unfolding note_explosion
  explosion_keeps pending =
      peek_keeps n I
        (λ s.
          if ltb_ℤ s.config.explode_threshold (pos pending)
          then set_config (λ c. record c { termination_cause = TerminationCause.explode })
          else ret tt)
        λ s i.
          if_keeps n I (ltb_ℤ s.config.explode_threshold (pos pending)) _ _
            (config_keeps (λ c. record c { termination_cause = TerminationCause.explode })
              (λ c. refl))
            (ret_keeps n I tt)

  reset_keeps : Sound reset_day_statistics
  unfolding reset_day_statistics
  reset_keeps =
      under_stats n (commit (λ s. record s { stats = reset_day s.stats }) (counted resets)) (λ x. x)
        (commit_keeps n I _ (counted resets) (inl refl)
          (λ s v. Soundness.by_stats v _ (reset_day-IsConsistent s.stats v.consistent)))

  daily_keeps : (day : ℕ) (counts : List ℕ) → Sound (print_daily_statistics day counts)
  unfolding print_daily_statistics
  daily_keeps day counts =
      peek_keeps n I
        (λ before.
          lock_stats
          >> (peek >>= λ s. unlock_stats >> ret (daily_report before.workers s day counts)))
        λ before i. read_stats_keeps n (λ s. daily_report before.workers s day counts)

  final_keeps : Sound print_final_statistics
  unfolding print_final_statistics
  final_keeps = read_stats_keeps n final_report

  run_day_keeps : (bounds : DayBounds) (day : ℕ) → Sound (run_day bounds day)
  unfolding run_day
  run_day_keeps bounds day =
      then_keeps n I _ _ (config_keeps (λ c. record c { current_day = day }) (λ c. refl)) (
        then_keeps n I _ _ reset_keeps (
          then_keeps n I _ _ (workers_keeps n) (
            bind_keeps n I (assign_daily_counters bounds.draw) _ (assign_daily_keeps n bounds.draw)
              λ counters_per_service.
                then_keeps n I _ _ (config_keeps (λ c. record c { day_active = true }) (λ c. refl))
                  (then_keeps n I _ _ (signal_workers_keeps n Signal.sigusr1) (
                    then_keeps n I _ _ (signal_users_keeps n Signal.sigusr1) (
                      then_keeps n I _ _ sleep_day_keeps (
                        then_keeps n I _ _
                          (config_keeps (λ c. record c { day_active = false }) (λ c. refl))
                          (then_keeps n I _ _ (signal_workers_keeps n Signal.sigusr2) (
                            then_keeps n I _ _ (signal_users_keeps n Signal.sigusr2) (
                              then_keeps n I _ _ (day_end_keeps bounds.messages) (
                                bind_keeps n I count_pending_users _ (count_keeps n) λ pending.
                                  then_keeps n I _ _ (explosion_keeps pending) (
                                    bind_keeps n I (flush_pending_users bounds.tickets) _
                                      (flush_keeps n bounds.tickets)
                                      λ flushed.
                                        bind_keeps n I
                                          (print_daily_statistics day counters_per_service) _
                                          (daily_keeps day counters_per_service)
                                          λ report. ret_keeps n I tt))))))))))))

  days_keeps : (bounds : ℕ → DayBounds) (day rounds : ℕ) → Sound (day_loop bounds day rounds)
  unfolding day_loop
  days_keeps bounds day zero = wait_keeps n I (Unit {0})
  days_keeps bounds day (suc rounds) =
      peek_keeps n I
        (λ s. own_flags >>= λ f.
          if leb_ℤ (pos day) s.config.sim_duration && not f.shutdown_requested
          then (run_day (bounds day) day
              >> (peek >>= λ s'.
                  if is_explode s'.config.termination_cause
                  then ret tt
                  else day_loop bounds (day + 1) rounds))
          else ret tt)
        λ s i. own_flags_keeps n I _ λ f.
          if_keeps n I (leb_ℤ (pos day) s.config.sim_duration && not f.shutdown_requested) _ _
            (then_keeps n I (run_day (bounds day) day) _ (run_day_keeps (bounds day) day) (
              peek_keeps n I
                (λ s'.
                  if is_explode s'.config.termination_cause
                  then ret tt
                  else day_loop bounds (day + 1) rounds)
                λ s' i'.
                  if_keeps n I (is_explode s'.config.termination_cause) _ _ (ret_keeps n I tt)
                    (days_keeps bounds (day + 1) rounds)))
            (ret_keeps n I tt)

  main_keeps : (bounds : ℕ → DayBounds) (messages rounds : ℕ) → Sound (main bounds messages rounds)
  unfolding main
  main_keeps bounds messages rounds = then_keeps n I _ _ (init_keeps messages) (
      then_keeps n I _ _ (days_keeps bounds 1 rounds) (
        then_keeps n I _ _
          (config_keeps (λ c. record c { termination_cause = final_cause c.termination_cause })
            (λ c. refl))
          (bind_keeps n I print_final_statistics _ final_keeps λ report. ret_keeps n I tt)))

-- Whatever the other processes do that keeps the shared state sound, and whatever signals and
-- failures come, the director keeps it sound from the start of the others to the final report, for
-- any number of days, of messages and of tickets, whether it has returned, exited or still waits;
-- and it keeps the discipline of the locks: it counts in the statistics only while it holds their
-- mutex, and pops from a queue only while it holds the mutex of that queue. The reset of the queues
-- in the morning is not among these acts: it is done without a lock.
pub director-IsSound :
    {D : Type 0} ⦃float : Floating D⦄ (n : ℕ) (bounds : ℕ → DayBounds) (messages rounds : ℕ)
    (w : World Flags D)
    → IsSound n w.shared
    → Keeps (IsSound n) w.script
    → IsGuarded n w.trace
    → Post
        (λ _ w'. IsSound n w'.shared × IsGuarded n w'.trace)
        (λ w'. IsSound n w'.shared × IsGuarded n w'.trace)
        (main bounds messages rounds w)
director-IsSound n bounds messages rounds w i k g =
    keeps_ends n (IsSound n) (main bounds messages rounds) (main_keeps n bounds messages rounds) w i
      k g
