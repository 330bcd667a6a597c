-- ===== src/Director/Days.antt =====
-- The day loop of main in src/director.c and what comes before and after it.
pub mod Safety
use operative_system_project.Prelude.{
  ℕ, ◌+◌, Bool, true, false, List, if◌then◌else◌, not, ◌&&◌, zero, suc,
}
use operative_system_project.Prelude.Int.{ℤ, pos, ltb_ℤ, leb_ℤ, ◌+ℤ◌}
use operative_system_project.Process.{
  stopped, failed, Signal, Proc, require, retry, peek, blocked, ◌>>=◌, commit, ◌>>◌, ret, got,
  wrote, own_flags, receive, exit_failure, counted,
}
use operative_system_project.Director.{
  Flags, handle_director_signal, lock_stats, unlock_stats, reset_workers_day_state,
  assign_daily_counters, send_signal_to_workers, send_signal_to_users, count_pending_users,
  flush_pending_users,
}
use operative_system_project.Commons.{
  DirectorMessageKind, TerminationCause, SimulationParameter, running, timeout, explode, init,
  director_mtype, day_finished,
}
use operative_system_project.Director.Report.{print_daily_statistics, print_final_statistics}
use operative_system_project.Process.Sleeping.{sleep}
use operative_system_project.Stats.{Floating, reset_day, resets}
use operative_system_project.Shared.{Message, to_director, ticket_request, user_reply}

unfoldable pub is_kind : DirectorMessageKind → Message → Bool
is_kind init (to_director m) = elim m.kind [ init ↦ true | day_finished ↦ false ]
is_kind day_finished (to_director m) = elim m.kind [ init ↦ false | day_finished ↦ true ]
is_kind kind (ticket_request m) = false
is_kind kind (user_reply m) = false

unfoldable pub is_explode : TerminationCause → Bool
is_explode running = false
is_explode timeout = false
is_explode explode = true

-- The end of main: a simulation that has not exploded has reached its time.
unfoldable pub final_cause : TerminationCause → TerminationCause
final_cause running = timeout
final_cause timeout = timeout
final_cause explode = explode

-- What rand returns on a day, and how many rounds the loops over messages and tickets may take.
pub record DayBounds : Type 0 where
  pub draw : ℕ → ℕ
  pub messages : ℕ
  pub tickets : ℕ

module _ {D : Type 0} where
  -- The loop of wait_for_initialization and of wait_for_workers_day_end, for at most the given
  -- number of rounds, until as many messages of the kind as expected have come.
  unfoldable pub await : DirectorMessageKind → ℤ → ℕ → ℕ → Proc Flags D (Unit {0})
  await kind expected zero received w = blocked w
  await kind expected (suc rounds) received w =
      (if leb_ℤ expected (pos received)
          then ret tt
          else (retry handle_director_signal (λ _. false) (receive (pos director_mtype)) >>= elim [
            | got m ↦ await kind expected rounds (if is_kind kind m then received + 1 else received)
            | stopped ↦ exit_failure
            | failed ↦ exit_failure
          ]))
        w

  unfoldable pub wait_for_initialization : ℕ → Proc Flags D (Unit {0})
  wait_for_initialization rounds = peek >>= λ s.
      await DirectorMessageKind.init (s.config.nof_workers +ℤ s.config.nof_users +ℤ pos 1) rounds 0

  unfoldable pub wait_for_workers_day_end : ℕ → Proc Flags D (Unit {0})
  wait_for_workers_day_end rounds =
      peek >>= λ s. await DirectorMessageKind.day_finished s.config.nof_workers rounds 0

  -- sleep_for_day_duration
  unfoldable pub sleep_for_day_duration : Proc Flags D (Unit {0})
  sleep_for_day_duration =
      sleep handle_director_signal (λ f s. f.shutdown_requested)
      >>= elim [ got _ ↦ ret tt | stopped ↦ ret tt | failed ↦ exit_failure ]

  -- A write to the configuration.
  abbrev pub set_config : (SimulationParameter → SimulationParameter) → Proc Flags D (Unit {0})
  set_config g = commit (λ s. record s { config = g s.config }) wrote

  -- The test for the explosion, with the number of users that are left over.
  unfoldable pub note_explosion : ℕ → Proc Flags D (Unit {0})
  note_explosion pending = peek >>= λ s.
      if ltb_ℤ s.config.explode_threshold (pos pending)
      then set_config (λ c. record c { termination_cause = TerminationCause.explode })
      else ret tt

module _ {D : Type 0} ⦃float : Floating D⦄ where
  unfoldable pub reset_day_statistics : Proc Flags D (Unit {0})
  reset_day_statistics = do
    lock_stats
    commit (λ s. record s { stats = reset_day s.stats }) (counted resets)
    unlock_stats

  -- The body of the day loop, up to the test that ends it.
  unfoldable pub run_day : DayBounds → ℕ → Proc Flags D (Unit {0})
  run_day bounds day = do
    set_config (λ c. record c { current_day = day })
    reset_day_statistics
    reset_workers_day_state
    counters_per_service ← assign_daily_counters bounds.draw
    set_config (λ c. record c { day_active = true })
    send_signal_to_workers Signal.sigusr1
    send_signal_to_users Signal.sigusr1
    sleep_for_day_duration
    set_config (λ c. record c { day_active = false })
    send_signal_to_workers Signal.sigusr2
    send_signal_to_users Signal.sigusr2
    wait_for_workers_day_end bounds.messages
    pending ← count_pending_users
    note_explosion pending
    flushed ← flush_pending_users bounds.tickets
    report ← print_daily_statistics day counters_per_service
    ret tt

  -- The day loop from the given day on, for at most the given number of rounds.
  unfoldable pub day_loop : (ℕ → DayBounds) → ℕ → ℕ → Proc Flags D (Unit {0})
  day_loop bounds day zero w = blocked w
  day_loop bounds day (suc rounds) w =
      (peek >>= λ s. own_flags >>= λ f.
      if leb_ℤ (pos day) s.config.sim_duration && not f.shutdown_requested
      then (run_day (bounds day) day
          >> (peek >>= λ s'.
              if is_explode s'.config.termination_cause
              then ret tt
              else day_loop bounds (day + 1) rounds))
      else ret tt)
        w

  -- main, from wait_for_initialization to print_final_statistics.
  unfoldable pub main : (ℕ → DayBounds) → ℕ → ℕ → Proc Flags D (Unit {0})
  main bounds messages rounds =
      wait_for_initialization messages
      >> (day_loop bounds 1 rounds
          >> (set_config (λ c. record c { termination_cause = final_cause c.termination_cause })
              >> (print_final_statistics >>= λ report. ret tt)))
