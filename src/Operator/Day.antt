-- ===== src/Operator/Day.antt =====
-- The work of an operator in src/operator.c, day by day: serve_ticket, run_day and main.
pub mod Safety
use operative_system_project.Prelude.{
  ℕ, Bool, true, false, ◌||◌, suc, get_or, if◌then◌else◌, ◌&&◌, none, zero, not, some,
}
use operative_system_project.Prelude.Int.{ℤ, pos, ◌-ℤ◌}
use operative_system_project.Shared.{no_worker}
use operative_system_project.Process.{
  Proc, ◌>>=◌, ◌>>◌, ret, returned, blocked, peek, observe, own_flags, commit, counted,
}
use operative_system_project.Stats.{Floating, count_served, ns_to_minutes, serves}
use operative_system_project.Operator.{
  Flags, Identity, lock_stats, unlock_stats, send_director_message, random_service_duration_minutes,
  handle_operator_signal, sleep_service_duration, claim_counter_for_service, or_return,
  release_counter, wait_for_ticket, send_user_reply, pop_ticket_for_service, should_take_pause,
  update_pause_statistics,
}
use operative_system_project.Queue.{QueueTicket}
use operative_system_project.Process.Waiting.{suspend_until}
use operative_system_project.Commons.{DirectorMessageKind, UserReplyStatus}

-- What the clock and rand return in one round of the loop of run_day.
pub record Draw : Type 0 where
  pub now : ℤ
  pub duration : ℕ
  pub pause : ℕ

-- A write to the process's own flags.
abbrev pub set_flags : {D : Type 0} → (Flags → Flags) → Proc Flags D (Unit {0})
set_flags g w = returned tt (record w { flags = g w.flags })

-- The condition that ends the loop of wait_for_next_day.
unfoldable pub may_start : Flags → Bool
may_start f = f.day_started || f.terminate_requested

module _ {D : Type 0} ⦃float : Floating D⦄ where
  -- serve_ticket
  unfoldable pub serve_ticket : ℕ → QueueTicket → Draw → Proc Flags D (Unit {0})
  serve_ticket service ticket draw = do
    let service_minutes = random_service_duration_minutes service draw.duration
    sleep_service_duration
    lock_stats
    s ← peek
    commit
        (λ s'. record s' {
          stats =
              count_served service
                (ns_to_minutes (draw.now -ℤ ticket.requested_at_ns) s.config.n_nano_seconds)
                (float.of_int (pos service_minutes)) s'.stats;
        })
        (counted (
          serves service
            (ns_to_minutes (draw.now -ℤ ticket.requested_at_ns) s.config.n_nano_seconds)
            (float.of_int (pos service_minutes))))
    unlock_stats
    send_user_reply ticket.user_pid UserReplyStatus.served service

  -- The loop of run_day, for at most the given number of rounds.
  unfoldable pub work_loop : Identity → ℕ → (ℕ → Draw) → ℕ → Proc Flags D (Unit {0})
  work_loop me service draws zero w = blocked w
  work_loop me service draws (suc rounds) w =
      (observe handle_operator_signal >>= λ s. own_flags >>= λ f.
      if f.terminate_requested || (f.day_stop_requested && not s.config.day_active)
      then ret tt
      else or_return tt (wait_for_ticket service) (
          pop_ticket_for_service service >>= elim [
            | none ↦ work_loop me service draws rounds
            | some ticket ↦
                serve_ticket service ticket (draws rounds)
                >> (observe handle_operator_signal >>= λ s'. own_flags >>= λ f'.
                    if f'.terminate_requested || (f'.day_stop_requested || not s'.config.day_active)
                    then ret tt
                    else if should_take_pause me (draws rounds).pause s'
                    then (update_pause_statistics me
                        >> set_flags (λ g. record g { day_stop_requested = true }))
                    else work_loop me service draws rounds)
          ]))
        w

  -- run_day
  unfoldable pub run_day : Identity → (ℕ → Draw) → ℕ → Proc Flags D (Unit {0})
  run_day me draws rounds =
      (peek >>= λ s.
      let service = (get_or s.workers me.worker_index no_worker).service in
      claim_counter_for_service me service rounds >>= elim [
        | none ↦ ret tt
        | some i ↦ work_loop me service draws rounds >> release_counter me i service
      ])
      >> send_director_message me DirectorMessageKind.day_finished

  -- wait_for_next_day
  unfoldable pub wait_for_next_day : Proc Flags D (Unit {0})
  wait_for_next_day = suspend_until handle_operator_signal may_start

  -- The loop of main, for the given number of days.
  unfoldable pub day_loop : Identity → (ℕ → ℕ → Draw) → ℕ → ℕ → Proc Flags D (Unit {0})
  day_loop me draws rounds zero w = blocked w
  day_loop me draws rounds (suc days) w =
      (own_flags >>= λ f.
      if f.terminate_requested
      then ret tt
      else (wait_for_next_day
          >> (own_flags >>= λ f'.
              if f'.terminate_requested
              then ret tt
              else (set_flags (λ g. record g { day_started = false; day_stop_requested = false })
                  >> (run_day me (draws days) rounds >> day_loop me draws rounds days)))))
        w

  -- main, from its message to the director on.
  unfoldable pub main : Identity → (ℕ → ℕ → Draw) → ℕ → ℕ → Proc Flags D (Unit {0})
  main me draws rounds days =
      send_director_message me DirectorMessageKind.init >> day_loop me draws rounds days
