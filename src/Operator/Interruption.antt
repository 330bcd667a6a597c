-- ===== src/Operator/Interruption.antt =====
-- The end of the day while an operator who has just served a user waits for the mutex of the
-- statistics, in serve_ticket of src/operator.c.
use operative_system_project.Prelude.{List, ◌∷◌, ◌≡◌, true, ℕ, arith}
use operative_system_project.Process.Quiet.{world}
use operative_system_project.Process.Interrupted.{after_turns, all_turns, interrupted_call}
use operative_system_project.Shared.{Shared}
use operative_system_project.Operator.{
  Flags, handle_operator_signal, must_stop, lock_stats, sem_down, sleep_service_duration,
}
use operative_system_project.Process.{
  retry_over, Event, retry, Act, interrupted, Signal, exited, lower, grant, slept,
}
use operative_system_project.Operator.Day.{serve_ticket, Draw}
use operative_system_project.Operator.{
  handle_operator_signal, sleep_service_duration, must_stop, seats,
}
use operative_system_project.Stats.{Floating}
use operative_system_project.Queue.{QueueTicket}
use operative_system_project.Commons.Semaphores.{stats_mutex_sem}

abbrev pub stop_day : Flags → Flags
stop_day f = record f { day_stop_requested = true }

stops : (f : Flags) → must_stop (handle_operator_signal Signal.sigusr2 f) ≡ true
unfolding must_stop handle_operator_signal
stops f = ground arith

module _ {D : Type 0} where
  lock_exits :
      (f : Flags) (s : Shared D) (gs : List (Shared D → Shared D)) (es : List (Event D))
      (t : List (Act D))
      → lock_stats (world f s (after_turns gs (interrupted Signal.sigusr2 ∷ es)) t)
        ≡ exited (world (stop_day f) (all_turns gs s) es t)
  unfolding lock_stats sem_down handle_operator_signal must_stop
  lock_exits f s gs es t = rw (
      interrupted_call handle_operator_signal must_stop Signal.sigusr2 f (stops f)
        (lower (stats_mutex_sem (seats s))) s gs es t)

  -- If SIGUSR2 interrupts the wait of an operator for the mutex of the statistics after he has
  -- served a ticket, whatever the others have done before, he exits: nothing but the service itself
  -- is in the log, so neither is the service counted nor does the user get a reply.
  pub serve_ticket_interrupted :
      ⦃float : Floating D⦄ (service : ℕ) (ticket : QueueTicket) (draw : Draw) (f : Flags)
      (s : Shared D) (gs : List (Shared D → Shared D)) (es : List (Event D)) (t : List (Act D))
      → serve_ticket service ticket draw
          (world f s (grant ∷ after_turns gs (interrupted Signal.sigusr2 ∷ es)) t)
        ≡ exited (world (stop_day f) (all_turns gs s) es (slept ∷ t))
  unfolding serve_ticket sleep_service_duration retry retry_over
  serve_ticket_interrupted service ticket draw f s gs es t = rw (lock_exits f s gs es (slept ∷ t))
