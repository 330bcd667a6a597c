-- ===== src/User.antt =====
-- src/user.c: a user, who on some days sends one request to the ticket dispenser and waits for the
-- reply. `Identity` holds the static variable user_index and the process id. What rand returns is
-- an argument.
pub mod Request
pub mod Closing
mod Tests
use operative_system_project.Prelude.{
  ℕ, ◌%◌, ◌+◌, Bool, true, false, ◌||◌, not, if◌then◌else◌, get_or, suc, zero,
}
use operative_system_project.Prelude.Int.{ℤ, pos, leb_ℤ, ◌+ℤ◌}
use operative_system_project.Process.{
  stopped, failed, Signal, Proc, require, Answer, retry, peek, returned, blocked, ◌>>◌, send, ◌>>=◌,
  ret, own_flags, got, receive, observe, exit_failure,
}
use operative_system_project.Shared.{Shared, to_director, ticket_request}
use operative_system_project.Commons.{
  UserInfo, TicketMessage, user_reply_base, DirectorMessageKind, ticket_request_mtype,
  director_mtype, service_count,
}
use operative_system_project.Process.Waiting.{suspend_until}
use operative_system_project.Process.Sleeping.{sleep}

-- The static variables that the signal handler sets.
pub record Flags : Type 0 where
  pub day_started : Bool
  pub day_closed : Bool
  pub terminate_requested : Bool

pub record Identity : Type 0 where
  pub user_index : ℕ
  pub pid : ℤ

-- What the first two calls of rand in run_day return. The third gives the minute of arrival.
pub record Draw : Type 0 where
  pub go : ℕ
  pub service : ℕ

-- handle_user_signal; SIGINT has no handler here.
unfoldable pub handle_user_signal : Signal → Flags → Flags
handle_user_signal Signal.sigusr1 f = record f { day_started = true; day_closed = false }
handle_user_signal Signal.sigusr2 f = record f { day_closed = true }
handle_user_signal Signal.sigterm f = record {
  day_started = true;
  day_closed = true;
  terminate_requested = true;
}
handle_user_signal Signal.sigint f = f

-- The test in sleep_until_arrival and in run_day.
unfoldable pub too_late : {D : Type 0} → Flags → Shared D → Bool
too_late f s = f.terminate_requested || (f.day_closed || not s.config.day_active)

-- The condition that ends the loop of wait_for_next_day.
unfoldable pub may_start : Flags → Bool
may_start f = f.day_started || f.terminate_requested

-- What stands beyond the end of users is never used.
abbrev pub no_user : UserInfo
no_user = record { pid = pos 0; go_probability = pos 0 }

-- The message that request_service sends.
unfoldable pub request_of : Identity → ℕ → TicketMessage
request_of me service = record {
  mtype = ticket_request_mtype;
  user_index = pos me.user_index;
  user_pid = me.pid;
  service = pos service;
}

-- The type of the replies to this user.
unfoldable pub reply_mtype : Identity → ℤ
reply_mtype me = pos user_reply_base +ℤ me.pid

module _ {D : Type 0} where
  unfoldable pub send_director_message : Identity → DirectorMessageKind → Proc Flags D (Unit {0})
  send_director_message me kind = require (
      retry handle_user_signal (λ _. false)
        (send (
          to_director (record {
            mtype = director_mtype;
            kind = kind;
            index = pos me.user_index;
            pid = me.pid;
          }))))

  unfoldable pub wait_for_next_day : Proc Flags D (Unit {0})
  wait_for_next_day = suspend_until handle_user_signal may_start

  -- sleep_until_arrival: `stopped` is the result 1. The script says how long the sleep takes, so the
  -- minute of arrival is left out.
  unfoldable pub sleep_until_arrival : Proc Flags D (Answer (Unit {0}))
  sleep_until_arrival = sleep handle_user_signal too_late

  -- request_service
  unfoldable pub request_service : Identity → ℕ → Proc Flags D (Unit {0})
  request_service me service =
      retry handle_user_signal (λ f. f.terminate_requested)
        (send (ticket_request (request_of me service)))
      >>= elim [
        | got _ ↦
            retry handle_user_signal (λ f. f.terminate_requested) (receive (reply_mtype me))
            >>= elim [ got _ ↦ ret tt | stopped ↦ ret tt | failed ↦ exit_failure ]
        | stopped ↦ ret tt
        | failed ↦ exit_failure
      ]

  -- run_day
  unfoldable pub run_day : Identity → Draw → Proc Flags D (Unit {0})
  run_day me draw = peek >>= λ s.
      if leb_ℤ (get_or s.users me.user_index no_user).go_probability (pos (draw.go % 100))
      then ret tt
      else (sleep_until_arrival >>= elim [
        | got _ ↦ observe handle_user_signal >>= λ s'. own_flags >>= λ f.
            if too_late f s' then ret tt else request_service me (draw.service % service_count)
        | stopped ↦ ret tt
        | failed ↦ exit_failure
      ])

  -- A write to the process's own flags.
  abbrev pub set_flags : (Flags → Flags) → Proc Flags D (Unit {0})
  set_flags g w = returned tt (record w { flags = g w.flags })

  -- The loop of main, for the given number of days.
  unfoldable pub day_loop : Identity → (ℕ → Draw) → ℕ → Proc Flags D (Unit {0})
  day_loop me draws zero w = blocked w
  day_loop me draws (suc days) w =
      (own_flags >>= λ f.
      if f.terminate_requested
      then ret tt
      else (wait_for_next_day
          >> (own_flags >>= λ f'.
              if f'.terminate_requested
              then ret tt
              else (set_flags (λ g. record g { day_started = false; day_closed = false })
                  >> (run_day me (draws days) >> day_loop me draws days)))))
        w

  -- main, from its message to the director on.
  unfoldable pub main : Identity → (ℕ → Draw) → ℕ → Proc Flags D (Unit {0})
  main me draws days = send_director_message me DirectorMessageKind.init >> day_loop me draws days
