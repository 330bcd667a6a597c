-- ===== src/User/Closing.antt =====
-- A day of src/user.c that closes before the user has come.
use operative_system_project.Prelude.{List, [], ◌∷◌, ◌≡◌, true, false, get_or, ◌%◌, refl, arith}
use operative_system_project.Prelude.Int.{pos, leb_ℤ}
use operative_system_project.Process.Quiet.{world}
use operative_system_project.Process.Interrupted.{after_turns, all_turns}
use operative_system_project.Process.Sleeping.{sleep, sleep_over}
use operative_system_project.Process.{
  Signal, Event, Act, returned, interrupted, handled, grant, got, stopped, slept, observe,
  observe_over,
}
use operative_system_project.Shared.{Shared}
use operative_system_project.User.{
  Flags, Identity, Draw, handle_user_signal, too_late, no_user, sleep_until_arrival, run_day,
}

-- What SIGUSR2 sets.
abbrev pub closed : Flags → Flags
closed f = record f { day_closed = true }

module _ {D : Type 0} (f : Flags) (t : List (Act D)) where
  is_late : (s : Shared D) → too_late (closed f) s ≡ true
  unfolding too_late
  is_late s = ground arith

  sleep_interrupted :
      (s : Shared D) (gs : List (Shared D → Shared D)) (es : List (Event D))
      → sleep_over handle_user_signal too_late f s t
          (after_turns gs (interrupted Signal.sigusr2 ∷ es))
        ≡ returned stopped (world (closed f) (all_turns gs s) es t)
  unfolding sleep_over handle_user_signal
  sleep_interrupted s [] es = rw (is_late s, sleep_over) refl
  sleep_interrupted s (g ∷ gs) es = sleep_interrupted (g s) gs es

  sleep_ends :
      (s : Shared D) (gs : List (Shared D → Shared D)) (es : List (Event D))
      → sleep_over handle_user_signal too_late f s t (after_turns gs (grant ∷ es))
        ≡ returned (got tt) (world f (all_turns gs s) es (slept ∷ t))
  unfolding sleep_over
  sleep_ends s [] es = refl
  sleep_ends s (g ∷ gs) es = sleep_ends (g s) gs es

  observe_closed :
      (s : Shared D) (gs : List (Shared D → Shared D)) (es : List (Event D))
      → observe_over handle_user_signal f s t (after_turns gs (handled Signal.sigusr2 ∷ grant ∷ es))
        ≡ returned (all_turns gs s) (world (closed f) (all_turns gs s) (grant ∷ es) t)
  unfolding observe_over handle_user_signal
  observe_closed s [] es = refl
  observe_closed s (g ∷ gs) es = observe_closed (g s) gs es

-- If a user who means to come on this day gets the SIGUSR2 of its end while he sleeps until his
-- arrival, or between the sleep and the test behind it, run_day returns, whatever the others have
-- done before, and he has sent no request.
pub run_day-closed :
    {D : Type 0} (me : Identity) (draw : Draw) (f : Flags) (s : Shared D)
    (gs hs : List (Shared D → Shared D)) (es : List (Event D)) (t : List (Act D))
    → leb_ℤ (get_or s.users me.user_index no_user).go_probability (pos (draw.go % 100)) ≡ false
    → (run_day me draw (world f s (after_turns gs (interrupted Signal.sigusr2 ∷ es)) t)
        ≡ returned tt (world (closed f) (all_turns gs s) es t))
      × (run_day me draw (
            world f s
              (after_turns gs (grant ∷ after_turns hs (handled Signal.sigusr2 ∷ grant ∷ es)))
              t)
          ≡ returned tt (world (closed f) (all_turns hs (all_turns gs s)) (grant ∷ es) (slept ∷ t)))
unfolding run_day sleep_until_arrival sleep observe
run_day-closed me draw f s gs hs es t comes = rw comes (
  rw (sleep_interrupted f t s gs es) refl,
  rw
      (
        sleep_ends f t s gs (after_turns hs (handled Signal.sigusr2 ∷ grant ∷ es)),
        observe_closed f (slept ∷ t) (all_turns gs s) hs es,
        is_late f (slept ∷ t) (all_turns hs (all_turns gs s)),
      )
      refl,
)
