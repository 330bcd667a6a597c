-- ===== src/Director/Interruption.antt =====
-- A signal that reaches the director of src/director.c while it waits for the mutex of a queue.
use operative_system_project.Prelude.{ℕ, List, ◌∷◌, ◌≡◌, true, refl}
use operative_system_project.Process.Quiet.{world}
use operative_system_project.Process.Interrupted.{after_turns, all_turns, interrupted_call}
use operative_system_project.Director.{
  Flags, handle_director_signal, sem_down, flush_pending_users, flush_services, count_pending_users,
  count_services,
}
use operative_system_project.Process.{
  Signal, Event, Act, World, returned, exited, interrupted, stopped, lower,
}
use operative_system_project.Shared.{Shared}

abbrev pub shutting_down : Flags
shutting_down = record { shutdown_requested = true }

gives_up : (sig : Signal) (f : Flags) → (handle_director_signal sig f).shutdown_requested ≡ true
unfolding handle_director_signal
gives_up sig f = refl

module _ {D : Type 0} (sig : Signal) (f : Flags) (s : Shared D) (gs : List (Shared D → Shared D))
    (es : List (Event D)) (t : List (Act D)) where
  abbrev cut_off : World Flags D
  cut_off = world f s (after_turns gs (interrupted sig ∷ es)) t

  down_interrupted :
      (k : ℕ) → sem_down k cut_off ≡ returned stopped (world shutting_down (all_turns gs s) es t)
  unfolding sem_down handle_director_signal
  down_interrupted k =
      interrupted_call handle_director_signal (λ g. g.shutdown_requested) sig f (gives_up sig f)
        (lower k) s gs es t

  -- If a signal interrupts the wait of the director for the first queue, be it to count or to flush
  -- the waiting users, he exits, whatever the others have done before: he has told no user and
  -- counted nothing.
  pub pending_users_interrupted :
      (rounds : ℕ)
      → (count_pending_users cut_off ≡ exited (world shutting_down (all_turns gs s) es t))
        × (flush_pending_users rounds cut_off ≡ exited (world shutting_down (all_turns gs s) es t))
  unfolding count_pending_users count_services flush_pending_users flush_services
  pending_users_interrupted rounds = (rw (down_interrupted _), rw (down_interrupted _))
