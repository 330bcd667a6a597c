-- ===== src/Process/Sleeping.antt =====
-- A process that sleeps with nanosleep, in a loop that goes on with the rest of the time after a
-- signal unless the process then has to stop.
use operative_system_project.Prelude.{List, Bool, ◌∷◌, [], true, false, Bool-cases, inl, inr, ℕ}
use operative_system_project.Process.{
  Act, Event, Outcome, Proc, Signal, Answer, returned, blocked, grant, turn, interrupted, handled,
  broken, got, stopped, failed, slept,
}
use operative_system_project.Shared.{Shared}
use operative_system_project.Process.Post.{Keeps, Post}
use operative_system_project.Process.Keeping.{Moves, Good, Holds}
use operative_system_project.Process.Guarded.{IsGuarded, AllHeld, may-AllHeld}

module _ {F D : Type 0} (handle : Signal → F → F) (stop : F → Shared D → Bool) where
  -- while (nanosleep == -1) { if (errno != EINTR) fail; if (stop) give up; }
  unfoldable pub sleep_over :
      F → Shared D → List (Act D) → List (Event D) → Outcome F D (Answer (Unit {0}))
  sleep_over f s t [] = blocked (record { flags = f; shared = s; script = []; trace = t })
  sleep_over f s t (grant ∷ es) =
      returned (got tt) (record { flags = f; shared = s; script = es; trace = slept ∷ t })
  sleep_over f s t (turn g ∷ es) = sleep_over f (g s) t es
  sleep_over f s t (handled sig ∷ es) = sleep_over (handle sig f) s t es
  sleep_over f s t (interrupted sig ∷ es) = elim (stop (handle sig f) s) [
    | true ↦ returned stopped (record { flags = handle sig f; shared = s; script = es; trace = t })
    | false ↦ sleep_over (handle sig f) s t es
  ]
  sleep_over f s t (broken ∷ es) =
      returned failed (record { flags = f; shared = s; script = es; trace = t })

  unfoldable pub sleep : Proc F D (Answer (Unit {0}))
  sleep w = sleep_over w.flags w.shared w.trace w.script

  module _ (n : ℕ) (I : Shared D → Type 0) (ks : List ℕ) where
    sleep_over_keeps :
        (f : F) (s : Shared D) (t : List (Act D)) (es : List (Event D))
        → I s
        → Keeps I es
        → IsGuarded n t
        → AllHeld ks t
        → Post (λ _ w'. Good n I ks w') (Holds n I) (sleep_over f s t es)
    unfolding sleep_over
    sleep_over_keeps f s t [] i k g h = (i, g)
    sleep_over_keeps f s t (grant ∷ es) i k g h = record {
      state = i;
      others = k;
      guarded = (tt, g);
      held = may-AllHeld n ks slept t tt h;
    }
    sleep_over_keeps f s t (turn change ∷ es) i k g h =
        sleep_over_keeps f (change s) t es (k.0 s i) k.1 g h
    sleep_over_keeps f s t (handled sig ∷ es) i k g h =
        sleep_over_keeps (handle sig f) s t es i k g h
    sleep_over_keeps f s t (interrupted sig ∷ es) i k g h =
        elim (Bool-cases (stop (handle sig f) s)) [
          | inl e ↦ rw (e, sleep_over) (record { state = i; others = k; guarded = g; held = h })
          | inr e ↦ rw (e, sleep_over) (sleep_over_keeps (handle sig f) s t es i k g h)
        ]
    sleep_over_keeps f s t (broken ∷ es) i k g h = (record {
      state = i;
      others = k;
      guarded = g;
      held = h;
    })

    pub sleep_keeps : Moves n I ks ks sleep
    unfolding sleep
    sleep_keeps = record {
      run = λ w g.
          sleep_over_keeps w.flags w.shared w.trace w.script g.state g.others g.guarded g.held;
    }
