-- ===== src/Process/Waiting.antt =====
-- A process that waits for a signal with sigsuspend, in a loop that a flag ends.
use operative_system_project.Prelude.{List, Bool, true, ◌∷◌, Bool-cases, inl, inr, [], false, ℕ}
use operative_system_project.Shared.{Shared}
use operative_system_project.Process.{
  Act, Event, Outcome, Proc, Signal, returned, blocked, grant, turn, interrupted, handled, broken,
}
use operative_system_project.Process.Post.{Keeps, Post}
use operative_system_project.Process.Keeping.{Moves, Good, Holds}
use operative_system_project.Process.Guarded.{IsGuarded, AllHeld}

module _ {F D : Type 0} (handle : Signal → F → F) (ready : F → Bool) where
  -- while (!ready) sigsuspend: only a signal wakes the process.
  unfoldable pub suspend_over :
      F → Shared D → List (Act D) → List (Event D) → Outcome F D (Unit {0})
  suspend_over f s t [] = elim (ready f) [
    | true ↦ returned tt (record { flags = f; shared = s; script = []; trace = t })
    | false ↦ blocked (record { flags = f; shared = s; script = []; trace = t })
  ]
  suspend_over f s t (e ∷ es) = elim (ready f) [
    | true ↦ returned tt (record { flags = f; shared = s; script = e ∷ es; trace = t })
    | false ↦ elim e [
      | grant ↦ suspend_over f s t es
      | broken ↦ suspend_over f s t es
      | turn g ↦ suspend_over f (g s) t es
      | interrupted sig ↦ suspend_over (handle sig f) s t es
      | handled sig ↦ suspend_over (handle sig f) s t es
    ]
  ]

  unfoldable pub suspend_until : Proc F D (Unit {0})
  suspend_until w = suspend_over w.flags w.shared w.trace w.script

  module _ (n : ℕ) (I : Shared D → Type 0) (ks : List ℕ) where
    suspend_over_keeps :
        (f : F) (s : Shared D) (t : List (Act D)) (es : List (Event D))
        → I s
        → Keeps I es
        → IsGuarded n t
        → AllHeld ks t
        → Post (λ _ w'. Good n I ks w') (Holds n I) (suspend_over f s t es)
    unfolding suspend_over
    suspend_over_keeps f s t [] i k g h = elim (Bool-cases (ready f)) [
      | inl e ↦ rw (e, suspend_over) (record { state = i; others = k; guarded = g; held = h })
      | inr e ↦ rw (e, suspend_over) (i, g)
    ]
    suspend_over_keeps f s t (grant ∷ es) i k g h = elim (Bool-cases (ready f)) [
      | inl e ↦ rw (e, suspend_over) (record { state = i; others = k; guarded = g; held = h })
      | inr e ↦ rw (e, suspend_over) (suspend_over_keeps f s t es i k g h)
    ]
    suspend_over_keeps f s t (broken ∷ es) i k g h = elim (Bool-cases (ready f)) [
      | inl e ↦ rw (e, suspend_over) (record { state = i; others = k; guarded = g; held = h })
      | inr e ↦ rw (e, suspend_over) (suspend_over_keeps f s t es i k g h)
    ]
    suspend_over_keeps f s t (turn change ∷ es) i k g h = elim (Bool-cases (ready f)) [
      | inl e ↦ rw (e, suspend_over) (record { state = i; others = k; guarded = g; held = h })
      | inr e ↦ rw (e, suspend_over) (suspend_over_keeps f (change s) t es (k.0 s i) k.1 g h)
    ]
    suspend_over_keeps f s t (interrupted sig ∷ es) i k g h = elim (Bool-cases (ready f)) [
      | inl e ↦ rw (e, suspend_over) (record { state = i; others = k; guarded = g; held = h })
      | inr e ↦ rw (e, suspend_over) (suspend_over_keeps (handle sig f) s t es i k g h)
    ]
    suspend_over_keeps f s t (handled sig ∷ es) i k g h = elim (Bool-cases (ready f)) [
      | inl e ↦ rw (e, suspend_over) (record { state = i; others = k; guarded = g; held = h })
      | inr e ↦ rw (e, suspend_over) (suspend_over_keeps (handle sig f) s t es i k g h)
    ]

    pub suspend_until_keeps : Moves n I ks ks suspend_until
    unfolding suspend_until
    suspend_until_keeps = record {
      run = λ w g.
          suspend_over_keeps w.flags w.shared w.trace w.script g.state g.others g.guarded g.held;
    }
