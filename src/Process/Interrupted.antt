-- ===== src/Process/Interrupted.antt =====
-- A call that a signal makes the process give up, after any steps of the others.
use operative_system_project.Prelude.{List, [], ◌∷◌, ◌≡◌, true, Bool}
use operative_system_project.Process.Quiet.{world}
use operative_system_project.Shared.{Shared}
use operative_system_project.Process.{
  Signal, Event, retry_over, retry, turn, Attempt, Act, interrupted, returned, stopped,
}

module _ {D : Type 0} where
  -- The other processes take these steps before the script goes on.
  abbrev pub after_turns : List (Shared D → Shared D) → List (Event D) → List (Event D)
  after_turns [] es = es
  after_turns (g ∷ gs) es = turn g ∷ after_turns gs es

  abbrev pub all_turns : List (Shared D → Shared D) → Shared D → Shared D
  all_turns [] s = s
  all_turns (g ∷ gs) s = all_turns gs (g s)

module _ {F D : Type 0} (handle : Signal → F → F) (stop : F → Bool) (sig : Signal) (f : F)
    (gives_up : stop (handle sig f) ≡ true) where
  interrupted_over :
      {A : Type 0} (call : Shared D → Attempt D A) (s : Shared D) (gs : List (Shared D → Shared D))
      (es : List (Event D)) (t : List (Act D))
      → retry_over handle stop call f s t (after_turns gs (interrupted sig ∷ es))
        ≡ returned stopped (world (handle sig f) (all_turns gs s) es t)
  unfolding retry_over
  interrupted_over call s [] es t = rw (retry_over, gives_up)
  interrupted_over call s (g ∷ gs) es t = interrupted_over call (g s) gs es t

  pub interrupted_call :
      {A : Type 0} (call : Shared D → Attempt D A) (s : Shared D) (gs : List (Shared D → Shared D))
      (es : List (Event D)) (t : List (Act D))
      → retry handle stop call (world f s (after_turns gs (interrupted sig ∷ es)) t)
        ≡ returned stopped (world (handle sig f) (all_turns gs s) es t)
  unfolding retry
  interrupted_call call s gs es t = interrupted_over call s gs es t
