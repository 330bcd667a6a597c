-- ===== src/Process/Post.antt =====
-- Rules for proofs about processes: what holds whenever a process returns (`Q`), and what holds
-- when it exits or still waits (`E`), whatever the script says.
use operative_system_project.Prelude.{
  inl, inr, [], ◌∷◌, refl, subst, ◌≡◌, List, Bool, true, ◌∷◌, [], Bool-cases, ◌⊎◌,
}
use operative_system_project.Shared.{Shared}
use operative_system_project.Process.{
  World, Event, Act, Outcome, Proc, Signal, returned, and_then, retry, exited, turn, retry_over,
  blocked, interrupted, Attempt, handled, Answer, done, got, stopped, failed, waits, observe_over,
  observe, fails, grant, broken,
}

module _ {D : Type 0} where
  -- The other processes keep `I` in all their turns of the script.
  abbrev pub Keeps : (Shared D → Type 0) → List (Event D) → Type 0
  Keeps I [] = Unit
  Keeps I (turn g ∷ es) = ((s : Shared D) → I s → I (g s)) × Keeps I es
  Keeps I (grant ∷ es) = Keeps I es
  Keeps I (interrupted sig ∷ es) = Keeps I es
  Keeps I (handled sig ∷ es) = Keeps I es
  Keeps I (broken ∷ es) = Keeps I es

  Attempt-cases :
      {A : Type 0} (r : Attempt D A)
      → (r ≡ waits) ⊎ (r ≡ fails) ⊎ ((a : A) × (s : Shared D) × (act : Act D) × (r ≡ done a s act))
  Attempt-cases waits = inl refl
  Attempt-cases fails = inr (inl refl)
  Attempt-cases (done a s act) = inr (inr (a, s, act, refl))

module _ {F D : Type 0} where
  abbrev pub Post :
      {A : Type 0} → (A → World F D → Type 0) → (World F D → Type 0) → Outcome F D A → Type 0
  Post Q E (returned a w) = Q a w
  Post Q E (exited w) = E w
  Post Q E (blocked w) = E w

  pub Post-bind :
      {A B : Type 0} (Q : A → World F D → Type 0) (R : B → World F D → Type 0)
      (E : World F D → Type 0) (o : Outcome F D A) (f : A → Proc F D B)
      → Post Q E o
      → ((a : A) (w : World F D) → Q a w → Post R E (f a w))
      → Post R E (and_then o f)
  Post-bind Q R E (returned a w) f h k = k a w h
  Post-bind Q R E (exited w) f h k = h
  Post-bind Q R E (blocked w) f h k = h

  pub Post-mono :
      {A : Type 0} (Q R : A → World F D → Type 0) (E E' : World F D → Type 0) (o : Outcome F D A)
      → Post Q E o
      → ((a : A) (w : World F D) → Q a w → R a w)
      → ((w : World F D) → E w → E' w)
      → Post R E' o
  Post-mono Q R E E' (returned a w) h k l = k a w h
  Post-mono Q R E E' (exited w) h k l = l w h
  Post-mono Q R E E' (blocked w) h k l = l w h

  -- The process has logged `t`, `I` holds of the shared state, and the others will keep it.
  pub record At (I : Shared D → Type 0) (t : List (Act D)) (w : World F D) : Type 0 where
    pub logged : w.trace ≡ t
    pub holds : I w.shared
    pub kept : Keeps I w.script

  module _ (handle : Signal → F → F) (I : Shared D → Type 0) where
    retry_over-Post :
        {A : Type 0} (stop : F → Bool) (call : Shared D → Attempt D A)
        (Q : Answer A → World F D → Type 0) (E : World F D → Type 0) (t : List (Act D))
        → ((f : F) (s s' : Shared D) (a : A) (act : Act D) (es : List (Event D))
            → I s
            → Keeps I es
            → call s ≡ done a s' act
            → Q (got a) (record { flags = f; shared = s'; script = es; trace = act ∷ t }))
        → ((w : World F D) → At I t w → stop w.flags ≡ true → Q stopped w)
        → ((w : World F D) → At I t w → Q failed w)
        → ((w : World F D) → At I t w → E w)
        → (f : F) (s : Shared D) (u : List (Act D)) → u ≡ t
        → (es : List (Event D)) → I s
        → Keeps I es
        → Post Q E (retry_over handle stop call f s u es)
    unfolding retry_over
    retry_over-Post stop call Q E t dn st fl wt f s u e [] i k =
        wt _ (record { logged = e; holds = i; kept = tt })
    retry_over-Post stop call Q E t dn st fl wt f s u e (grant ∷ es) i k =
        elim (Attempt-cases (call s)) [
          | inl w ↦ rw (w, retry_over) (retry_over-Post stop call Q E t dn st fl wt f s u e es i k)
          | inr (inl b) ↦ rw (b, retry_over) (fl _ (record { logged = e; holds = i; kept = k }))
          | inr (inr (a, s', act, d)) ↦ rw (d, e, retry_over) (dn f s s' a act es i k d)
        ]
    retry_over-Post stop call Q E t dn st fl wt f s u e (turn g ∷ es) i k =
        retry_over-Post stop call Q E t dn st fl wt f (g s) u e es (k.0 s i) k.1
    retry_over-Post stop call Q E t dn st fl wt f s u e (handled sig ∷ es) i k =
        retry_over-Post stop call Q E t dn st fl wt (handle sig f) s u e es i k
    retry_over-Post stop call Q E t dn st fl wt f s u e (interrupted sig ∷ es) i k =
        elim (Bool-cases (stop (handle sig f))) [
          | inl y ↦ rw (y, retry_over) (st _ (record { logged = e; holds = i; kept = k }) y)
          | inr n ↦
              rw (n, retry_over)
                (retry_over-Post stop call Q E t dn st fl wt (handle sig f) s u e es i k)
        ]
    retry_over-Post stop call Q E t dn st fl wt f s u e (broken ∷ es) i k =
        fl _ (record { logged = e; holds = i; kept = k })

    pub retry-Post :
        {A : Type 0} (stop : F → Bool) (call : Shared D → Attempt D A)
        (Q : Answer A → World F D → Type 0) (E : World F D → Type 0) (t : List (Act D))
        → ((f : F) (s s' : Shared D) (a : A) (act : Act D) (es : List (Event D))
            → I s
            → Keeps I es
            → call s ≡ done a s' act
            → Q (got a) (record { flags = f; shared = s'; script = es; trace = act ∷ t }))
        → ((w : World F D) → At I t w → stop w.flags ≡ true → Q stopped w)
        → ((w : World F D) → At I t w → Q failed w)
        → ((w : World F D) → At I t w → E w)
        → (w : World F D) → At I t w
        → Post Q E (retry handle stop call w)
    unfolding retry
    retry-Post stop call Q E t on_done on_stop on_fail on_wait w at =
        retry_over-Post stop call Q E t on_done on_stop on_fail on_wait w.flags w.shared w.trace
          at.logged w.script at.holds at.kept

    observe_over-Post :
        (f : F) (s : Shared D) (u : List (Act D)) (es : List (Event D))
        → I s
        → Keeps I es
        → Post (λ a w. (a ≡ w.shared) × At I u w) (At I u) (observe_over handle f s u es)
    unfolding observe_over
    observe_over-Post f s u [] i k = (refl, record { logged = refl; holds = i; kept = k })
    observe_over-Post f s u (turn g ∷ es) i k = observe_over-Post f (g s) u es (k.0 s i) k.1
    observe_over-Post f s u (handled sig ∷ es) i k = observe_over-Post (handle sig f) s u es i k
    observe_over-Post f s u (grant ∷ es) i k = (refl, record { logged = refl; holds = i; kept = k })
    observe_over-Post f s u (interrupted sig ∷ es) i k =
        (refl, record { logged = refl; holds = i; kept = k })
    observe_over-Post f s u (broken ∷ es) i k =
        (refl, record { logged = refl; holds = i; kept = k })

    pub observe-Post :
        (t : List (Act D)) (w : World F D)
        → At I t w
        → Post (λ a w. (a ≡ w.shared) × At I t w) (At I t) (observe handle w)
    unfolding observe
    observe-Post t w at =
        subst (λ u. Post (λ a w. (a ≡ w.shared) × At I u w) (At I u) (observe handle w)) at.logged
          (observe_over-Post w.flags w.shared w.trace w.script at.holds at.kept)
