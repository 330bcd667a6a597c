-- ===== src/Process/Keeping.antt =====
-- That a process keeps a property of the shared state which the other processes keep, and the
-- discipline of the locks, whatever the script says and however the process ends.
use operative_system_project.Prelude.{
  ℕ, ◌≡◌, refl, Bool, if◌then◌else◌, true, false, List, [], ◌∷◌, subst, sym,
}
use operative_system_project.Shared.{Shared, Message}
use operative_system_project.Process.{
  stopped, failed, World, Act, Proc, Answer, retry, ◌>>=◌, ◌>>◌, peek, commit, Signal, got, observe,
  Attempt, raise, lower, send, done, receive, own_flags, ret, exit_failure, blocked,
}
use operative_system_project.Process.Post.{
  Post, Post-bind, At, retry-Post, observe-Post, Keeps, Post-mono,
}
use operative_system_project.Process.Logs.{
  IsKept, raise_done, lower_done, send_done, receive_done, receive_act,
}
use operative_system_project.Process.Guarded.{
  IsGuarded, AllHeld, In, MayDo, may-Allowed, may-AllHeld, lowered-AllHeld, raised-AllHeld,
}
use operative_system_project.Prelude.Int.{ℤ}

module _ {F D : Type 0} (n : ℕ) (I : Shared D → Type 0) where
  -- The property holds and the others keep it, and the process has kept the discipline of the locks
  -- and holds those of the list.
  pub record Good (ks : List ℕ) (w : World F D) : Type 0 where
    pub state : I w.shared
    pub others : Keeps I w.script
    pub guarded : IsGuarded n w.trace
    pub held : AllHeld ks w.trace

  abbrev pub Holds : World F D → Type 0
  Holds w = I w.shared × IsGuarded n w.trace

  pub good_at :
      (ks : List ℕ) (t : List (Act D)) (w : World F D)
      → At I t w
      → IsGuarded n t
      → AllHeld ks t
      → Good ks w
  good_at ks t w at g h = record {
    state = at.holds;
    others = at.kept;
    guarded = subst (IsGuarded n) (sym at.logged) g;
    held = subst (AllHeld ks) (sym at.logged) h;
  }

  pub holds_at : (t : List (Act D)) (w : World F D) → At I t w → IsGuarded n t → Holds w
  holds_at t w at g = (at.holds, subst (IsGuarded n) (sym at.logged) g)

  -- In every run in which the property holds at first and the others keep it, it holds at the end,
  -- whether the process has returned, exited or still waits, and the discipline of the locks has
  -- been kept. A process that holds the first semaphores when it starts holds the second when it
  -- returns.
  pub record Moves (ks ls : List ℕ) {A : Type 0} (m : Proc F D A) : Type 0 where
    pub run : (w : World F D) → Good ks w → Post (λ _ w'. Good ls w') Holds (m w)

  abbrev pub KeepsAll : {A : Type 0} → Proc F D A → Type 0
  KeepsAll m = Moves [] [] m

  pub good_holds : {ks : List ℕ} {w : World F D} → Good ks w → Holds w
  good_holds g = (g.state, g.guarded)

  module _ {ks ls js : List ℕ} where
    pub bind_keeps :
        {A B : Type 0} (m : Proc F D A) (f : A → Proc F D B)
        → Moves ks ls m
        → ((a : A) → Moves ls js (f a))
        → Moves ks js (m >>= f)
    bind_keeps m f h k = record {
      run = λ w g.
          Post-bind (λ _ w'. Good ls w') (λ _ w'. Good js w') Holds (m w) f (h.run w g)
            (λ a w' g'. (k a).run w' g');
    }

    pub then_keeps :
        {B : Type 0} (m : Proc F D (Unit {0})) (k : Proc F D B)
        → Moves ks ls m
        → Moves ls js k
        → Moves ks js (m >> k)
    then_keeps m k h l = bind_keeps m (λ _. k) h (λ _. l)

  module _ {ks ls : List ℕ} where
    -- What is done with the shared state may rely on the property.
    pub peek_keeps :
        {B : Type 0} (f : Shared D → Proc F D B)
        → ((s : Shared D) → I s → Moves ks ls (f s))
        → Moves ks ls (peek >>= f)
    peek_keeps f h = record { run = λ w g. (h w.shared g.state).run w g }

    pub own_flags_keeps :
        {B : Type 0} (f : F → Proc F D B)
        → ((g : F) → Moves ks ls (f g))
        → Moves ks ls (own_flags >>= f)
    own_flags_keeps f h = record { run = λ w g. (h w.flags).run w g }

    pub exit_keeps : (A : Type 0) → Moves ks ls {A = A} exit_failure
    exit_keeps A = record { run = λ w g. good_holds g }

    pub wait_keeps : (A : Type 0) → Moves ks ls {A = A} (λ w. blocked w)
    wait_keeps A = record { run = λ w g. good_holds g }

    pub if_keeps :
        {B : Type 0} (b : Bool) (m k : Proc F D B)
        → Moves ks ls m
        → Moves ks ls k
        → Moves ks ls (if b then m else k)
    if_keeps true m k h l = h
    if_keeps false m k h l = l

    -- A lock that is not needed any more.
    pub forget_keeps : {A : Type 0} (k : ℕ) (m : Proc F D A) → Moves ks ls m → Moves (k ∷ ks) ls m
    forget_keeps k m h = record {
      run = λ w g.
          h.run w
            (record { state = g.state; others = g.others; guarded = g.guarded; held = g.held.1 });
    }

    -- A lock that the process still holds afterwards, which is not needed any more.
    pub let_go_keeps : {A : Type 0} (k : ℕ) (m : Proc F D A) → Moves ks (k ∷ ls) m → Moves ks ls m
    let_go_keeps k m h = record {
      run = λ w g.
          Post-mono (λ _ w'. Good (k ∷ ls) w') (λ _ w'. Good ls w') Holds Holds (m w) (h.run w g)
            (λ _ w' g'. record {
              state = g'.state;
              others = g'.others;
              guarded = g'.guarded;
              held = g'.held.1;
            })
            (λ w' g'. g');
    }

  -- What this says of a whole process.
  pub keeps_ends :
      {A : Type 0} (m : Proc F D A)
      → KeepsAll m
      → (w : World F D) → I w.shared
      → Keeps I w.script
      → IsGuarded n w.trace
      → Post (λ _ w'. Holds w') Holds (m w)
  keeps_ends m h w i k g =
      Post-mono (λ _ w'. Good [] w') (λ _ w'. Holds w') Holds Holds (m w)
        (h.run w (record { state = i; others = k; guarded = g; held = tt }))
        (λ _ w' g'. good_holds g') (λ w' g'. g')

  module _ {ks : List ℕ} where
    pub ret_keeps : {A : Type 0} (a : A) → Moves ks ks (ret a)
    ret_keeps a = record { run = λ w g. g }

    pub commit_keeps :
        (f : Shared D → Shared D) (act : Act D)
        → MayDo n ks act
        → ((s : Shared D) → I s → I (f s))
        → Moves ks ks (commit f act)
    commit_keeps f act may h = record {
      run = λ w g. record {
        state = h w.shared g.state;
        others = g.others;
        guarded = (may-Allowed n ks act w.trace may g.held, g.guarded);
        held = may-AllHeld n ks act w.trace may g.held;
      };
    }

  module _ (handle : Signal → F → F) where
    pub observe_keeps :
        {ks ls : List ℕ} {B : Type 0} (f : Shared D → Proc F D B)
        → ((s : Shared D) → I s → Moves ks ls (f s))
        → Moves ks ls (observe handle >>= f)
    observe_keeps {ks} {ls} f h = record {
      run = λ w g.
          Post-bind (λ s w'. (s ≡ w'.shared) × At I w.trace w') (λ _ w'. Good ls w') Holds
            (observe handle w) f
            (Post-mono (λ s w'. (s ≡ w'.shared) × At I w.trace w')
              (λ s w'. (s ≡ w'.shared) × At I w.trace w') (At I w.trace) Holds (observe handle w)
              (observe-Post handle I w.trace w
                (record { logged = refl; holds = g.state; kept = g.others }))
              (λ s w' p. p) (λ w' at. holds_at w.trace w' at g.guarded))
            (λ s w' p.
              rw p.0 ((h w'.shared p.1.holds).run w' (good_at ks w.trace w' p.1 g.guarded g.held)));
    }

    module _ {A : Type 0} (stop : F → Bool) (call : Shared D → Attempt D A) where
      -- A call, and what is done with its answer.
      pub answered_keeps :
          {B : Type 0} {ks ls js : List ℕ} (f : Answer A → Proc F D B)
          → ((s s' : Shared D) (a : A) (act : Act D) (t : List (Act D))
              → I s
              → call s ≡ done a s' act
              → IsGuarded n t
              → AllHeld ks t
              → I s' × IsGuarded n (act ∷ t) × AllHeld js (act ∷ t))
          → ((a : A) → Moves js ls (f (got a)))
          → Moves ks ls (f stopped)
          → Moves ks ls (f failed)
          → Moves ks ls (retry handle stop call >>= f)
      answered_keeps {ks = ks} {ls = ls} {js = js} f step on_got on_stop on_fail = record {
        run = λ w g.
            Post-bind Answered (λ _ w'. Good ls w') Holds (retry handle stop call w) f
              (retry-Post handle I stop call Answered Holds w.trace
                (λ f' s s' a act es i' k' d.
                  let (i2, g2, h2) = step s s' a act w.trace i' d g.guarded g.held in
                  record { state = i2; others = k'; guarded = g2; held = h2 })
                (λ w' at _. good_at ks w.trace w' at g.guarded g.held)
                (λ w' at. good_at ks w.trace w' at g.guarded g.held)
                (λ w' at. holds_at w.trace w' at g.guarded) w
                (record { logged = refl; holds = g.state; kept = g.others }))
              next;
      }
        where
          Answered : Answer A → World F D → Type 0
          Answered (got a) w' = Good js w'
          Answered stopped w' = Good ks w'
          Answered failed w' = Good ks w'

          next :
              (a : Answer A) (w' : World F D)
              → Answered a w'
              → Post (λ _ w2. Good ls w2) Holds (f a w')
          next (got a) w' h = (on_got a).run w' h
          next stopped w' h = on_stop.run w' h
          next failed w' h = on_fail.run w' h

      -- A call that does nothing with semaphores.
      pub retry_keeps :
          {B : Type 0} {ks ls : List ℕ} (f : Answer A → Proc F D B)
          → ((s s' : Shared D) (a : A) (act : Act D)
              → I s
              → call s ≡ done a s' act
              → MayDo n ks act × I s')
          → ((a : Answer A) → Moves ks ls (f a))
          → Moves ks ls (retry handle stop call >>= f)
      retry_keeps {ks = ks} f h k =
          answered_keeps f
            (λ s s' a act t i d g held.
              let (may, i') = h s s' a act i d in
              (i', (may-Allowed n ks act t may held, g), may-AllHeld n ks act t may held))
            (λ a. k (got a)) (k stopped) (k failed)

    module _ {B : Type 0} (stop : F → Bool) (kept : IsKept n I) {ks ls : List ℕ} where
      -- Whether or not the semaphore has been raised, the process goes on.
      pub raise_keeps :
          (k : ℕ) (f : Answer (Unit {0}) → Proc F D B)
          → ¬ (In k ks)
          → ((a : Answer (Unit {0})) → Moves ks ls (f a))
          → Moves ks ls (retry handle stop (raise k) >>= f)
      raise_keeps k f out next =
          answered_keeps stop (raise k) f
            (λ s s' a act t i d g held.
              let (e, sems, len, q) = raise_done k s s' a act d in
              (
                rw q (kept.by_sems s sems len i),
                rw e (tt, g),
                subst (λ x. AllHeld ks (x ∷ t)) (sym e) (raised-AllHeld k ks t out held),
              ))
            (λ a. next (got a)) (next stopped) (next failed)

      -- If the semaphore has been lowered, the process holds it.
      pub lower_keeps :
          (k : ℕ) (f : Answer (Unit {0}) → Proc F D B)
          → Moves (k ∷ ks) ls (f (got tt))
          → Moves ks ls (f stopped)
          → Moves ks ls (f failed)
          → Moves ks ls (retry handle stop (lower k) >>= f)
      lower_keeps k f on_got =
          answered_keeps stop (lower k) f
            (λ s s' a act t i d g held.
              let (e, sems, len, q) = lower_done k s s' a act d in
              (
                rw q (kept.by_sems s sems len i),
                rw e (tt, g),
                subst (λ x. AllHeld (k ∷ ks) (x ∷ t)) (sym e) (lowered-AllHeld k ks t held),
              ))
            (λ a. on_got)

      pub send_keeps :
          (m : Message) (f : Answer (Unit {0}) → Proc F D B)
          → ((a : Answer (Unit {0})) → Moves ks ls (f a))
          → Moves ks ls (retry handle stop (send m) >>= f)
      send_keeps m f = retry_keeps stop (send m) f λ s s' a act i d.
          let (e, q) = send_done m s s' a act d in (rw e tt, rw q (kept.by_mailbox s _ i))

    module _ {B : Type 0} (stop : F → Bool) (kept : IsKept n I) {ks ls : List ℕ} where
      pub receive_keeps :
          (t : ℤ) (f : Answer Message → Proc F D B)
          → ((a : Answer Message) → Moves ks ls (f a))
          → Moves ks ls (retry handle stop (receive t) >>= f)
      receive_keeps t f = retry_keeps stop (receive t) f λ s s' a act i d.
          let (rest, q) = receive_done t s s' a act d in
          let e = receive_act t s s' a act d in (rw e tt, rw q (kept.by_mailbox s rest i))
