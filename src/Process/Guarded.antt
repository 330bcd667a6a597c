-- ===== src/Process/Guarded.antt =====
-- The discipline of the locks, on the log of a process: the statistics are counted in only between
-- the lock and the unlock of their mutex, and a queue is pushed to and popped from only between the
-- lock and the unlock of its own.
use operative_system_project.Prelude.{
  ℕ, ◌≡◌, refl, List, [], ◌∷◌, Bool, true, false, if◌then◌else◌, ◌==◌, ◌⊎◌, inl, inr, subst, sym,
  arith,
}
use operative_system_project.Commons.Semaphores.{stats_mutex_sem, service_queue_mutex_sem}
use operative_system_project.Process.{
  Act, raised, lowered, sent, received, counted, pushed, popped, signalled, wrote, slept,
}

module _ {D : Type 0} where
  -- Whether the last of the operations on semaphore `k` in the log, newest first, has lowered it.
  unfoldable pub holds : ℕ → List (Act D) → Bool
  holds k [] = false
  holds k (raised j ∷ t) = if j == k then false else holds k t
  holds k (lowered j ∷ t) = if j == k then true else holds k t
  holds k (sent m ∷ t) = holds k t
  holds k (received m ∷ t) = holds k t
  holds k (counted u ∷ t) = holds k t
  holds k (pushed service ticket ∷ t) = holds k t
  holds k (popped service ∷ t) = holds k t
  holds k (signalled sig pids ∷ t) = holds k t
  holds k (wrote ∷ t) = holds k t
  holds k (slept ∷ t) = holds k t

  -- What an act requires of the log before it, with `n` seats.
  abbrev pub Allowed : ℕ → Act D → List (Act D) → Type 0
  Allowed n (counted u) t = holds (stats_mutex_sem n) t ≡ true
  Allowed n (pushed service ticket) t = holds (service_queue_mutex_sem n service) t ≡ true
  Allowed n (popped service) t = holds (service_queue_mutex_sem n service) t ≡ true
  Allowed n (raised j) t = Unit {0}
  Allowed n (lowered j) t = Unit {0}
  Allowed n (sent m) t = Unit {0}
  Allowed n (received m) t = Unit {0}
  Allowed n (signalled sig pids) t = Unit {0}
  Allowed n wrote t = Unit {0}
  Allowed n slept t = Unit {0}

  abbrev pub IsGuarded : ℕ → List (Act D) → Type 0
  IsGuarded n [] = Unit {0}
  IsGuarded n (act ∷ t) = Allowed n act t × IsGuarded n t

  -- All the semaphores of a list are held.
  abbrev pub AllHeld : List ℕ → List (Act D) → Type 0
  AllHeld [] t = Unit {0}
  AllHeld (k ∷ ks) t = (holds k t ≡ true) × AllHeld ks t

abbrev pub In : ℕ → List ℕ → Type 0
In k [] = ⊥
In k (j ∷ js) = (k ≡ j) ⊎ In k js

module _ {D : Type 0} where
  held_known : (k : ℕ) (ks : List ℕ) (t : List (Act D)) → In k ks → AllHeld ks t → holds k t ≡ true
  held_known k [] t m h = elim m [ ]
  held_known k (j ∷ js) t (inl e) h = subst (λ i. holds i t ≡ true) (sym e) h.0
  held_known k (j ∷ js) t (inr m) h = held_known k js t m h.1

  pub AllHeld-mono :
      (ks : List ℕ) (t u : List (Act D))
      → ((k : ℕ) → In k ks → holds k t ≡ true → holds k u ≡ true)
      → AllHeld ks t
      → AllHeld ks u
  AllHeld-mono [] t u f h = tt
  AllHeld-mono (k ∷ ks) t u f h = (f k (inl refl) h.0, AllHeld-mono ks t u (λ j m. f j (inr m)) h.1)

  -- The acts, other than operations on semaphores, that may be done while those of the list are held.
  abbrev pub MayDo : ℕ → List ℕ → Act D → Type 0
  MayDo n ks (counted u) = In (stats_mutex_sem n) ks
  MayDo n ks (pushed service ticket) = In (service_queue_mutex_sem n service) ks
  MayDo n ks (popped service) = In (service_queue_mutex_sem n service) ks
  MayDo n ks (raised j) = ⊥
  MayDo n ks (lowered j) = ⊥
  MayDo n ks (sent m) = Unit {0}
  MayDo n ks (received m) = Unit {0}
  MayDo n ks (signalled sig pids) = Unit {0}
  MayDo n ks wrote = Unit {0}
  MayDo n ks slept = Unit {0}

  pub may-Allowed :
      (n : ℕ) (ks : List ℕ) (act : Act D) (t : List (Act D))
      → MayDo n ks act
      → AllHeld ks t
      → Allowed n act t
  may-Allowed n ks (counted u) t m h = held_known _ ks t m h
  may-Allowed n ks (pushed service ticket) t m h = held_known _ ks t m h
  may-Allowed n ks (popped service) t m h = held_known _ ks t m h
  may-Allowed n ks (raised _) t m h = tt
  may-Allowed n ks (lowered _) t m h = tt
  may-Allowed n ks (sent _) t m h = tt
  may-Allowed n ks (received _) t m h = tt
  may-Allowed n ks (signalled sig pids) t m h = tt
  may-Allowed n ks wrote t m h = tt
  may-Allowed n ks slept t m h = tt

  holds_kept :
      (n : ℕ) (ks : List ℕ) (act : Act D) (t : List (Act D))
      → MayDo n ks act
      → (k : ℕ) → holds k t ≡ true
      → holds k (act ∷ t) ≡ true
  unfolding holds
  holds_kept n ks (counted u) t m k h = h
  holds_kept n ks (pushed service ticket) t m k h = h
  holds_kept n ks (popped service) t m k h = h
  holds_kept n ks (raised _) t m k h = elim m [ ]
  holds_kept n ks (lowered _) t m k h = elim m [ ]
  holds_kept n ks (sent _) t m k h = h
  holds_kept n ks (received _) t m k h = h
  holds_kept n ks (signalled sig pids) t m k h = h
  holds_kept n ks wrote t m k h = h
  holds_kept n ks slept t m k h = h

  pub may-AllHeld :
      (n : ℕ) (ks : List ℕ) (act : Act D) (t : List (Act D))
      → MayDo n ks act
      → AllHeld ks t
      → AllHeld ks (act ∷ t)
  may-AllHeld n ks act t m h = AllHeld-mono ks t (act ∷ t) (λ k _. holds_kept n ks act t m k) h

  lowered_holds : (j k : ℕ) (t : List (Act D)) → holds k t ≡ true → holds k (lowered j ∷ t) ≡ true
  unfolding holds
  lowered_holds j k t h = ground arith

  -- The semaphore that has just been lowered is held, and those that were still are.
  pub lowered-AllHeld :
      (j : ℕ) (ks : List ℕ) (t : List (Act D)) → AllHeld ks t → AllHeld (j ∷ ks) (lowered j ∷ t)
  unfolding holds
  lowered-AllHeld j ks t h =
      (ground arith, AllHeld-mono ks t (lowered j ∷ t) (λ k _. lowered_holds j k t) h)

  raised_holds :
      (j k : ℕ) (t : List (Act D)) → ¬ (k ≡ j) → holds k t ≡ true → holds k (raised j ∷ t) ≡ true
  unfolding holds
  raised_holds j k t ne h = ground arith

  -- Raising another semaphore.
  pub raised-AllHeld :
      (j : ℕ) (ks : List ℕ) (t : List (Act D))
      → ¬ (In j ks)
      → AllHeld ks t
      → AllHeld ks (raised j ∷ t)
  raised-AllHeld j ks t out h =
      AllHeld-mono ks t (raised j ∷ t)
        (λ k m. raised_holds j k t (λ e. out (subst (λ i. In i ks) e m))) h
