-- ===== src/Process/Quiet.antt =====
-- Calls that are granted at once, with nothing else happening meanwhile: what they return, and
-- that they do return.
use operative_system_project.Prelude.{
  ℕ, ◌≡◌, ◌<◌, List, ◌∷◌, length, get_or, set, ◌+◌, ◌-◌, Bool, lt→ltb, arith, ap, ◌∙◌,
}
use operative_system_project.Shared.{seats, Shared}
use operative_system_project.Process.{
  World, Act, Event, retry, retry_over, raise, lower, require, done, Signal, raised, lowered,
  Attempt, grant, returned, got, Proc, Outcome, ◌>>◌, and_then,
}
use operative_system_project.Commons.Semaphores.{total_sems, stats_mutex_sem}

module _ {D : Type 0} where
  -- The semaphore exists.
  abbrev pub Has : ℕ → Shared D → Type 0
  Has k s = k < length s.sems

  abbrev pub value : ℕ → Shared D → ℕ
  value k s = get_or s.sems k 0

  abbrev pub with_sem : ℕ → ℕ → Shared D → Shared D
  with_sem k v s = record s { sems = set s.sems k v }

  pub raise_works :
      (k : ℕ) (s : Shared D)
      → Has k s
      → raise k s ≡ done tt (with_sem k (value k s + 1) s) (raised k)
  unfolding raise
  raise_works k s h = rw (lt→ltb k (length s.sems) h)

  pub lower_works :
      (k : ℕ) (s : Shared D)
      → Has k s
      → 0 < value k s
      → lower k s ≡ done tt (with_sem k (value k s - 1) s) (lowered k)
  unfolding lower
  lower_works k s h p = rw (lt→ltb k (length s.sems) h) (ground arith)

-- The semaphore set of the director, with the mutex of the statistics free.
pub record IsReady {D : Type 0} (n : ℕ) (s : Shared D) : Type 0 where
  pub fixed : seats s ≡ n
  pub sem_set : length s.sems ≡ total_sems n
  pub stats_free : 0 < value (stats_mutex_sem n) s

module _ {F D : Type 0} where
  abbrev pub world : F → Shared D → List (Event D) → List (Act D) → World F D
  world f s es t = record { flags = f; shared = s; script = es; trace = t }

  module _ (handle : Signal → F → F) (stop : F → Bool) (f : F) (s : Shared D) (es : List (Event D))
      (t : List (Act D)) where
    pub retry_works :
        {A : Type 0} (call : Shared D → Attempt D A) (a : A) (s' : Shared D) (act : Act D)
        → call s ≡ done a s' act
        → retry handle stop call (world f s (grant ∷ es) t)
          ≡ returned (got a) (world f s' es (act ∷ t))
    unfolding retry retry_over
    retry_works call a s' act e = rw e

    pub require_up_works :
        (k : ℕ)
        → Has k s
        → require (retry handle stop (raise k)) (world f s (grant ∷ es) t)
          ≡ returned tt (world f (with_sem k (value k s + 1) s) es (raised k ∷ t))
    require_up_works k h = rw (retry_works (raise k) tt _ _ (raise_works k s h))

    pub require_down_works :
        (k : ℕ)
        → Has k s
        → 0 < value k s
        → require (retry handle stop (lower k)) (world f s (grant ∷ es) t)
          ≡ returned tt (world f (with_sem k (value k s - 1) s) es (lowered k ∷ t))
    require_down_works k h p = rw (retry_works (lower k) tt _ _ (lower_works k s h p))

  -- One step after another.
  pub then_runs :
      {B : Type 0} (m : Proc F D (Unit {0})) (k : Proc F D B) (w w' : World F D) {o : Outcome F D B}
      → m w ≡ returned tt w'
      → k w' ≡ o
      → (m >> k) w ≡ o
  then_runs m k w w' p q = ap (λ o. and_then o (λ _. k)) p ∙ q
