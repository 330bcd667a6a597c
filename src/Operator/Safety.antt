-- ===== src/Operator/Safety.antt =====
-- How an operator keeps the shared state sound, and the discipline of the locks.
use operative_system_project.Prelude.{
  refl, ℕ, none, suc, some, false, get_or, zero, ◌+◌, Option, true, [], ◌∷◌, subst,
}
use operative_system_project.Shared.{Shared, Message}
use operative_system_project.Shared.Soundness
use operative_system_project.Shared.Soundness.{IsSound, IsSound-IsKept}
use operative_system_project.Process.{
  stopped, failed, Proc, Answer, send, require, ret, wrote, ◌>>=◌,
}
use operative_system_project.Process.Keeping.{
  KeepsAll, Moves, bind_keeps, then_keeps, raise_keeps, lower_keeps, peek_keeps, ret_keeps,
  commit_keeps, send_keeps, observe_keeps, own_flags_keeps, if_keeps, wait_keeps, exit_keeps,
  forget_keeps,
}
use operative_system_project.Operator.{
  Flags, handle_operator_signal, must_stop, sem_up, sem_down, lock_stats, unlock_stats,
  take_counter, give_back, scan_counters, ignore, claim_counter_for_service, release_counter,
  insist, Identity, or_return, got, is_free, may_claim, seats, no_counter,
}
use operative_system_project.Commons.Semaphores.{
  counter_mutex_sem, service_free_counter_sem, stats_mutex_sem,
}
use operative_system_project.Prelude.Int.{pos, negsuc}

module _ {D : Type 0} (n : ℕ) where
  abbrev I : Shared D → Type 0
  I = IsSound n

  abbrev Sound : {A : Type 0} → Proc Flags D A → Type 0
  Sound m = KeepsAll n I m

  -- The process goes on, whether or not it has raised a semaphore.
  pub up_then :
      {B : Type 0} (k : ℕ) (f : Answer (Unit {0}) → Proc Flags D B)
      → ((a : Answer (Unit {0})) → Sound (f a))
      → Sound (sem_up k >>= f)
  unfolding sem_up
  up_then k f h = raise_keeps n I handle_operator_signal must_stop (IsSound-IsKept n) k f (λ x. x) h

  -- `return v` unless a semaphore has been raised, or lowered.
  pub or_up :
      {A : Type 0} (v : A) (k : ℕ) (rest : Proc Flags D A)
      → Sound rest
      → Sound (or_return v (sem_up k) rest)
  or_up v k rest h =
      up_then k _ (elim [ got _ ↦ h | stopped ↦ ret_keeps n I v | failed ↦ ret_keeps n I v ])

  pub or_down :
      {A : Type 0} (v : A) (k : ℕ) (rest : Proc Flags D A)
      → Moves n I (k ∷ []) [] rest
      → Sound (or_return v (sem_down k) rest)
  unfolding sem_down
  or_down v k rest h =
      lower_keeps n I handle_operator_signal must_stop (IsSound-IsKept n) k _ h (ret_keeps n I v)
        (ret_keeps n I v)

  pub insist_keeps : (m : Message) → Sound (insist (send m))
  insist_keeps m =
      send_keeps n I handle_operator_signal (λ _. false) (IsSound-IsKept n) m _
        (elim [
          | got _ ↦ ret_keeps n I tt
          | stopped ↦ exit_keeps n I (Unit {0})
          | failed ↦ exit_keeps n I (Unit {0})
        ])

  -- After the lock the process holds the mutex of the statistics.
  pub lock_keeps : Moves n I [] (stats_mutex_sem n ∷ []) lock_stats
  unfolding lock_stats sem_down
  lock_keeps =
      peek_keeps n I (λ s. require (sem_down (stats_mutex_sem (seats s))))
        λ s i.
          subst
            (λ m.
              Moves n I [] (stats_mutex_sem m ∷ [])
                (require (sem_down (stats_mutex_sem (seats s)))))
            i.fixed
            (lower_keeps n I handle_operator_signal must_stop (IsSound-IsKept n)
              (stats_mutex_sem (seats s)) _ (ret_keeps n I tt) (exit_keeps n I (Unit {0}))
              (exit_keeps n I (Unit {0})))

  pub unlock_keeps : Moves n I (stats_mutex_sem n ∷ []) [] unlock_stats
  unfolding unlock_stats
  unlock_keeps = forget_keeps n I (stats_mutex_sem n) unlock_stats (
      peek_keeps n I (λ s. require (sem_up (stats_mutex_sem (seats s))))
        λ s i. up_then (stats_mutex_sem (seats s)) _ (elim [
          | got _ ↦ ret_keeps n I tt
          | stopped ↦ exit_keeps n I (Unit {0})
          | failed ↦ exit_keeps n I (Unit {0})
        ]))

  take_keeps : (me : Identity) (i : ℕ) (s : Shared D) → I s → I (take_counter me i s)
  unfolding take_counter
  take_keeps me i s v =
      Soundness.by_worker (Soundness.by_counters v _) me.worker_index
        (λ w. record w { current_counter = pos i; active_today = true; active_ever = true })
        (λ w. refl)

  give_keeps : (me : Identity) (i : ℕ) (s : Shared D) → I s → I (give_back me i s)
  unfolding give_back
  give_keeps me i s v =
      Soundness.by_worker (Soundness.by_counters v _) me.worker_index
        (λ w. record w { current_counter = negsuc 0 }) (λ w. refl)

  scan_keeps : (me : Identity) (service i left : ℕ) → Sound (scan_counters me service i left)
  unfolding scan_counters
  scan_keeps me service i zero = ret_keeps n I none
  scan_keeps me service i (suc left) = or_down (some none) (counter_mutex_sem i) _ (
      forget_keeps n I (counter_mutex_sem i) _ (
        observe_keeps n I handle_operator_signal _ λ s v.
          if_keeps n I (is_free service (get_or s.counters i no_counter)) _ _
            (then_keeps n I _ _ (commit_keeps n I (take_counter me i) wrote tt (take_keeps me i))
              (or_up _ _ _ (ret_keeps n I _)))
            (or_up _ _ _ (scan_keeps me service (i + 1) left))))

  ignore_keeps : (k : ℕ) → Sound (ignore (sem_up k))
  ignore_keeps k = up_then k _ (λ _. ret_keeps n I tt)

  pub claim_keeps :
      (me : Identity) (service rounds : ℕ) → Sound (claim_counter_for_service me service rounds)
  unfolding claim_counter_for_service
  claim_keeps me service zero = wait_keeps n I (Option ℕ)
  claim_keeps me service (suc rounds) = observe_keeps n I handle_operator_signal _ λ s v.
      own_flags_keeps n I _ λ f.
        if_keeps n I (may_claim f s) _ _
          (or_down none (service_free_counter_sem (seats s) service) _ (
            forget_keeps n I (service_free_counter_sem (seats s) service) _ (
              observe_keeps n I handle_operator_signal _ λ s' v'. own_flags_keeps n I _ λ f'.
                if_keeps n I (may_claim f' s') _ _
                  (bind_keeps n I _ _ (scan_keeps me service 0 (seats s')) (elim [
                    | some r ↦ ret_keeps n I r
                    | none ↦ then_keeps n I _ _ (ignore_keeps _) (claim_keeps me service rounds)
                  ]))
                  (then_keeps n I _ _ (ignore_keeps _) (ret_keeps n I none)))))
          (ret_keeps n I none)

  pub release_keeps : (me : Identity) (i service : ℕ) → Sound (release_counter me i service)
  unfolding release_counter
  release_keeps me i service = or_down tt (counter_mutex_sem i) _ (
      forget_keeps n I (counter_mutex_sem i) _ (
        then_keeps n I _ _ (commit_keeps n I (give_back me i) wrote tt (give_keeps me i)) (
          or_up tt _ _ (
            peek_keeps n I
              (λ s. or_return tt (sem_up (service_free_counter_sem (seats s) service)) (ret tt))
              λ s v. or_up tt (service_free_counter_sem (seats s) service) _ (ret_keeps n I tt)))))
