-- ===== src/Director/Flush/Pending.antt =====
-- The users whom flush_pending_users of src/director.c finds, and the state that it starts from and
-- leaves.
use operative_system_project.Prelude.{
  ℕ, ◌+◌, ◌<◌, ◌≤◌, ◌≡◌, refl, List, [], ◌++◌, zero, suc, set, length, arith, ap, ap₂,
  if◌then◌else◌, ltb, lt→ltb,
}
use operative_system_project.Queue.Refinement.{contents}
use operative_system_project.Director.{Flags, set_sem_value}
use operative_system_project.Director.Flush.{IsValid}
use operative_system_project.Director.Flush.Drained.{refusals}
use operative_system_project.Shared.{Shared, queue_of, Message}
use operative_system_project.Process.Quiet.{IsReady, Has, value}
use operative_system_project.Commons.{service_count}
use operative_system_project.Process.Runs.{Runs, peek-Runs, if_true-Runs, commit-Runs}
use operative_system_project.Commons.Semaphores.{service_queue_mutex_sem, service_jobs_sem}
use operative_system_project.Process.{peek, ◌>>=◌, commit, wrote, exit_failure}

module _ {D : Type 0} where
  -- The users that wait in the queues of `left` services from the given one on.
  unfoldable pub pending : ℕ → ℕ → Shared D → ℕ
  pending service zero s = 0
  pending service (suc left) s = (queue_of service s).length + pending (service + 1) left s

  -- What they are told.
  unfoldable pub all_refusals : ℕ → ℕ → Shared D → List Message
  all_refusals service zero s = []
  all_refusals service (suc left) s =
      refusals service (contents (queue_of service s)) ++ all_refusals (service + 1) left s

  pub pending-ext :
      (service left : ℕ) (s s' : Shared D)
      → ((i : ℕ) → service ≤ i → queue_of i s' ≡ queue_of i s)
      → (pending service left s' ≡ pending service left s)
        × (all_refusals service left s' ≡ all_refusals service left s)
  unfolding pending all_refusals
  pending-ext service zero s s' same = (refl, refl)
  pending-ext service (suc left) s s' same =
      let (p, r) = pending-ext (service + 1) left s s' (λ i h. same i (omega (arith, h))) in
      (
        ap₂ ◌+◌ (ap (λ q. q.length) (same service (omega arith))) p,
        ap₂ ◌++◌ (ap (λ q. refusals service (contents q)) (same service (omega arith))) r,
      )

-- The mutexes are free, and the queues are valid.
pub record IsCalm {D : Type 0} (n : ℕ) (s : Shared D) : Type 0 where
  pub ready : IsReady n s
  pub mutexes_free : (i : ℕ) → i < service_count → 0 < value (service_queue_mutex_sem n i) s
  pub six_queues : length s.queues ≡ service_count
  pub valid_queues : (i : ℕ) → i < service_count → IsValid (queue_of i s)

-- From `s` to `s'` the queues of `left` services from the given one on are emptied.
pub record IsFlushed {D : Type 0} (n service left : ℕ) (s s' : Shared D) : Type 0 where
  pub calm : IsCalm n s'
  pub emptied : (i : ℕ) → service ≤ i → i < service + left → (queue_of i s').length ≡ 0
  pub no_jobs : (i : ℕ) → service ≤ i → i < service + left → value (service_jobs_sem n i) s' ≡ 0
  pub kept :
      (i : ℕ)
      → i < service
      → (queue_of i s' ≡ queue_of i s)
        × (value (service_jobs_sem n i) s' ≡ value (service_jobs_sem n i) s)
  pub told : s'.mailbox ≡ s.mailbox ++ all_refusals service left s
  pub day_counted :
      s'.stats.day_services_not_served ≡ s.stats.day_services_not_served + pending service left s
  pub total_counted :
      s'.stats.total_services_not_served
      ≡ s.stats.total_services_not_served + pending service left s

module _ {D : Type 0} (f : Flags) where
  pub set_sem-Runs :
      (place : Shared D → ℕ) (v : ℕ) (s : Shared D)
      → Has (place s) s
      → Runs
          (peek >>= λ r. set_sem_value (place r) v)
          f
          s
          0
          tt
          (record s { sems = set s.sems (place s) v })
  unfolding set_sem_value
  set_sem-Runs place v s h =
      peek-Runs (λ r. set_sem_value (place r) v) f s _ 0 tt
        (peek-Runs
          (λ r.
            if ltb (place s) (length r.sems)
            then commit (λ x. record x { sems = set x.sems (place s) v }) wrote
            else exit_failure)
          f s _ 0 tt
          (if_true-Runs (ltb (place s) (length s.sems))
            (commit (λ x. record x { sems = set x.sems (place s) v }) wrote) exit_failure f s _ 0 tt
            (lt→ltb (place s) (length s.sems) h)
            (commit-Runs (λ x. record x { sems = set x.sems (place s) v }) wrote f s)))
