-- ===== src/Shared/Soundness.antt =====
-- The invariant of what the processes share: the service queues are valid rings, the statistics
-- are consistent, and the semaphore set has its size.
use operative_system_project.Prelude.{
  refl, zero, suc, ℕ, ◌≡◌, ◌<◌, length, List, ◌∙◌, set, length-set, subst, get_or, get_or-set_self,
  arith, get_or-set_ne, modify, ◌∷◌, [], map, ap,
}
use operative_system_project.Commons.{service_count, Counter, WorkerInfo, SimulationParameter}
use operative_system_project.Commons.Semaphores.{total_sems}
use operative_system_project.Shared.{Shared, seats, queue_of, Message, no_queue, no_worker}
use operative_system_project.Queue.Invariant.{IsValid}
use operative_system_project.Stats.Consistency.{IsConsistent}
use native.Mathlib.Decide.{ℕ_discrete}
use operative_system_project.Stats.{SimulationStats}
use operative_system_project.Queue.{ServiceQueue}
use operative_system_project.Process.Logs.{IsKept}
use operative_system_project.Prelude.Int.{pos_part}

pub record IsSound {D : Type 0} (n : ℕ) (s : Shared D) : Type 0 where
  pub fixed : seats s ≡ n
  pub sem_set : length s.sems ≡ total_sems n
  pub six_queues : length s.queues ≡ service_count
  pub valid_queues : (i : ℕ) → i < service_count → IsValid (queue_of i s)
  pub consistent : IsConsistent s.stats
  pub known_services : (j : ℕ) → (get_or s.workers j no_worker).service < service_count

service-modify :
    (f : WorkerInfo → WorkerInfo)
    → ((w : WorkerInfo) → (f w).service ≡ w.service)
    → (ws : List WorkerInfo) (j k : ℕ)
    → (get_or (modify ws j f) k no_worker).service ≡ (get_or ws k no_worker).service
unfolding modify
service-modify f same [] j k = refl
service-modify f same (w ∷ ws) zero zero = same w
service-modify f same (w ∷ ws) zero (suc k) = refl
service-modify f same (w ∷ ws) (suc j) zero = refl
service-modify f same (w ∷ ws) (suc j) (suc k) = service-modify f same ws j k

service-map :
    (f : WorkerInfo → WorkerInfo)
    → ((w : WorkerInfo) → (f w).service ≡ w.service)
    → (ws : List WorkerInfo) (k : ℕ)
    → (get_or (map f ws) k no_worker).service ≡ (get_or ws k no_worker).service
service-map f same [] k = refl
service-map f same (w ∷ ws) zero = same w
service-map f same (w ∷ ws) (suc k) = service-map f same ws k

module _ {D : Type 0} {n : ℕ} {s : Shared D} (v : IsSound n s) where
  pub by_sems : (sems : List ℕ) → length sems ≡ length s.sems → IsSound n (record s { sems = sems })
  by_sems sems e = record {
    fixed = v.fixed;
    sem_set = e ∙ v.sem_set;
    six_queues = v.six_queues;
    valid_queues = v.valid_queues;
    consistent = v.consistent;
    known_services = v.known_services;
  }

  pub by_mailbox : (ms : List Message) → IsSound n (record s { mailbox = ms })
  by_mailbox ms = record {
    fixed = v.fixed;
    sem_set = v.sem_set;
    six_queues = v.six_queues;
    valid_queues = v.valid_queues;
    consistent = v.consistent;
    known_services = v.known_services;
  }

  pub by_stats : (st : SimulationStats D) → IsConsistent st → IsSound n (record s { stats = st })
  by_stats st c = record {
    fixed = v.fixed;
    sem_set = v.sem_set;
    six_queues = v.six_queues;
    valid_queues = v.valid_queues;
    consistent = c;
    known_services = v.known_services;
  }

  -- A valid queue put in the place of one of the six.
  pub by_queue :
      (service : ℕ) (q : ServiceQueue)
      → service < service_count
      → IsValid q
      → IsSound n (record s { queues = set s.queues service q })
  by_queue service q lt h = record {
    fixed = v.fixed;
    sem_set = v.sem_set;
    six_queues = length-set s.queues service q ∙ v.six_queues;
    valid_queues = λ i below. elim (ℕ_discrete service i) [
      | yes e ↦
          subst (λ j. IsValid (get_or (set s.queues service q) j no_queue)) e
            (rw (get_or-set_self s.queues service q no_queue (omega (arith, v.six_queues))) h)
      | no e ↦ rw (get_or-set_ne s.queues service i q no_queue e) (v.valid_queues i below)
    ];
    consistent = v.consistent;
    known_services = v.known_services;
  }

  -- Counters do not matter, and a worker may change in all but his service.
  pub by_counters : (cs : List Counter) → IsSound n (record s { counters = cs })
  by_counters cs = record {
    fixed = v.fixed;
    sem_set = v.sem_set;
    six_queues = v.six_queues;
    valid_queues = v.valid_queues;
    consistent = v.consistent;
    known_services = v.known_services;
  }

  pub by_worker :
      (j : ℕ) (f : WorkerInfo → WorkerInfo)
      → ((w : WorkerInfo) → (f w).service ≡ w.service)
      → IsSound n (record s { workers = modify s.workers j f })
  by_worker j f same = record {
    fixed = v.fixed;
    sem_set = v.sem_set;
    six_queues = v.six_queues;
    valid_queues = v.valid_queues;
    consistent = v.consistent;
    known_services = λ k. rw (service-modify f same s.workers j k) (v.known_services k);
  }

  pub by_all_workers :
      (f : WorkerInfo → WorkerInfo)
      → ((w : WorkerInfo) → (f w).service ≡ w.service)
      → IsSound n (record s { workers = map f s.workers })
  by_all_workers f same = record {
    fixed = v.fixed;
    sem_set = v.sem_set;
    six_queues = v.six_queues;
    valid_queues = v.valid_queues;
    consistent = v.consistent;
    known_services = λ k. rw (service-map f same s.workers k) (v.known_services k);
  }

  -- The configuration may change in all but the number of seats.
  pub by_config :
      (c : SimulationParameter)
      → c.nof_worker_seats ≡ s.config.nof_worker_seats
      → IsSound n (record s { config = c })
  by_config c e = record {
    fixed = ap pos_part e ∙ v.fixed;
    sem_set = v.sem_set;
    six_queues = v.six_queues;
    valid_queues = v.valid_queues;
    consistent = v.consistent;
    known_services = v.known_services;
  }

-- No call of a process breaks the soundness.
pub IsSound-IsKept : {D : Type 0} (n : ℕ) → IsKept {D = D} n (IsSound n)
IsSound-IsKept n = record {
  fixed = λ s v. v.fixed;
  by_sems = λ s sems e v. by_sems v sems e;
  by_mailbox = λ s ms v. by_mailbox v ms;
}
