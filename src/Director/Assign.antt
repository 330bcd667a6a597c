-- ===== src/Director/Assign.antt =====
-- The first loop of assign_daily_counters in src/director.c, when its calls complete at once and
-- nobody else runs: the counters and the numbers of counters per service.
pub mod Opened
pub mod Services
use native.Mathlib.Decide.{ℕ_discrete}
use operative_system_project.Prelude.{
  ℕ, ◌+◌, ◌*◌, ◌%◌, ◌<◌, ◌≤◌, ◌≡◌, ◌≢◌, refl, List, [], ◌∷◌, zero, suc, modify, length, get_or,
  arith, ap, ◌∙◌, sum_of, if◌then◌else◌, ◌==◌, length-modify, get_or-modify_ne, subst, Bool-cases,
  sum_of-modify, get_or-modify_self, inl, sym, ==_iff, inr, ◌-◌, length-set,
}
use operative_system_project.Prelude.Int.{pos, negsuc}
use operative_system_project.Director.{
  Flags, handle_director_signal, assign_counters, sem_up, sem_down,
}
use operative_system_project.Process.{counted, require, commit, wrote}
use operative_system_project.Commons.{service_count, Counter}
use operative_system_project.Operator.{no_counter}
use operative_system_project.Shared.{Shared}
use operative_system_project.Commons.Semaphores.{counter_mutex_sem}
use operative_system_project.Process.Quiet.{Has, value, with_sem}
use operative_system_project.Process.Runs.{
  Runs, ret-Runs, up-Runs, down-Runs, recount, then_steps, commit-Runs, restored,
}

-- The counter offers the service, and nobody has claimed it.
abbrev pub offer : ℕ → Counter → Counter
offer service c = record c { service = pos service; worker_pid = negsuc 0 }

module _ (draw : ℕ → ℕ) where
  abbrev pub drawn : ℕ → ℕ
  drawn i = draw i % service_count

  -- The counters after `left` rounds from counter `i` on, and the numbers per service.
  unfoldable pub assigned : ℕ → ℕ → List Counter → List Counter
  assigned i zero cs = cs
  assigned i (suc left) cs = assigned (i + 1) left (modify cs i (offer (drawn i)))

  unfoldable pub tallied : ℕ → ℕ → List ℕ → List ℕ
  tallied i zero counts = counts
  tallied i (suc left) counts = tallied (i + 1) left (modify counts (drawn i) (λ c. c + 1))

  -- How often the service is drawn in these rounds.
  unfoldable pub hits : ℕ → ℕ → ℕ → ℕ
  hits service i zero = 0
  hits service i (suc left) = (if drawn i == service then 1 else 0) + hits service (i + 1) left

  length-assigned : (i left : ℕ) (cs : List Counter) → length (assigned i left cs) ≡ length cs
  unfolding assigned
  length-assigned i zero cs = refl
  length-assigned i (suc left) cs =
      length-assigned (i + 1) left (modify cs i (offer (drawn i)))
      ∙ length-modify cs i (offer (drawn i))

  assigned_before :
      (i left j : ℕ) (cs : List Counter)
      → j < i
      → get_or (assigned i left cs) j no_counter ≡ get_or cs j no_counter
  unfolding assigned
  assigned_before i zero j cs h = refl
  assigned_before i (suc left) j cs h =
      assigned_before (i + 1) left j (modify cs i (offer (drawn i))) (omega (arith, h))
      ∙ get_or-modify_ne cs i j (offer (drawn i)) no_counter (omega (arith, h))

  -- Every counter gets what is drawn for it.
  pub assigned_lem :
      (i left j : ℕ) (cs : List Counter)
      → i ≤ j
      → j < i + left
      → i + left ≤ length cs
      → (d : Counter) × (get_or (assigned i left cs) j no_counter ≡ offer (drawn j) d)
  unfolding assigned
  assigned_lem i zero j cs low high fits = absurd (omega (arith, low, high))
  assigned_lem i (suc left) j cs low high fits = elim (ℕ_discrete i j) [
    | yes e ↦
        subst
          (λ k.
            (d : Counter) × (get_or (assigned (i + 1) left (modify cs i (offer (drawn i)))) k
                no_counter
              ≡ offer (drawn k) d))
          e
          (
            get_or cs i no_counter,
            assigned_before (i + 1) left i (modify cs i (offer (drawn i))) (omega arith)
                ∙ get_or-modify_self cs i (offer (drawn i)) no_counter (omega (arith, fits)),
          )
    | no ne ↦
        assigned_lem (i + 1) left j (modify cs i (offer (drawn i))) (omega (arith, low, ne))
          (omega (arith, high)) (omega (arith, fits, length-modify cs i (offer (drawn i))))
  ]

  pub tallied_lem :
      (service i left : ℕ) (counts : List ℕ)
      → service < length counts
      → get_or (tallied i left counts) service 0 ≡ get_or counts service 0 + hits service i left
  unfolding tallied hits
  tallied_lem service i zero counts h = omega arith
  tallied_lem service i (suc left) counts h =
      let ih =
        tallied_lem service (i + 1) left (modify counts (drawn i) (λ c. c + 1))
          (omega (arith, h, length-modify counts (drawn i) (λ c. c + 1))) in
      elim (Bool-cases (drawn i == service)) [
        | inl e ↦
            let hit : get_or (modify counts (drawn i) (λ c. c + 1)) service 0
                ≡ get_or counts service 0 + 1 =
              subst
                (λ k. get_or (modify counts k (λ c. c + 1)) service 0 ≡ get_or counts service 0 + 1)
                (sym ((==_iff (drawn i) service).0 e))
                (get_or-modify_self counts service (λ c. c + 1) 0 h) in
            rw e (omega (arith, ih, hit))
        | inr e ↦
            let missed : get_or (modify counts (drawn i) (λ c. c + 1)) service 0
                ≡ get_or counts service 0 =
              get_or-modify_ne counts (drawn i) service (λ c. c + 1) 0
                (λ q. cc (e, (==_iff (drawn i) service).1 q)) in
            rw e (omega (arith, ih, missed))
      ]

  pub length-tallied :
      (i left : ℕ) (counts : List ℕ) → length (tallied i left counts) ≡ length counts
  unfolding tallied
  length-tallied i zero counts = refl
  length-tallied i (suc left) counts =
      length-tallied (i + 1) left _ ∙ length-modify counts (drawn i) (λ c. c + 1)

  -- Every round counts one counter.
  pub sum-tallied :
      (i left : ℕ) (counts : List ℕ)
      → length counts ≡ service_count
      → sum_of (λ c. c) (tallied i left counts) ≡ sum_of (λ c. c) counts + left
  unfolding tallied
  sum-tallied i zero counts h = omega arith
  sum-tallied i (suc left) counts h =
      let ih =
        sum-tallied (i + 1) left (modify counts (drawn i) (λ c. c + 1))
          (length-modify counts (drawn i) (λ c. c + 1) ∙ h) in
      let more =
        sum_of-modify (λ c. c) 1 (λ c. c + 1) (λ x. refl) counts (drawn i) (omega (arith, h)) in
      omega (arith, ih, more)

module _ {D : Type 0} (n : ℕ) (f : Flags) (draw : ℕ → ℕ) where
  require_up :
      (k : ℕ) (s : Shared D)
      → Has k s
      → Runs (require (sem_up k)) f s 1 tt (with_sem k (value k s + 1) s)
  unfolding sem_up
  require_up k s h = up-Runs handle_director_signal (λ g. g.shutdown_requested) f s k h

  require_down :
      (k : ℕ) (s : Shared D)
      → Has k s
      → 0 < value k s
      → Runs (require (sem_down k)) f s 1 tt (with_sem k (value k s - 1) s)
  unfolding sem_down
  require_down k s h p = down-Runs handle_director_signal (λ g. g.shutdown_requested) f s k h p

  -- Every round takes two calls, and gives the mutex of its counter back.
  pub assign_counters-Runs :
      (i left : ℕ) (counts : List ℕ) (s : Shared D)
      → i + left ≤ length s.sems
      → ((j : ℕ) → i ≤ j → j < i + left → 0 < value (counter_mutex_sem j) s)
      → Runs
          (assign_counters draw i left counts)
          f
          s
          (2 * left)
          (tallied draw i left counts)
          (record s { counters = assigned draw i left s.counters })
  unfolding assign_counters assigned tallied counter_mutex_sem
  assign_counters-Runs i zero counts s fits free = ret-Runs counts f s
  assign_counters-Runs i (suc left) counts s fits free =
      let counts' = modify counts (draw i % service_count) (λ c. c + 1) in
      let s' : Shared D = record s {
        counters = modify s.counters i (offer (draw i % service_count));
      } in
      let locked : Shared D = with_sem i (value i s - 1) s in
      let here : i < length s.sems = omega (arith, fits) in
      let open_ : 0 < value i s = free i (omega arith) (omega arith) in
      let kept : Shared D = record s' { sems = locked.sems } in
      recount _ f s _ (1 + (0 + (1 + 2 * left))) (2 * suc left) _ _ (omega arith) refl (
        then_steps (require (sem_down i)) _ f s locked _ 1 (0 + (1 + 2 * left)) _
          (require_down i s here open_)
          (then_steps
            (commit
              (λ x. record x { counters = modify x.counters i (offer (draw i % service_count)) })
              wrote)
            _ f locked (record s' { sems = locked.sems }) _ 0 (1 + 2 * left) _
            (commit-Runs _ wrote f locked)
            (then_steps (require (sem_up i)) (assign_counters draw (i + 1) left counts') f
              (record s' { sems = locked.sems }) s' _ 1 (2 * left) _
              (subst (λ x. Runs (require (sem_up i)) f kept 1 tt x)
                (restored i s kept refl here open_)
                (require_up i kept (omega (arith, here, length-set s.sems i (value i s - 1)))))
              (assign_counters-Runs (i + 1) left counts' s' (omega (arith, fits))
                (λ j low high. free j (omega (arith, low)) (omega (arith, high)))))))
