-- ===== src/Stats/Consistency.antt =====
-- The statistics stay consistent under every update, whoever makes it.
use operative_system_project.Prelude.{
  refl, ℕ, ◌≤◌, ◌<◌, ◌≡◌, List, [], ◌∷◌, length, sum_of, modify, suc, length-modify, ◌∙◌, zero, ◌+◌,
  arith, replicate, sum_of-modify, length-replicate, sym, sum_of-replicate,
}
use operative_system_project.Commons.{service_count}
use operative_system_project.Stats.{
  Floating, ServiceStats, SimulationStats, Update, resets, pauses, requests, refuses, serves,
  count_request, add_request, add_not_served, add_served, zero_stats, apply, zero_service,
  reset_day, count_pause, count_not_served, count_served, apply_all,
}

module _ {D : Type 0} where
  -- The counts of a service for the day are parts of those for the simulation.
  pub record IsPart (d t : ServiceStats D) : Type 0 where
    pub requests_le : d.requests ≤ t.requests
    pub served_le : d.served ≤ t.served
    pub not_served_le : d.not_served ≤ t.not_served

  abbrev pub ArePart : List (ServiceStats D) → List (ServiceStats D) → Type 0
  ArePart [] [] = Unit
  ArePart (d ∷ ds) (t ∷ ts) = IsPart d t × ArePart ds ts
  ArePart _ _ = ⊥

  abbrev pub served_sum : List (ServiceStats D) → ℕ
  served_sum = sum_of (λ s. s.served)

  abbrev pub not_served_sum : List (ServiceStats D) → ℕ
  not_served_sum = sum_of (λ s. s.not_served)

  -- The counts by service of the day and of the simulation, with the sums that stand beside them.
  pub record Tally (ds ts : List (ServiceStats D)) (ds_served ts_served ds_not ts_not : ℕ)
      : Type 0 where
    pub day_length : length ds ≡ service_count
    pub total_length : length ts ≡ service_count
    pub day_served : ds_served ≡ served_sum ds
    pub total_served : ts_served ≡ served_sum ts
    pub day_not_served : ds_not ≡ not_served_sum ds
    pub total_not_served : ts_not ≡ not_served_sum ts
    pub parts : ArePart ds ts

  -- The sums are those over the services, each customer is counted once, and the day is a part of
  -- the simulation.
  pub record IsConsistent (st : SimulationStats D) : Type 0 where
    pub tally :
        Tally st.day_by_service st.total_by_service st.day_services_served st.total_services_served
          st.day_services_not_served st.total_services_not_served
    pub day_users : st.day_users_served ≡ st.day_services_served
    pub total_users : st.total_users_served ≡ st.total_services_served
    pub pause_part : st.day_pause_total ≤ st.total_pause_total

  -- The update is of a service that exists.
  abbrev pub IsValid : Update D → Type 0
  IsValid resets = Unit
  IsValid pauses = Unit
  IsValid (requests s) = s < service_count
  IsValid (refuses s) = s < service_count
  IsValid (serves s waited minutes) = s < service_count

  ArePart-modify :
      (f : ServiceStats D → ServiceStats D)
      → ((d t : ServiceStats D) → IsPart d t → IsPart (f d) (f t))
      → (i : ℕ) (ds ts : List (ServiceStats D)) → ArePart ds ts
      → ArePart (modify ds i f) (modify ts i f)
  unfolding modify
  ArePart-modify f keep i [] [] h = tt
  ArePart-modify f keep i [] (t ∷ ts) h = elim h [ ]
  ArePart-modify f keep i (d ∷ ds) [] h = elim h [ ]
  ArePart-modify f keep zero (d ∷ ds) (t ∷ ts) h = (keep d t h.0, h.1)
  ArePart-modify f keep (suc i) (d ∷ ds) (t ∷ ts) h = (h.0, ArePart-modify f keep i ds ts h.1)

  -- An update of one service's statistics that adds `a` to the served and `b` to the not served.
  record Adds (f : ServiceStats D → ServiceStats D) (a b : ℕ) : Type 0 where
    served_more : (s : ServiceStats D) → (f s).served ≡ s.served + a
    not_served_more : (s : ServiceStats D) → (f s).not_served ≡ s.not_served + b
    part : (d t : ServiceStats D) → IsPart d t → IsPart (f d) (f t)

  modify-Tally :
      {f : ServiceStats D → ServiceStats D} {a b : ℕ}
      → Adds f a b
      → (i : ℕ) → i < service_count
      → (ds ts : List (ServiceStats D)) {m n j k m' n' j' k' : ℕ} → Tally ds ts m n j k
      → (m' ≡ m + a) × (n' ≡ n + a) × (j' ≡ j + b) × (k' ≡ k + b)
      → Tally (modify ds i f) (modify ts i f) m' n' j' k'
  modify-Tally {f} {a} {b} adds i lt ds ts v sums = record {
    day_length = length-modify ds i f ∙ v.day_length;
    total_length = length-modify ts i f ∙ v.total_length;
    day_served = omega (arith, sum_of-modify (λ s. s.served) a f adds.served_more ds i in_day);
    total_served = omega (arith, sum_of-modify (λ s. s.served) a f adds.served_more ts i in_total);
    day_not_served =
        omega (arith, sum_of-modify (λ s. s.not_served) b f adds.not_served_more ds i in_day);
    total_not_served =
        omega (arith, sum_of-modify (λ s. s.not_served) b f adds.not_served_more ts i in_total);
    parts = ArePart-modify f adds.part i ds ts v.parts;
  }
    where
      in_day : i < length ds
      in_day = omega (arith, v.day_length)

      in_total : i < length ts
      in_total = omega (arith, v.total_length)

  add_request-Adds : Adds add_request 0 0
  unfolding add_request
  add_request-Adds = record {
    served_more = λ s. omega arith;
    not_served_more = λ s. omega arith;
    part = λ d t h. omega arith;
  }

  add_not_served-Adds : Adds add_not_served 0 1
  unfolding add_not_served
  add_not_served-Adds = record {
    served_more = λ s. omega arith;
    not_served_more = λ s. omega arith;
    part = λ d t h. omega arith;
  }

  pub count_request-IsConsistent :
      (service : ℕ) (st : SimulationStats D)
      → service < service_count
      → IsConsistent st
      → IsConsistent (count_request service st)
  unfolding count_request
  count_request-IsConsistent s st h v = record {
    tally = modify-Tally add_request-Adds s h _ _ v.tally (omega arith);
    day_users = v.day_users;
    total_users = v.total_users;
    pause_part = v.pause_part;
  }

  pub count_not_served-IsConsistent :
      (service : ℕ) (st : SimulationStats D)
      → service < service_count
      → IsConsistent st
      → IsConsistent (count_not_served service st)
  unfolding count_not_served
  count_not_served-IsConsistent s st h v = record {
    tally = modify-Tally add_not_served-Adds s h _ _ v.tally (omega arith);
    day_users = v.day_users;
    total_users = v.total_users;
    pause_part = v.pause_part;
  }

  pub count_pause-IsConsistent :
      (st : SimulationStats D) → IsConsistent st → IsConsistent (count_pause st)
  unfolding count_pause
  count_pause-IsConsistent st v = record {
    tally = v.tally;
    day_users = v.day_users;
    total_users = v.total_users;
    pause_part = omega arith;
  }

module _ {D : Type 0} ⦃float : Floating D⦄ where
  add_served-Adds : (waited minutes : D) → Adds (add_served waited minutes) 1 0
  unfolding add_served
  add_served-Adds waited minutes = record {
    served_more = λ s. omega arith;
    not_served_more = λ s. omega arith;
    part = λ d t h. omega arith;
  }

  ArePart-zero :
      (ts : List (ServiceStats D)) (n : ℕ) → length ts ≡ n → ArePart (replicate n zero_service) ts
  unfolding replicate
  ArePart-zero [] zero h = tt
  ArePart-zero [] (suc n) h = absurd (omega arith)
  ArePart-zero (t ∷ ts) zero h = absurd (omega arith)
  ArePart-zero (t ∷ ts) (suc n) h = (omega arith, ArePart-zero ts n (omega arith))

  pub zero_stats-IsConsistent : IsConsistent {D = D} zero_stats
  unfolding zero_stats replicate sum_of
  zero_stats-IsConsistent = omega arith

  reset_day-Tally :
      (ts : List (ServiceStats D)) {ds : List (ServiceStats D)} {s s' n n' : ℕ}
      → Tally ds ts s s' n n'
      → Tally (replicate service_count zero_service) ts 0 s' 0 n'
  reset_day-Tally ts v = record {
    day_length = length-replicate service_count zero_service;
    total_length = v.total_length;
    day_served = sym (sum_of-replicate (λ s. s.served) zero_service refl service_count);
    total_served = v.total_served;
    day_not_served = sym (sum_of-replicate (λ s. s.not_served) zero_service refl service_count);
    total_not_served = v.total_not_served;
    parts = ArePart-zero ts service_count v.total_length;
  }

  pub reset_day-IsConsistent :
      (st : SimulationStats D) → IsConsistent st → IsConsistent (reset_day st)
  unfolding reset_day
  reset_day-IsConsistent st v = record {
    tally = reset_day-Tally _ v.tally;
    day_users = refl;
    total_users = v.total_users;
    pause_part = omega arith;
  }

  pub count_served-IsConsistent :
      (service : ℕ) (waited minutes : D) (st : SimulationStats D)
      → service < service_count
      → IsConsistent st
      → IsConsistent (count_served service waited minutes st)
  unfolding count_served
  count_served-IsConsistent s waited minutes st h v = record {
    tally = modify-Tally (add_served-Adds waited minutes) s h _ _ v.tally (omega arith);
    day_users = omega arith;
    total_users = omega arith;
    pause_part = v.pause_part;
  }

  apply-IsConsistent :
      (u : Update D) (st : SimulationStats D)
      → IsValid u
      → IsConsistent st
      → IsConsistent (apply u st)
  unfolding apply
  apply-IsConsistent resets st h v = reset_day-IsConsistent st v
  apply-IsConsistent pauses st h v = count_pause-IsConsistent st v
  apply-IsConsistent (requests s) st h v = count_request-IsConsistent s st h v
  apply-IsConsistent (refuses s) st h v = count_not_served-IsConsistent s st h v
  apply-IsConsistent (serves s waited minutes) st h v =
      count_served-IsConsistent s waited minutes st h v

  abbrev pub AreValid : List (Update D) → Type 0
  AreValid [] = Unit
  AreValid (u ∷ us) = IsValid u × AreValid us

  -- Consistent statistics stay consistent through any history of updates of the six services: the
  -- counts over all services are the sums of the counts of each, and no count of the day exceeds
  -- the total that it is a part of.
  pub apply_all-IsConsistent :
      (us : List (Update D)) (st : SimulationStats D)
      → AreValid us
      → IsConsistent st
      → IsConsistent (apply_all us st)
  unfolding apply_all
  apply_all-IsConsistent [] st h v = v
  apply_all-IsConsistent (u ∷ us) st h v =
      apply_all-IsConsistent us (apply u st) h.1 (apply-IsConsistent u st h.0 v)
