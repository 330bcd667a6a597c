-- ===== src/Stats.antt =====
-- simulation_stats of src/headers/commons.h and every update of it: by the director
-- (src/director.c), the ticket dispenser (src/erogatore_ticket.c) and the operators
-- (src/operator.c). Each is what the code does between lock_stats and unlock_stats.
pub mod Consistency
mod Tests
use operative_system_project.Prelude.{ℕ, ◌+◌, List, if◌then◌else◌, replicate, modify, ◌∷◌, []}
use operative_system_project.Prelude.Int.{ℤ, pos, leb_ℤ}
use operative_system_project.Commons.{service_count}

-- The operations on double that the code uses.
pub record Floating (D : Type 0) : Type 0 where
  pub of_int : ℤ → D
  pub add : D → D → D
  pub divide : D → D → D

-- service_stats
pub record ServiceStats (D : Type 0) : Type 0 where
  pub requests : ℕ
  pub served : ℕ
  pub not_served : ℕ
  pub wait_minutes_sum : D
  pub service_minutes_sum : D

-- simulation_stats
pub record SimulationStats (D : Type 0) : Type 0 where
  pub day_users_served : ℕ
  pub day_services_served : ℕ
  pub day_services_not_served : ℕ
  pub day_wait_minutes_sum : D
  pub day_service_minutes_sum : D
  pub day_by_service : List (ServiceStats D)
  pub total_users_served : ℕ
  pub total_services_served : ℕ
  pub total_services_not_served : ℕ
  pub total_wait_minutes_sum : D
  pub total_service_minutes_sum : D
  pub total_by_service : List (ServiceStats D)
  pub day_pause_total : ℕ
  pub total_pause_total : ℕ

module _ {D : Type 0} ⦃float : Floating D⦄ where
  -- ns_to_minutes
  unfoldable pub ns_to_minutes : ℤ → ℤ → D
  ns_to_minutes duration_ns minute_ns =
      if leb_ℤ minute_ns (pos 0)
      then float.of_int (pos 0)
      else float.divide (float.of_int duration_ns) (float.of_int minute_ns)

  -- What memset to zero leaves in a service's statistics, and in all of them.
  abbrev pub zero_service : ServiceStats D
  zero_service = record {
    requests = 0;
    served = 0;
    not_served = 0;
    wait_minutes_sum = float.of_int (pos 0);
    service_minutes_sum = float.of_int (pos 0);
  }

  unfoldable pub zero_stats : SimulationStats D
  zero_stats = record {
    day_users_served = 0;
    day_services_served = 0;
    day_services_not_served = 0;
    day_wait_minutes_sum = float.of_int (pos 0);
    day_service_minutes_sum = float.of_int (pos 0);
    day_by_service = replicate service_count zero_service;
    total_users_served = 0;
    total_services_served = 0;
    total_services_not_served = 0;
    total_wait_minutes_sum = float.of_int (pos 0);
    total_service_minutes_sum = float.of_int (pos 0);
    total_by_service = replicate service_count zero_service;
    day_pause_total = 0;
    total_pause_total = 0;
  }

  -- reset_day_statistics of the director
  unfoldable pub reset_day : SimulationStats D → SimulationStats D
  reset_day st = record st {
    day_by_service = replicate service_count zero_service;
    day_users_served = 0;
    day_services_served = 0;
    day_services_not_served = 0;
    day_wait_minutes_sum = float.of_int (pos 0);
    day_service_minutes_sum = float.of_int (pos 0);
    day_pause_total = 0;
  }

  -- One served customer more in a service's statistics.
  unfoldable pub add_served : D → D → ServiceStats D → ServiceStats D
  add_served waited minutes s = record s {
    served = s.served + 1;
    wait_minutes_sum = float.add s.wait_minutes_sum waited;
    service_minutes_sum = float.add s.service_minutes_sum minutes;
  }

  -- serve_ticket of the operator, from lock_stats to unlock_stats
  unfoldable pub count_served : ℕ → D → D → SimulationStats D → SimulationStats D
  count_served service waited minutes st = record st {
    day_users_served = st.day_users_served + 1;
    total_users_served = st.total_users_served + 1;
    day_services_served = st.day_services_served + 1;
    total_services_served = st.total_services_served + 1;
    day_wait_minutes_sum = float.add st.day_wait_minutes_sum waited;
    total_wait_minutes_sum = float.add st.total_wait_minutes_sum waited;
    day_service_minutes_sum = float.add st.day_service_minutes_sum minutes;
    total_service_minutes_sum = float.add st.total_service_minutes_sum minutes;
    day_by_service = modify st.day_by_service service (add_served waited minutes);
    total_by_service = modify st.total_by_service service (add_served waited minutes);
  }

module _ {D : Type 0} where
  unfoldable pub add_request : ServiceStats D → ServiceStats D
  add_request s = record s { requests = s.requests + 1 }

  unfoldable pub add_not_served : ServiceStats D → ServiceStats D
  add_not_served s = record s { not_served = s.not_served + 1 }

  -- mark_request of the ticket dispenser
  unfoldable pub count_request : ℕ → SimulationStats D → SimulationStats D
  count_request service st = record st {
    day_by_service = modify st.day_by_service service add_request;
    total_by_service = modify st.total_by_service service add_request;
  }

  -- mark_not_served of the ticket dispenser, and the same lines in flush_pending_users
  unfoldable pub count_not_served : ℕ → SimulationStats D → SimulationStats D
  count_not_served service st = record st {
    day_services_not_served = st.day_services_not_served + 1;
    total_services_not_served = st.total_services_not_served + 1;
    day_by_service = modify st.day_by_service service add_not_served;
    total_by_service = modify st.total_by_service service add_not_served;
  }

  -- update_pause_statistics of the operator
  unfoldable pub count_pause : SimulationStats D → SimulationStats D
  count_pause st = record st {
    day_pause_total = st.day_pause_total + 1;
    total_pause_total = st.total_pause_total + 1;
  }

-- An update, with the values that its caller passes.
pub data Update (D : Type 0) : Type 0 where
  resets pauses : Update D
  requests refuses : ℕ → Update D
  serves : ℕ → D → D → Update D

module _ {D : Type 0} ⦃float : Floating D⦄ where
  unfoldable pub apply : Update D → SimulationStats D → SimulationStats D
  apply resets st = reset_day st
  apply pauses st = count_pause st
  apply (requests service) st = count_request service st
  apply (refuses service) st = count_not_served service st
  apply (serves service waited minutes) st = count_served service waited minutes st

  -- A history of updates, the first one first.
  unfoldable pub apply_all : List (Update D) → SimulationStats D → SimulationStats D
  apply_all [] st = st
  apply_all (u ∷ us) st = apply_all us (apply u st)
