-- ===== src/Config.antt =====
-- read_config_file of src/director.c. What fscanf hands out is the argument: `none` if the file
-- cannot be opened, else the key and int of each round of the loop, up to the first round in which
-- fscanf does not match both.
pub mod Values
pub mod Accepted
mod Tests
use text.Mathlib.Text.{◌==◌}
use Prim.Native.String.{String}
use operative_system_project.Prelude.{
  Bool, true, false, ◌||◌, Option, none, some, List, [], ◌∷◌, if◌then◌else◌,
}
use operative_system_project.Prelude.Int.{ℤ, pos, ltb_ℤ, leb_ℤ}
use operative_system_project.Commons.{SimulationParameter, TerminationCause, clamp_percentage}

pub data ConfigError : Type 0 where
  cannot_open : ConfigError
  unknown_parameter : String → ConfigError
  invalid_configuration invalid_interval : ConfigError

-- The body of the loop: `none` for a key that the program does not know.
unfoldable pub assign : SimulationParameter → String → ℤ → Option SimulationParameter
assign c key value =
    if key == "NOF_WORKER_SEATS"
    then some (record c { nof_worker_seats = value })
    else if key == "NOF_WORKERS"
    then some (record c { nof_workers = value })
    else if key == "NOF_USERS"
    then some (record c { nof_users = value })
    else if key == "NOF_PAUSE"
    then some (record c { nof_pause = value })
    else if key == "P_SERV_MIN"
    then some (record c { p_serv_min = value })
    else if key == "P_SERV_MAX"
    then some (record c { p_serv_max = value })
    else if key == "SIM_DURATION"
    then some (record c { sim_duration = value })
    else if key == "N_NANO_SECONDS"
    then some (record c { n_nano_seconds = value })
    else if key == "EXPLODE_THRESHOLD"
    then some (record c { explode_threshold = value })
    else none

-- The loop. The structure is in shared memory, so it is a result beside the error.
unfoldable pub assign_all :
    SimulationParameter → List (String × ℤ) → SimulationParameter × Option ConfigError
assign_all c [] = (c, none)
assign_all c ((key, value) ∷ rest) = elim (assign c key value) [
  | none ↦ (c, some (unknown_parameter key))
  | some c' ↦ assign_all c' rest
]

-- The checks behind the loop, and the fields that the file does not set.
unfoldable pub validate : SimulationParameter → SimulationParameter × Option ConfigError
validate c =
    if leb_ℤ c.nof_worker_seats (pos 0)
      || (leb_ℤ c.nof_workers (pos 0)
          || (leb_ℤ c.nof_users (pos 0)
              || (leb_ℤ c.sim_duration (pos 0) || leb_ℤ c.n_nano_seconds (pos 0))))
    then (c, some invalid_configuration)
    else if ltb_ℤ c.p_serv_max c.p_serv_min
    then (c, some invalid_interval)
    else (
      record c {
        p_serv_min = clamp_percentage c.p_serv_min;
        p_serv_max = clamp_percentage c.p_serv_max;
        current_day = 0;
        day_active = false;
        termination_cause = TerminationCause.running;
      },
      none,
    )

-- From the loop on: an error of the loop is the result, else the checks decide.
unfoldable pub check_assigned :
    SimulationParameter × Option ConfigError → SimulationParameter × Option ConfigError
check_assigned (c, some problem) = (c, some problem)
check_assigned (c, none) = validate c

unfoldable pub read_config_file :
    SimulationParameter → Option (List (String × ℤ)) → SimulationParameter × Option ConfigError
unfolding check_assigned
read_config_file c none = (c, some cannot_open)
read_config_file c (some items) = check_assigned (assign_all c items)
