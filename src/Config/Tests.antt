-- ===== src/Config/Tests.antt =====
-- A configuration file whose second line for a key counts, and one with a key that is not known.
use Prim.Native.String.{String}
use operative_system_project.Prelude.{◌≡◌, refl, [], ◌∷◌, List, false, some, none, ◌↔◌, ◌++◌}
use operative_system_project.Prelude.Int.{pos, ℤ}
use operative_system_project.Config.Accepted.{
  read_config_file_accepts, read_config_file-IsUsable, read_config_file_unknown, checked,
  IsSensible, IsUsable,
}
use operative_system_project.Commons.{SimulationParameter, TerminationCause}
use operative_system_project.Config.{
  read_config_file, assign_all, assign, unknown_parameter, check_assigned, validate,
}
use operative_system_project.Config.Values.{AllKnown, is_known, last_values}

abbrev unset : SimulationParameter
unset = record {
  nof_worker_seats = pos 0;
  nof_workers = pos 0;
  nof_users = pos 0;
  nof_pause = pos 0;
  p_serv_min = pos 0;
  p_serv_max = pos 0;
  sim_duration = pos 0;
  n_nano_seconds = pos 0;
  explode_threshold = pos 0;
  current_day = 0;
  day_active = false;
  termination_cause = TerminationCause.running;
}

abbrev file : List (String × ℤ)
file =
    ("NOF_WORKER_SEATS", pos 0)
    ∷ ("NOF_WORKER_SEATS", pos 3)
    ∷ ("NOF_WORKERS", pos 4)
    ∷ ("NOF_USERS", pos 5)
    ∷ ("P_SERV_MAX", pos 150)
    ∷ ("SIM_DURATION", pos 2)
    ∷ ("N_NANO_SECONDS", pos 1000)
    ∷ []

abbrev usual : List (String × ℤ)
usual = ("NOF_USERS", pos 5) ∷ []

file_accepted : (read_config_file unset (some file)).1 ≡ none
unfolding read_config_file assign_all assign check_assigned validate
file_accepted = refl

read_config_file_accepts_example :
    ((read_config_file unset (some file)).1 ≡ none)
    ↔ (AllKnown file × IsSensible (last_values unset file))
read_config_file_accepts_example = read_config_file_accepts unset file

read_config_file-IsUsable_example :
    ((read_config_file unset (some file)).0 ≡ checked (last_values unset file))
    × IsUsable (read_config_file unset (some file)).0
read_config_file-IsUsable_example = read_config_file-IsUsable unset file file_accepted

usual_known : AllKnown usual
unfolding is_known
usual_known = (refl, tt)

colour_unknown : is_known "COLOUR" ≡ false
unfolding is_known
colour_unknown = refl

read_config_file_unknown_example :
    (read_config_file unset (some (usual ++ ("COLOUR", pos 1) ∷ file))).1
    ≡ some (unknown_parameter "COLOUR")
read_config_file_unknown_example =
    read_config_file_unknown unset usual "COLOUR" (pos 1) file usual_known colour_unknown
