-- ===== src/Config/Accepted.antt =====
-- Which configuration files read_config_file of src/director.c accepts, and what it then leaves in
-- shared memory for the other processes.
use Prim.Native.String.{String}
use operative_system_project.Prelude.{
  ◌≡◌, refl, false, none, arith, List, some, ◌↔◌, ◌++◌, inl, ◌∷◌, inr, ap,
}
use operative_system_project.Prelude.Int.{ℤ, pos, ◌≤ℤ◌}
use operative_system_project.Commons.{SimulationParameter, TerminationCause, clamp_percentage}
use operative_system_project.Config.{read_config_file, validate, unknown_parameter, check_assigned}
use operative_system_project.Config.Values.{
  AllKnown, last_values, is_known, assign_all-last_values, AllKnown-cases, assign_all_unknown,
}

-- What every process may rely on after the configuration has been read.
pub record IsUsable (c : SimulationParameter) : Type 0 where
  pub seats : pos 1 ≤ℤ c.nof_worker_seats
  pub workers : pos 1 ≤ℤ c.nof_workers
  pub users : pos 1 ≤ℤ c.nof_users
  pub duration : pos 1 ≤ℤ c.sim_duration
  pub nano_seconds : pos 1 ≤ℤ c.n_nano_seconds
  pub from_zero : pos 0 ≤ℤ c.p_serv_min
  pub ordered : c.p_serv_min ≤ℤ c.p_serv_max
  pub to_hundred : c.p_serv_max ≤ℤ pos 100
  pub fresh_day : c.current_day ≡ 0
  pub inactive : c.day_active ≡ false
  pub no_cause : c.termination_cause ≡ TerminationCause.running

-- What the file has to say for this.
pub record IsSensible (c : SimulationParameter) : Type 0 where
  pub seats : pos 1 ≤ℤ c.nof_worker_seats
  pub workers : pos 1 ≤ℤ c.nof_workers
  pub users : pos 1 ≤ℤ c.nof_users
  pub duration : pos 1 ≤ℤ c.sim_duration
  pub nano_seconds : pos 1 ≤ℤ c.n_nano_seconds
  pub interval : c.p_serv_min ≤ℤ c.p_serv_max

-- The structure after the checks: percentages brought into range, and no day begun.
unfoldable pub checked : SimulationParameter → SimulationParameter
checked c = record c {
  p_serv_min = clamp_percentage c.p_serv_min;
  p_serv_max = clamp_percentage c.p_serv_max;
  current_day = 0;
  day_active = false;
  termination_cause = TerminationCause.running;
}

-- `clamp_percentage` gives a percentage, keeps order, and leaves a percentage alone.
pub clamp_percentage_lem :
    (a b : ℤ)
    → a ≤ℤ b
    → (pos 0 ≤ℤ clamp_percentage a)
      × (clamp_percentage a ≤ℤ clamp_percentage b)
      × (clamp_percentage b ≤ℤ pos 100)
      × (pos 0 ≤ℤ a → b ≤ℤ pos 100 → clamp_percentage a ≡ a)
unfolding clamp_percentage
clamp_percentage_lem a b h = ground arith

validate_sensible : (c : SimulationParameter) → IsSensible c → validate c ≡ (checked c, none)
unfolding validate checked
validate_sensible c h = ground arith

validate_accepts : (c : SimulationParameter) → (validate c).1 ≡ none → IsSensible c
unfolding validate
validate_accepts c h = ground arith

checked-IsUsable : (c : SimulationParameter) → IsSensible c → IsUsable (checked c)
unfolding checked
checked-IsUsable c h = ground (arith, clamp_percentage_lem c.p_serv_min c.p_serv_max)

-- A key that is not known, behind keys that all are, is the error of read_config_file, whatever
-- stands behind it.
pub read_config_file_unknown :
    (c : SimulationParameter) (front : List (String × ℤ)) (k : String) (v : ℤ)
    (rest : List (String × ℤ))
    → AllKnown front
    → is_known k ≡ false
    → (read_config_file c (some (front ++ (k, v) ∷ rest))).1 ≡ some (unknown_parameter k)
unfolding read_config_file
read_config_file_unknown c front k v rest h u =
    ap (λ r. (check_assigned r).1) (assign_all_unknown c front k v rest h u)

module _ (c : SimulationParameter) (items : List (String × ℤ)) where
  read_known : AllKnown items → read_config_file c (some items) ≡ validate (last_values c items)
  unfolding read_config_file
  read_known h = ap check_assigned (assign_all-last_values c items h)

  -- A file that can be opened is accepted exactly if it has known keys only and the last values
  -- given are sensible.
  pub read_config_file_accepts :
      ((read_config_file c (some items)).1 ≡ none)
      ↔ (AllKnown items × IsSensible (last_values c items))
  read_config_file_accepts = (accepted, λ h. rw (read_known h.0, validate_sensible _ h.1))
    where
      accepted :
          (read_config_file c (some items)).1 ≡ none
          → AllKnown items × IsSensible (last_values c items)
      accepted e = elim (AllKnown-cases items) [
        | inl h ↦ (h, validate_accepts _ (rw (read_known h) at e))
        | inr (front, k, v, rest, q, h, u) ↦
            cc (rw q at e, read_config_file_unknown c front k v rest h u)
      ]

  -- If a file is accepted, every process finds usable parameters: those that the last line of each
  -- key gives, the percentages brought into range.
  pub read_config_file-IsUsable :
      (read_config_file c (some items)).1 ≡ none
      → ((read_config_file c (some items)).0 ≡ checked (last_values c items))
        × IsUsable (read_config_file c (some items)).0
  read_config_file-IsUsable e =
      let (h, sensible) = read_config_file_accepts.0 e in
      rw (read_known h, validate_sensible _ sensible) (refl, checked-IsUsable _ sensible)
