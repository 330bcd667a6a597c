-- ===== src/Config/Values.antt =====
-- The value that the loop leaves in each field: that of the last line with its key.
use text.Mathlib.Text.{◌==◌}
use text.Mathlib.TextEquality.{eq_iff}
use Prim.Native.String.{String}
use operative_system_project.Prelude.{
  Bool, false, ◌||◌, ◌≡◌, refl, none, some, List, [], ◌∷◌, if◌then◌else◌, subst, sym, Bool-cases,
  inl, inr, true, ◌⊎◌, ap, ◌++◌,
}
use operative_system_project.Prelude.Int.{ℤ}
use operative_system_project.Commons.{SimulationParameter}
use operative_system_project.Config.{assign, assign_all, unknown_parameter}

-- The value of the last pair with the key, or else the given one.
unfoldable pub last_value : String → List (String × ℤ) → ℤ → ℤ
last_value k [] v = v
last_value k ((j, w) ∷ rest) v = last_value k rest (if j == k then w else v)

unfoldable pub is_known : String → Bool
is_known k =
    k == "NOF_WORKER_SEATS"
    || (k == "NOF_WORKERS"
        || (k == "NOF_USERS"
            || (k == "NOF_PAUSE"
                || (k == "P_SERV_MIN"
                    || (k == "P_SERV_MAX"
                        || (k == "SIM_DURATION"
                            || (k == "N_NANO_SECONDS" || k == "EXPLODE_THRESHOLD")))))))

-- The structure with each field set by the last line of its key.
unfoldable pub last_values : SimulationParameter → List (String × ℤ) → SimulationParameter
last_values c items = record c {
  nof_worker_seats = last_value "NOF_WORKER_SEATS" items c.nof_worker_seats;
  nof_workers = last_value "NOF_WORKERS" items c.nof_workers;
  nof_users = last_value "NOF_USERS" items c.nof_users;
  nof_pause = last_value "NOF_PAUSE" items c.nof_pause;
  p_serv_min = last_value "P_SERV_MIN" items c.p_serv_min;
  p_serv_max = last_value "P_SERV_MAX" items c.p_serv_max;
  sim_duration = last_value "SIM_DURATION" items c.sim_duration;
  n_nano_seconds = last_value "N_NANO_SECONDS" items c.n_nano_seconds;
  explode_threshold = last_value "EXPLODE_THRESHOLD" items c.explode_threshold;
}

-- A statement about a text, from that about a given one and that about all others.
by_text {ℓ} : (P : String → Type ℓ) (j k : String) → P j → ((k == j) ≡ false → P k) → P k
by_text P j k here other = elim (Bool-cases (k == j)) [
  | inl e ↦ subst P (sym ((eq_iff k j).0 e)) here
  | inr e ↦ other e
]

abbrev Assigned : SimulationParameter → ℤ → String → Type 0
Assigned c v k = assign c k v ≡ (if is_known k then some (last_values c ((k, v) ∷ [])) else none)

assign-last_values : (c : SimulationParameter) (k : String) (v : ℤ) → Assigned c v k
unfolding assign is_known last_values last_value
assign-last_values c k v = by_text (Assigned c v) "NOF_WORKER_SEATS" k refl λ e1.
    by_text (Assigned c v) "NOF_WORKERS" k refl λ e2.
      by_text (Assigned c v) "NOF_USERS" k refl λ e3.
        by_text (Assigned c v) "NOF_PAUSE" k refl λ e4.
          by_text (Assigned c v) "P_SERV_MIN" k refl λ e5.
            by_text (Assigned c v) "P_SERV_MAX" k refl λ e6.
              by_text (Assigned c v) "SIM_DURATION" k refl λ e7.
                by_text (Assigned c v) "N_NANO_SECONDS" k refl λ e8.
                  by_text (Assigned c v) "EXPLODE_THRESHOLD" k refl
                    λ e9. rw (e1, e2, e3, e4, e5, e6, e7, e8, e9)

-- Every key of the file is one that the program knows.
abbrev pub AllKnown : List (String × ℤ) → Type 0
AllKnown [] = Unit
AllKnown ((k, v) ∷ rest) = (is_known k ≡ true) × AllKnown rest

last_values-nil : (c : SimulationParameter) → c ≡ last_values c []
unfolding last_values last_value
last_values-nil c = refl

last_values-cons :
    (c : SimulationParameter) (k : String) (v : ℤ) (rest : List (String × ℤ))
    → last_values (last_values c ((k, v) ∷ [])) rest ≡ last_values c ((k, v) ∷ rest)
unfolding last_values last_value
last_values-cons c k v rest = refl

pub assign_all-last_values :
    (c : SimulationParameter) (items : List (String × ℤ))
    → AllKnown items
    → assign_all c items ≡ (last_values c items, none)
unfolding assign_all
assign_all-last_values c [] h = ap (λ c'. (c', none)) (last_values-nil c)
assign_all-last_values c ((k, v) ∷ rest) h =
    rw
      (
        assign_all,
        assign-last_values c k v,
        h.0,
        assign_all-last_values (last_values c ((k, v) ∷ [])) rest h.1,
      )
      (ap (λ c'. (c', none)) (last_values-cons c k v rest))

-- The loop stops at the first key that it does not know.
pub assign_all_unknown :
    (c : SimulationParameter) (items : List (String × ℤ)) (k : String) (v : ℤ)
    (rest : List (String × ℤ))
    → AllKnown items
    → is_known k ≡ false
    → assign_all c (items ++ (k, v) ∷ rest) ≡ (last_values c items, some (unknown_parameter k))
unfolding assign_all
assign_all_unknown c [] k v rest h u =
    rw (assign_all, assign-last_values c k v, u)
      (ap (λ c'. (c', some (unknown_parameter k))) (last_values-nil c))
assign_all_unknown c ((j, w) ∷ items) k v rest h u =
    rw
      (
        assign_all,
        assign-last_values c j w,
        h.0,
        assign_all_unknown (last_values c ((j, w) ∷ [])) items k v rest h.1 u,
      )
      (ap (λ c'. (c', some (unknown_parameter k))) (last_values-cons c j w items))

-- A list of keys and values either has known keys only, or a first key that is not known.
pub AllKnown-cases :
    (items : List (String × ℤ))
    → AllKnown items
      ⊎ ((front : List (String × ℤ)) × (k : String) × (v : ℤ) × (rest : List (String × ℤ)) × (items
            ≡ front ++ (k, v) ∷ rest)
          × AllKnown front
          × (is_known k ≡ false))
AllKnown-cases [] = inl tt
AllKnown-cases ((k, v) ∷ rest) = elim (Bool-cases (is_known k)) [
  | inr u ↦ inr ([], k, v, rest, refl, tt, u)
  | inl e ↦ elim (AllKnown-cases rest) [
    | inl h ↦ inl (e, h)
    | inr (front, j, w, back, q, h, u) ↦
        inr ((k, v) ∷ front, j, w, back, ap (◌∷◌ (k, v)) q, (e, h), u)
  ]
]
