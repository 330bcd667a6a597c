-- ===== src/Operator/Duration.antt =====
-- How long a service may take, by random_service_duration_minutes of src/operator.c.
use operative_system_project.Prelude.{ℕ, ◌≤◌, ◌<◌, ◌≡◌, ◌+◌, ◌/◌, ◌-◌, arith, get_or, suc, zero}
use operative_system_project.Commons.{service_count, service_mean_minutes}
use operative_system_project.Operator.{random_service_duration_minutes}

abbrev pub mean_of : ℕ → ℕ
mean_of service = get_or service_mean_minutes service 0

-- The minutes that are within half of the mean of the service.
pub record IsNear (service minutes : ℕ) : Type 0 where
  pub at_least : mean_of service / 2 ≤ minutes
  pub at_most : minutes ≤ mean_of service + mean_of service / 2

-- A known service takes a positive number of minutes within half of its mean, whatever rand
-- returns.
pub duration-IsNear :
    (service draw : ℕ)
    → service < service_count
    → (1 ≤ random_service_duration_minutes service draw)
      × IsNear service (random_service_duration_minutes service draw)
unfolding random_service_duration_minutes
duration-IsNear zero draw h = (ground arith, ground arith)
duration-IsNear (suc zero) draw h = (ground arith, ground arith)
duration-IsNear (suc (suc zero)) draw h = (ground arith, ground arith)
duration-IsNear (suc (suc (suc zero))) draw h = (ground arith, ground arith)
duration-IsNear (suc (suc (suc (suc zero)))) draw h = (ground arith, ground arith)
duration-IsNear (suc (suc (suc (suc (suc zero))))) draw h = (ground arith, ground arith)
duration-IsNear (suc (suc (suc (suc (suc (suc n)))))) draw h = omega arith

-- Every number of minutes within half of the mean of a known service is what it takes for some
-- result of rand up to 32,767, which RAND_MAX is at least.
pub duration_reached :
    (service minutes : ℕ)
    → service < service_count
    → IsNear service minutes
    → (draw : ℕ) × (draw ≤ 32767) × (random_service_duration_minutes service draw ≡ minutes)
unfolding random_service_duration_minutes
duration_reached zero m h near =
    (m - mean_of 0 / 2, omega (arith, near.at_most), ground (arith, near.at_least, near.at_most))
duration_reached (suc zero) m h near =
    (m - mean_of 1 / 2, omega (arith, near.at_most), ground (arith, near.at_least, near.at_most))
duration_reached (suc (suc zero)) m h near =
    (m - mean_of 2 / 2, omega (arith, near.at_most), ground (arith, near.at_least, near.at_most))
duration_reached (suc (suc (suc zero))) m h near =
    (m - mean_of 3 / 2, omega (arith, near.at_most), ground (arith, near.at_least, near.at_most))
duration_reached (suc (suc (suc (suc zero)))) m h near =
    (m - mean_of 4 / 2, omega (arith, near.at_most), ground (arith, near.at_least, near.at_most))
duration_reached (suc (suc (suc (suc (suc zero))))) m h near =
    (m - mean_of 5 / 2, omega (arith, near.at_most), ground (arith, near.at_least, near.at_most))
duration_reached (suc (suc (suc (suc (suc (suc n)))))) m h near = (0, omega arith, omega arith)
