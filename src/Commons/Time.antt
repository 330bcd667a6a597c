-- ===== src/Commons/Time.antt =====
-- Simulated time: minutes_to_ns of src/headers/commons.h, and the split of a duration into the
-- fields of a timespec that sleep_for_day_duration (src/director.c), sleep_service_duration
-- (src/operator.c) and sleep_until_arrival (src/user.c) pass to nanosleep.
use native.Mathlib.Nat.{mul-le-mul}
use operative_system_project.Prelude.{ℕ, ◌+◌, ◌*◌, ◌/◌, ◌%◌, ◌^◌, ◌≤◌, ◌<◌, ◌≡◌, refl, arith}

-- minutes_to_ns, for the values that are not negative: the low 64 bits of the product
unfoldable pub minutes_to_ns : ℕ → ℕ → ℕ
minutes_to_ns minutes minute_ns = (minutes * minute_ns) % 2 ^ 64

-- timespec
pub record Timespec : Type 0 where
  pub tv_sec : ℕ
  pub tv_nsec : ℕ

unfoldable pub to_timespec : ℕ → Timespec
to_timespec duration_ns = record {
  tv_sec = duration_ns / 1000000000;
  tv_nsec = duration_ns % 1000000000;
}

-- For at most the 480 minutes of a day, each of an int number of nanoseconds, minutes_to_ns is the
-- product, which a long long holds, the request is one that nanosleep accepts, and it asks for as
-- many nanoseconds as the product.
pub sleep_request :
    (minutes minute_ns : ℕ)
    → minutes ≤ 480
    → minute_ns < 2 ^ 31
    → let d = minutes_to_ns minutes minute_ns in
      (d ≡ minutes * minute_ns)
      × (d < 2 ^ 63)
      × ((to_timespec d).tv_nsec < 1000000000)
      × ((to_timespec d).tv_sec * 1000000000 + (to_timespec d).tv_nsec ≡ minutes * minute_ns)
unfolding minutes_to_ns to_timespec
sleep_request minutes minute_ns h k =
    let low : minutes * minute_ns ≤ 480 * 2 ^ 31 = mul-le-mul {m₂ = 2 ^ 31} h (omega (arith, k)) in
    let whole : (minutes * minute_ns) % 2 ^ 64 ≡ minutes * minute_ns = omega (arith, low) in
    rw whole (refl, omega (arith, low), omega arith, omega arith)
