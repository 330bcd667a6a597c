-- ===== src/Logger/Format.antt =====
-- The levels of src/headers/logger.h and the prefix that write_buffer of src/logger.c puts before
-- the first line of a text.
use operative_system_project.Prelude.{
  ℕ, ◌+◌, ◌-◌, ◌≤◌, ◌<◌, ◌≡◌, refl, [], ◌∷◌, ◌++◌, length, leb, if◌then◌else◌, arith, length-append,
  false, ap, ◌∙◌,
}
use operative_system_project.Logger.{Text, take, prefix_bufsz}

-- LOG_TS_BUFSZ
abbrev pub log_ts_bufsz : ℕ
log_ts_bufsz = 64

-- log_level
pub data LogLevel : Type 0 where
  debug trace app_info app_err sys_info sys_err : LogLevel

-- get_log_level
unfoldable pub get_log_level : LogLevel → Text
get_log_level LogLevel.debug = 68 ∷ 69 ∷ 66 ∷ 85 ∷ 71 ∷ []
get_log_level LogLevel.trace = 84 ∷ 82 ∷ 65 ∷ 67 ∷ 69 ∷ []
get_log_level LogLevel.app_err = 65 ∷ 80 ∷ 80 ∷ 69 ∷ 82 ∷ []
get_log_level LogLevel.sys_err = 83 ∷ 89 ∷ 83 ∷ 69 ∷ 82 ∷ []
get_log_level LogLevel.sys_info = 83 ∷ 89 ∷ 83 ∷ 73 ∷ 78 ∷ []
get_log_level LogLevel.app_info = 65 ∷ 80 ∷ 80 ∷ 73 ∷ 78 ∷ []

-- "[%s] - [PID:%d] - [%s] --> ", of the level, the printed process id and the time stamp.
abbrev pub full_prefix : LogLevel → Text → Text → Text
full_prefix level pid ts =
    91 ∷ get_log_level level
    ++ 93 ∷ 32 ∷ 45 ∷ 32 ∷ 91 ∷ 80 ∷ 73 ∷ 68 ∷ 58 ∷ pid
    ++ 93 ∷ 32 ∷ 45 ∷ 32 ∷ 91 ∷ ts
    ++ 93 ∷ 32 ∷ 45 ∷ 45 ∷ 62 ∷ 32 ∷ []

-- The prefix of write_buffer, with "[%s] --> " for a prefix that does not fit. snprintf leaves at
-- most PREFIX_BUFSZ - 1 bytes in the array.
unfoldable pub prefix_of : LogLevel → Text → Text → Text
prefix_of level pid ts =
    if leb prefix_bufsz (length (full_prefix level pid ts))
    then take (prefix_bufsz - 1) (91 ∷ ts ++ 93 ∷ 32 ∷ 45 ∷ 45 ∷ 62 ∷ 32 ∷ [])
    else full_prefix level pid ts

length-get_log_level : (level : LogLevel) → length (get_log_level level) ≡ 5
unfolding get_log_level
length-get_log_level LogLevel.debug = refl
length-get_log_level LogLevel.trace = refl
length-get_log_level LogLevel.app_err = refl
length-get_log_level LogLevel.sys_err = refl
length-get_log_level LogLevel.sys_info = refl
length-get_log_level LogLevel.app_info = refl

length-full_prefix :
    (level : LogLevel) (pid ts : Text)
    → length (full_prefix level pid ts) ≡ 26 + length pid + length ts
length-full_prefix level pid ts = omega (
  arith,
  length-append (of_level ++ of_pid ++ of_time) (93 ∷ 32 ∷ 45 ∷ 45 ∷ 62 ∷ 32 ∷ []),
  length-append (of_level ++ of_pid) of_time,
  length-append of_level of_pid,
  length-get_log_level level,
)
  where
    of_level : Text
    of_level = 91 ∷ get_log_level level

    of_pid : Text
    of_pid = 93 ∷ 32 ∷ 45 ∷ 32 ∷ 91 ∷ 80 ∷ 73 ∷ 68 ∷ 58 ∷ pid

    of_time : Text
    of_time = 93 ∷ 32 ∷ 45 ∷ 32 ∷ 91 ∷ ts

-- A process id of at most 11 characters and a time stamp that fits into LOG_TS_BUFSZ leave the
-- prefix whole at every level: it is the level, the process id and the time, and its length, the
-- number of dashes of the next lines, is less than PREFIX_BUFSZ.
pub prefix_of-full :
    (level : LogLevel) (pid ts : Text)
    → length pid ≤ 11
    → length ts < log_ts_bufsz
    → (prefix_of level pid ts ≡ full_prefix level pid ts)
      × (length (prefix_of level pid ts) ≡ 26 + length pid + length ts)
      × (length (prefix_of level pid ts) < prefix_bufsz)
unfolding prefix_of
prefix_of-full level pid ts short early =
    let n = length-full_prefix level pid ts in
    let whole : prefix_of level pid ts ≡ full_prefix level pid ts = rw (fits n) refl in
    (whole, ap length whole ∙ n, omega (arith, ap length whole, n, short, early))
  where
    fits :
        length (full_prefix level pid ts) ≡ 26 + length pid + length ts
        → leb prefix_bufsz (length (full_prefix level pid ts)) ≡ false
    fits n = ground (arith, short, early)
