-- ===== src/Logger/Entry.antt =====
-- vlogx_impl, logx and the functions by level of src/logger.c, and log_init and log_stop. The format
-- and its arguments are fixed, so vsnprintf is a function of the size of the buffer; it, the
-- allocator and fopen are the C library's, and arguments here. What goes to stderr is left out, as
-- is the system log. The loop of vlogx_impl is on fuel; Entry/Ends shows how much is enough.
pub mod Ends
pub mod Exact
pub mod Session
mod Tests
use operative_system_project.Prelude.{
  ℕ, zero, suc, ◌+◌, ◌-◌, ◌*◌, Bool, true, false, not, List, [], ◌∷◌, Option, none, some, ltb,
  if◌then◌else◌,
}
use operative_system_project.Prelude.Int.{ℤ, pos, negsuc}
use operative_system_project.Logger.{Text, write_buffer}
use operative_system_project.Logger.Format.{LogLevel, prefix_of}

-- LOG_INITIAL_BUFSZ
abbrev pub log_initial_bufsz : ℕ
log_initial_bufsz = 256

-- LOG_MAX_BUFSZ
abbrev pub log_max_bufsz : ℕ
log_max_bufsz = 1048576

-- What the loop of vlogx_impl calls. `vsnprintf size` is the length of the whole text and what the
-- buffer holds, or `none` for a negative result; malloc and realloc may refuse a size.
pub record Library : Type 0 where
  pub vsnprintf : ℕ → Option (ℕ × Text)
  pub malloc : ℕ → Bool
  pub realloc : ℕ → Bool

-- `buf`: the array on the stack, or a block of the heap.
pub data Buffer : Type 0 where
  stackbuf heap_block : Buffer

-- How the loop ends: with the text in a buffer, or with the result -1. The number is that of the
-- blocks that the function holds then.
pub data Formatted : Type 0 where
  formatted : Text → Buffer → ℕ → Formatted
  gave_up : ℕ → Formatted

-- `if (buf != stackbuf) free(buf);`, of the number of blocks held.
unfoldable pub release : Buffer → ℕ → ℕ
release stackbuf held = held
release heap_block held = held - 1

-- malloc for the first block, and realloc, which takes the old block over, for the others.
unfoldable pub allocates : Library → Buffer → ℕ → Bool
allocates lib stackbuf size = lib.malloc size
allocates lib heap_block size = lib.realloc size

unfoldable pub held_after : Buffer → ℕ → ℕ
held_after stackbuf held = held + 1
held_after heap_block held = held

-- new_sz
unfoldable pub new_size : ℕ → ℕ → ℕ
new_size bufsz n = if ltb (bufsz * 2) (n + 1) then n + 1 else bufsz * 2

-- The loop of vlogx_impl.
unfoldable pub format : Library → ℕ → Buffer → ℕ → ℕ → Option Formatted
format lib zero buf bufsz held = none
format lib (suc fuel) buf bufsz held = elim (lib.vsnprintf bufsz) [
  | none ↦ some (gave_up (release buf held))
  | some (n, text) ↦
      let rest = format lib fuel heap_block (new_size bufsz n) (held_after buf held) in
      if ltb n bufsz
      then some (formatted text buf held)
      else if ltb log_max_bufsz (new_size bufsz n)
      then some (gave_up (release buf held))
      else if not (allocates lib buf (new_size bufsz n))
      then some (gave_up (release buf held))
      else rest
]

-- The result of a call, the file after it, and the blocks that are still held.
pub record Logged : Type 0 where
  pub rc : ℤ
  pub file : Option Text
  pub held : ℕ

-- What write_buffer is given besides the text: errno, the process id and the time as printed.
pub record Stamp : Type 0 where
  pub errno : ℕ
  pub pid : Text
  pub ts : Text

-- vlogx_impl after its loop.
unfoldable pub enter : Stamp → LogLevel → Option Text → Option Formatted → Option Logged
enter stamp level file none = none
enter stamp level file (some (gave_up held)) =
    some (record { rc = negsuc 0; file = file; held = held })
enter stamp level file (some (formatted text buf held)) =
    elim (write_buffer file stamp.errno (prefix_of level stamp.pid stamp.ts) text) [
      | none ↦ none
      | some (rc, file') ↦ some (record { rc = pos rc; file = file'; held = release buf held })
    ]

-- vlogx_impl, with at most the given number of rounds.
unfoldable pub vlogx_impl : Library → ℕ → Stamp → LogLevel → Option Text → Option Logged
vlogx_impl lib fuel stamp level file =
    enter stamp level file (format lib fuel stackbuf log_initial_bufsz 0)

-- logx
unfoldable pub logx : Library → ℕ → Stamp → LogLevel → Option Text → Option Logged
logx lib fuel stamp level file = vlogx_impl lib fuel stamp level file

-- syserr_log
unfoldable pub syserr_log : Library → ℕ → Stamp → Option Text → Option Logged
syserr_log lib fuel stamp file = vlogx_impl lib fuel stamp LogLevel.sys_err file

-- sysinfo_log
unfoldable pub sysinfo_log : Library → ℕ → Stamp → Option Text → Option Logged
sysinfo_log lib fuel stamp file = vlogx_impl lib fuel stamp LogLevel.sys_info file

-- apperr_log
unfoldable pub apperr_log : Library → ℕ → Stamp → Option Text → Option Logged
apperr_log lib fuel stamp file = vlogx_impl lib fuel stamp LogLevel.app_err file

-- appinfo_log
unfoldable pub appinfo_log : Library → ℕ → Stamp → Option Text → Option Logged
appinfo_log lib fuel stamp file = vlogx_impl lib fuel stamp LogLevel.app_info file

-- EINVAL and EBADF
abbrev pub einval : ℕ
einval = 22

abbrev pub ebadf : ℕ
ebadf = 9

-- log_init, without DEBUGLOG: the result and `fp`. `fopen` is what the file holds, to which the log
-- is appended, or `none` where the file cannot be opened.
unfoldable pub log_init : (Text → Option Text) → Option Text → Option Text → ℕ × Option Text
log_init fopen none fp = (einval, fp)
log_init fopen (some path) fp = elim (fopen path) [
  | none ↦ (ebadf, none)
  | some old ↦ (0, some old)
]
