-- ===== src/Logger/Entry/Exact.antt =====
-- What vlogx_impl of src/logger.c writes, if vsnprintf prints the text as the C standard says.
use operative_system_project.Prelude.{
  ℕ, zero, suc, ◌+◌, ◌-◌, ◌≤◌, ◌<◌, ◌≡◌, refl, ◌||◌, ◌&&◌, Bool, true, false, Bool-cases, inl, inr,
  none, some, ltb, leb, arith, [], ◌∷◌, Option, if◌then◌else◌, length, ap, ◌∙◌, not, ltb→lt, lt→ltb,
}
use operative_system_project.Prelude.Int.{pos, negsuc}
use operative_system_project.Logger.{Text, take, write_buffer}
use operative_system_project.Logger.Format.{LogLevel, prefix_of}
use operative_system_project.Logger.Entry.{
  Library, Stamp, Logged, format, vlogx_impl, new_size, log_max_bufsz, log_initial_bufsz, stackbuf,
  heap_block, formatted, gave_up, release, allocates, held_after, Buffer, enter,
}

-- vsnprintf stores as much of the text as fits before the closing zero, and returns its length.
pub record Prints (lib : Library) (whole : Text) : Type 0 where
  pub stored :
      (size : ℕ) → 0 < size → lib.vsnprintf size ≡ some (length whole, take (size - 1) whole)

-- The text goes to write_buffer, and no block is left.
abbrev pub entered : Stamp → LogLevel → Option Text → Text → Option Logged
entered stamp level file whole =
    elim (write_buffer file stamp.errno (prefix_of level stamp.pid stamp.ts) whole) [
      | none ↦ none
      | some (rc, file') ↦ some (record { rc = pos rc; file = file'; held = 0 })
    ]

-- There is a buffer for the text: the array on the stack, or one block of the heap.
abbrev pub has_room : Library → Text → Bool
has_room lib whole =
    ltb (length whole) log_initial_bufsz
    || (leb (length whole + 1) log_max_bufsz
        && lib.malloc (new_size log_initial_bufsz (length whole)))

take_all : (k : ℕ) (t : Text) → length t ≤ k → take k t ≡ t
unfolding take
take_all zero [] h = refl
take_all zero (c ∷ t) h = absurd (omega (arith, h))
take_all (suc k) [] h = refl
take_all (suc k) (c ∷ t) h = ap (λ u. c ∷ u) (take_all k t (omega (arith, h)))

module _ (lib : Library) (whole : Text) (prints : Prints lib whole) where
  -- The outcome of a round, by the size of the buffer.
  whole_fits :
      (fuel bufsz held : ℕ) (buf : Buffer)
      → length whole < bufsz
      → format lib (suc fuel) buf bufsz held ≡ some (formatted whole buf held)
  unfolding format
  whole_fits fuel bufsz held buf h =
      rw (prints.stored bufsz (omega (arith, h)), format)
        (rw (lt→ltb (length whole) bufsz h)
          (ap (λ t. some (formatted t buf held)) (take_all (bufsz - 1) whole (omega (arith, h)))))

  new_size-fits : length whole < new_size log_initial_bufsz (length whole)
  unfolding new_size
  new_size-fits = ground arith

  new_size-bound :
      log_initial_bufsz ≤ length whole
      → ltb log_max_bufsz (new_size log_initial_bufsz (length whole))
        ≡ not (leb (length whole + 1) log_max_bufsz)
  unfolding new_size
  new_size-bound h = ground arith

  long_format :
      (more : ℕ)
      → log_initial_bufsz ≤ length whole
      → format lib (suc (suc more)) stackbuf log_initial_bufsz 0 ≡ (
          if leb (length whole + 1) log_max_bufsz
            && lib.malloc (new_size log_initial_bufsz (length whole))
          then some (formatted whole heap_block 1)
          else some (gave_up 0))
  unfolding format release allocates held_after
  long_format more h =
      rw (prints.stored log_initial_bufsz (omega arith), format)
        (rw
          (
            not_short,
            whole_fits more (new_size log_initial_bufsz (length whole)) 1 heap_block new_size-fits,
          )
          (rw (new_size-bound h) (ground arith)))
    where
      not_short : ltb (length whole) log_initial_bufsz ≡ false
      not_short = ground (arith, h)

  -- If vsnprintf prints the text as documented, vlogx_impl needs two rounds. A text that the array on
  -- the stack holds, or for which malloc grants a block and which is shorter than LOG_MAX_BUFSZ, goes
  -- whole to write_buffer, whose result is returned; any other text leaves the log as it is, and the
  -- result is -1. No block is left.
  pub vlogx_impl_enters :
      (more : ℕ) (stamp : Stamp) (level : LogLevel) (file : Option Text)
      → vlogx_impl lib (suc (suc more)) stamp level file ≡ (
          if has_room lib whole
          then entered stamp level file whole
          else some (record { rc = negsuc 0; file = file; held = 0 }))
  unfolding vlogx_impl enter release
  vlogx_impl_enters more stamp level file =
      elim (Bool-cases (ltb (length whole) log_initial_bufsz)) [
        | inl short ↦
            ap (enter stamp level file)
              (whole_fits (suc more) log_initial_bufsz 0 stackbuf (ltb→lt _ _ short))
            ∙ rw short refl
        | inr long ↦
            ap (enter stamp level file) (long_format more (ground arith))
            ∙ rw long (
                by_room (
                  leb (length whole + 1) log_max_bufsz
                  && lib.malloc (new_size log_initial_bufsz (length whole))))
      ]
    where
      by_room :
          (room : Bool)
          → enter stamp level file
              (if room then some (formatted whole heap_block 1) else some (gave_up 0))
            ≡ (if room
                then entered stamp level file whole
                else some (record { rc = negsuc 0; file = file; held = 0 }))
      by_room true = refl
      by_room false = refl
