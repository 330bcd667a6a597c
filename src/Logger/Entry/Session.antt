-- ===== src/Logger/Entry/Session.antt =====
-- log_init of src/logger.c and a text logged after it.
use operative_system_project.Prelude.{ℕ, suc, ◌≡◌, refl, true, none, some, List, ◌++◌, Option, ◌∙◌}
use operative_system_project.Prelude.Int.{pos}
use operative_system_project.Logger.{Text, write_buffer}
use operative_system_project.Logger.Lines.{AreLines, joined, visible, print_all, write_buffer_lines}
use operative_system_project.Logger.Format.{LogLevel, prefix_of}
use operative_system_project.Logger.Entry.{Library, Stamp, log_init, logx, ebadf}
use operative_system_project.Logger.Entry.Exact.{Prints, has_room, entered, vlogx_impl_enters}

module _ (lib : Library) (whole : Text) (prints : Prints lib whole)
    (room : has_room lib whole ≡ true) (fopen : Text → Option Text) (path : Text)
    (before : Option Text) (more : ℕ) (stamp : Stamp) (level : LogLevel) where
  logx_enters :
      (file : Option Text)
      → logx lib (suc (suc more)) stamp level file ≡ entered stamp level file whole
  unfolding logx
  logx_enters file = vlogx_impl_enters lib whole prints more stamp level file ∙ rw room refl

  -- A file that can be opened: log_init returns 0, and a text for which there is a buffer is logged
  -- behind what the file held, with the result 0, as lines of at most MAX_CONTENT_WIDTH bytes that
  -- together are the text without its newlines.
  pub logged_lines :
      (old : Text)
      → fopen path ≡ some old
      → (log_init fopen (some path) before ≡ (0, some old))
        × ((ls : List Text) × AreLines ls
            × (joined ls ≡ visible whole)
            × (logx lib (suc (suc more)) stamp level (log_init fopen (some path) before).1
                ≡ some (record {
                  rc = pos 0;
                  file = some (old ++ print_all (prefix_of level stamp.pid stamp.ts) 0 ls);
                  held = 0;
                })))
  unfolding log_init
  logged_lines old e =
      let (ls, lines, same, w) =
        write_buffer_lines old stamp.errno (prefix_of level stamp.pid stamp.ts) whole in
      (
        rw (e, log_init) refl,
        (ls, lines, same, rw (e, log_init) (logx_enters (some old) ∙ rw (w, entered) refl)),
      )

  -- A file that cannot be opened: log_init returns EBADF and leaves no file, and then a text for which
  -- there is a buffer is not logged, and the result is errno.
  pub unopened_log :
      fopen path ≡ none
      → (log_init fopen (some path) before ≡ (ebadf, none))
        × (logx lib (suc (suc more)) stamp level (log_init fopen (some path) before).1
            ≡ some (record { rc = pos stamp.errno; file = none; held = 0 }))
  unfolding log_init write_buffer
  unopened_log e = (rw (e, log_init) refl, rw (e, log_init) (logx_enters none))
