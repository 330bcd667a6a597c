-- ===== src/Logger.antt =====
-- write_buffer of src/logger.c: how a text is divided into the lines of the log. A text is the list
-- of its bytes. The prefix with the level, the process and the time is an argument, and so is what
-- has been printed before; the copy to stdout and the system log are left out.
pub mod Lines
pub mod Format
pub mod Entry
mod Tests
use operative_system_project.Prelude.{
  ℕ, ◌+◌, ◌-◌, Bool, true, false, List, [], ◌∷◌, ◌++◌, Option, none, some, length, ltb, replicate,
  if◌then◌else◌, suc, ◌==◌, zero,
}

abbrev pub Text : Type 0
Text = List ℕ

abbrev pub newline : ℕ
newline = 10

-- MAX_CONTENT_WIDTH
abbrev pub max_content_width : ℕ
max_content_width = 80

-- PREFIX_BUFSZ
abbrev pub prefix_bufsz : ℕ
prefix_bufsz = 128

-- memchr for a newline in the first bytes: how far it is.
unfoldable pub memchr : ℕ → Text → Option ℕ
memchr zero t = none
memchr (suc n) [] = none
memchr (suc n) (c ∷ t) =
    if c == newline then some 0 else elim (memchr n t) [ none ↦ none | some k ↦ some (suc k) ]

-- The first bytes of a text, and the text behind them.
unfoldable pub take : ℕ → Text → Text
take zero t = []
take (suc n) [] = []
take (suc n) (c ∷ t) = c ∷ take n t

unfoldable pub drop : ℕ → Text → Text
drop zero t = t
drop (suc n) [] = []
drop (suc n) (c ∷ t) = drop n t

-- `if (has_nl && *p == '\n')` on the text at `p`.
unfoldable pub skip_newline : Text → Text
skip_newline [] = []
skip_newline (c ∷ t) = if c == newline then t else c ∷ t

-- One round of the loop: the chunk, and what remains.
unfoldable pub next_chunk : Text → Text × Text
next_chunk t =
    let scan_len = if ltb (length t) max_content_width then length t else max_content_width in
    elim (memchr scan_len t) [
      | some k ↦ (take k t, skip_newline (drop k t))
      | none ↦ (take scan_len t, drop scan_len t)
    ]

-- What is printed for a chunk: 91 is `[` and 93 is `]`, and 45 is the dash.
unfoldable pub print_chunk : Text → ℕ → Text → Text
print_chunk prefix zero chunk = prefix ++ 91 ∷ chunk ++ 93 ∷ newline ∷ []
print_chunk prefix (suc chunk_no) chunk =
    let n_dashes = if ltb (length prefix) prefix_bufsz then length prefix else prefix_bufsz - 1 in
    replicate n_dashes 45 ++ 93 ∷ 32 ∷ 45 ∷ 45 ∷ 62 ∷ 32 ∷ 91 ∷ chunk ++ 93 ∷ newline ∷ []

-- The loop, on fuel: what it prints, or `none` without fuel.
unfoldable pub print_chunks : Text → ℕ → ℕ → Text → Option Text
print_chunks prefix fuel chunk_no [] = some []
print_chunks prefix zero chunk_no (c ∷ t) = none
print_chunks prefix (suc fuel) chunk_no (c ∷ t) =
    let r = next_chunk (c ∷ t) in
    elim (print_chunks prefix fuel (chunk_no + 1) r.1) [
      | none ↦ none
      | some rest ↦ some (print_chunk prefix chunk_no r.0 ++ rest)
    ]

-- write_buffer: the result and what the file holds afterwards. Without a file the result is errno.
unfoldable pub write_buffer : Option Text → ℕ → Text → Text → Option (ℕ × Option Text)
write_buffer none errno prefix buffer = some (errno, none)
write_buffer (some file) errno prefix buffer = elim (print_chunks prefix (length buffer) 0 buffer) [
  | none ↦ none
  | some printed ↦ some (0, some (file ++ printed))
]
