-- ===== src/Logger/Entry/Ends.antt =====
-- The rounds of the loop of vlogx_impl in src/logger.c, and the blocks of the heap that it holds.
use operative_system_project.Prelude.{
  ℕ, zero, suc, ◌*◌, ◌≤◌, ◌<◌, ◌≡◌, refl, Bool-cases, inl, inr, Option-cases, none, some, ltb,
  arith, Option, ap, ◌∙◌,
}
use operative_system_project.Logger.{Text, write_buffer}
use operative_system_project.Logger.Entry.{
  Library, Buffer, Formatted, format, release, held_after, new_size, log_max_bufsz, formatted,
  gave_up, stackbuf, heap_block, allocates, vlogx_impl, Stamp, Logged, log_initial_bufsz, enter,
}
use operative_system_project.Logger.Lines.{write_buffer_lines}
use operative_system_project.Logger.Format.{LogLevel, prefix_of}
use operative_system_project.Prelude.Int.{pos, negsuc}

-- A number doubled so many times.
abbrev doubled : ℕ → ℕ → ℕ
doubled zero b = b
doubled (suc k) b = doubled k (b * 2)

doubled_mono : (k : ℕ) {a b : ℕ} → a ≤ b → doubled k a ≤ doubled k b
doubled_mono zero h = h
doubled_mono (suc k) h = doubled_mono k (omega (arith, h))

-- The blocks that the function holds while `buf` is in use.
abbrev pub holding : Buffer → ℕ
holding stackbuf = 0
holding heap_block = 1

-- The loop has ended, and what it has allocated is freed or in the buffer that it hands out.
abbrev pub IsTidy : Formatted → Type 0
IsTidy (formatted text buf held) = held ≡ holding buf
IsTidy (gave_up held) = held ≡ 0

releases : (buf : Buffer) → release buf (holding buf) ≡ 0
unfolding release
releases stackbuf = refl
releases heap_block = refl

holds : (buf : Buffer) → held_after buf (holding buf) ≡ 1
unfolding held_after
holds stackbuf = refl
holds heap_block = refl

module _ (lib : Library) where
  grows : (bufsz n : ℕ) → bufsz * 2 ≤ new_size bufsz n
  unfolding new_size
  grows bufsz n = ground arith

  format_ends :
      (fuel : ℕ) (buf : Buffer) (bufsz : ℕ)
      → bufsz ≤ log_max_bufsz
      → log_max_bufsz < doubled fuel bufsz
      → (o : Formatted) × (format lib fuel buf bufsz (holding buf) ≡ some o) × IsTidy o
  unfolding format
  format_ends zero buf bufsz small enough = absurd (omega (arith, small, enough))
  format_ends (suc fuel) buf bufsz small enough = elim (Option-cases (lib.vsnprintf bufsz)) [
    | inl e ↦ (gave_up (release buf (holding buf)), rw (e, format) refl, releases buf)
    | inr ((n, text), e) ↦ elim (Bool-cases (ltb n bufsz)) [
      | inl fits ↦ (formatted text buf (holding buf), rw (e, format) (rw fits refl), refl)
      | inr long ↦ elim (Bool-cases (ltb log_max_bufsz (new_size bufsz n))) [
        | inl over ↦ (
          gave_up (release buf (holding buf)),
          rw (e, format) (rw long (rw over refl)),
          releases buf,
        )
        | inr within ↦ elim (Bool-cases (allocates lib buf (new_size bufsz n))) [
          | inr refused ↦ (
            gave_up (release buf (holding buf)),
            rw (e, format) (rw long (rw within (rw refused refl))),
            releases buf,
          )
          | inl got ↦
              let (o, e', tidy) =
                format_ends fuel heap_block (new_size bufsz n) (ground arith)
                  (omega (arith, enough, doubled_mono fuel (grows bufsz n))) in
              (o, rw (e, format) (rw long (rw within (rw got (rw (holds buf) e')))), tidy)
        ]
      ]
    ]
  ]

-- Rounds that are always enough: the buffer doubles at least, from 256 bytes to at most 2 ^ 20.
abbrev pub log_rounds : ℕ
log_rounds = 13

-- A text is written or refused in any state of the log.
write_buffer_ends :
    (file : Option Text) (errno : ℕ) (prefix text : Text)
    → (r : ℕ × Option Text) × (write_buffer file errno prefix text ≡ some r)
unfolding write_buffer
write_buffer_ends none errno prefix text = (_, refl)
write_buffer_ends (some old) errno prefix text =
    let (ls, _, _, e) = write_buffer_lines old errno prefix text in (_, e)

enter_ends :
    (stamp : Stamp) (level : LogLevel) (file : Option Text) (o : Formatted)
    → IsTidy o
    → (l : Logged) × (enter stamp level file (some o) ≡ some l) × (l.held ≡ 0)
unfolding enter
enter_ends stamp level file (gave_up held) tidy =
    (record { rc = negsuc 0; file = file; held = held }, refl, tidy)
enter_ends stamp level file (formatted text buf held) tidy =
    let (r, w) = write_buffer_ends file stamp.errno (prefix_of level stamp.pid stamp.ts) text in
    (
      record { rc = pos r.0; file = r.1; held = release buf held },
      rw (w, enter) refl,
      ap (release buf) tidy ∙ releases buf,
    )

-- Whatever vsnprintf, malloc and realloc return, vlogx_impl returns after at most `log_rounds`
-- rounds, at every level and with the log open or not, and has freed every block that it has
-- allocated.
pub vlogx_impl_ends :
    (lib : Library) (stamp : Stamp) (level : LogLevel) (file : Option Text)
    → (l : Logged) × (vlogx_impl lib log_rounds stamp level file ≡ some l) × (l.held ≡ 0)
unfolding vlogx_impl
vlogx_impl_ends lib stamp level file =
    let (o, e, tidy) =
      format_ends lib log_rounds stackbuf log_initial_bufsz (omega arith) (omega arith) in
    let (l, e', free) = enter_ends stamp level file o tidy in
    (l, ap (enter stamp level file) e ∙ e', free)
