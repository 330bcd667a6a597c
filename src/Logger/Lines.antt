-- ===== src/Logger/Lines.antt =====
-- The lines that write_buffer of src/logger.c prints: none is too long, and together they are the
-- text without its newlines.
use operative_system_project.Prelude.{
  refl, Bool-cases, Option-cases, ℕ, ◌+◌, ◌≤◌, ◌<◌, ◌≡◌, true, List, [], ◌∷◌, ◌++◌, some, none,
  length, if◌then◌else◌, arith, ap, inl, inr, ◌==◌, suc, zero, Bool-cases, ltb, ◌∙◌, subst, sym,
}
use operative_system_project.Logger.{
  Text, newline, memchr, take, drop, skip_newline, next_chunk, print_chunk, print_chunks,
  write_buffer, max_content_width,
}

-- The text without its newlines.
unfoldable pub visible : Text → Text
visible [] = []
visible (c ∷ t) = if c == newline then visible t else c ∷ visible t

-- A chunk that fits into a line.
pub record IsLine (chunk : Text) : Type 0 where
  pub one_line : visible chunk ≡ chunk
  pub fits : length chunk ≤ max_content_width

abbrev pub AreLines : List Text → Type 0
AreLines [] = Unit {0}
AreLines (c ∷ cs) = IsLine c × AreLines cs

unfoldable pub joined : List Text → Text
joined [] = []
joined (c ∷ cs) = c ++ joined cs

-- The chunks printed, the first with the given number.
unfoldable pub print_all : Text → ℕ → List Text → Text
print_all prefix chunk_no [] = []
print_all prefix chunk_no (c ∷ cs) =
    print_chunk prefix chunk_no c ++ print_all prefix (chunk_no + 1) cs

-- A chunk of at most `n` bytes, cut off byte by byte.
unfoldable pub cut : ℕ → Text → Text × Text
cut zero t = ([], t)
cut (suc n) [] = ([], [])
cut (suc n) (c ∷ t) = if c == newline then ([], t) else let r = cut n t in (c ∷ r.0, r.1)

abbrev chunk_by : ℕ → Text → Text × Text
chunk_by n t = elim (memchr n t) [
  | some k ↦ (take k t, skip_newline (drop k t))
  | none ↦ (take n t, drop n t)
]

skips : (c : ℕ) (t : Text) → (c == newline) ≡ true → skip_newline (c ∷ t) ≡ t
unfolding skip_newline
skips c t e = rw e refl

chunk_by-cut : (n : ℕ) (t : Text) → chunk_by n t ≡ cut n t
unfolding memchr take drop skip_newline cut
chunk_by-cut zero t = refl
chunk_by-cut (suc n) [] = refl
chunk_by-cut (suc n) (c ∷ t) =
    let ih = chunk_by-cut n t in
    elim (Bool-cases (c == newline)) [
      | inl e ↦ rw (e, memchr) (rw (e, chunk_by) (ap (λ u. ([], u)) (skips c t e)))
      | inr e ↦ elim (Option-cases (memchr n t)) [
        | inl m ↦
            rw (e, memchr) (rw (e, m, chunk_by) (ap (λ r. (c ∷ r.0, r.1)) (rw (m, chunk_by) at ih)))
        | inr (k, m) ↦
            rw (e, memchr) (rw (e, m, chunk_by) (ap (λ r. (c ∷ r.0, r.1)) (rw (m, chunk_by) at ih)))
      ]
    ]

record IsCut (n : ℕ) (t : Text) (chunk rest : Text) : Type 0 where
  pub one_line : visible chunk ≡ chunk
  pub short : length chunk ≤ n
  pub content : chunk ++ visible rest ≡ visible t
  pub shorter : length rest ≤ length t

cut-IsCut : (n : ℕ) (t : Text) → IsCut n t (cut n t).0 (cut n t).1
unfolding cut visible
cut-IsCut zero t = record {
  one_line = refl;
  short = omega arith;
  content = refl;
  shorter = omega arith;
}
cut-IsCut (suc n) [] = record {
  one_line = refl;
  short = omega arith;
  content = refl;
  shorter = omega arith;
}
cut-IsCut (suc n) (c ∷ t) =
    let v = cut-IsCut n t in
    elim (Bool-cases (c == newline)) [
      | inl e ↦ rw e (record {
        one_line = refl;
        short = omega arith;
        content = rw e refl;
        shorter = omega arith;
      })
      | inr e ↦ rw e (record {
        one_line = rw e (ap (λ u. c ∷ u) v.one_line);
        short = omega (arith, v.short);
        content = rw e (ap (λ u. c ∷ u) v.content);
        shorter = omega (arith, v.shorter);
      })
    ]

-- A round of the loop takes a line, and something, off the text.
record IsRound (t : Text) (r : Text × Text) : Type 0 where
  line : IsLine r.0
  content : r.0 ++ visible r.1 ≡ visible t
  shorter : length r.1 < length t

cut-IsRound : (n c : ℕ) (t : Text) → 0 < n → n ≤ max_content_width → IsRound (c ∷ t) (cut n (c ∷ t))
unfolding cut
cut-IsRound zero c t p h = absurd (omega (arith, p))
cut-IsRound (suc n) c t p h =
    let v = cut-IsCut (suc n) (c ∷ t) in
    record {
      line = record { one_line = v.one_line; fits = omega (arith, v.short, h) };
      content = v.content;
      shorter = shorter;
    }
  where
    shorter : length (cut (suc n) (c ∷ t)).1 < length (c ∷ t)
    shorter =
        let u = cut-IsCut n t in
        elim (Bool-cases (c == newline)) [
          | inl e ↦ rw e (omega arith)
          | inr e ↦ rw e (omega (arith, u.shorter))
        ]

next_chunk-IsRound : (c : ℕ) (t : Text) → IsRound (c ∷ t) (next_chunk (c ∷ t))
unfolding next_chunk
next_chunk-IsRound c t =
    let scan =
      if ltb (length (c ∷ t)) max_content_width then length (c ∷ t) else max_content_width in
    subst (IsRound (c ∷ t)) (sym (chunk_by-cut scan (c ∷ t)))
      (cut-IsRound scan c t (ground arith) (ground arith))

-- Enough fuel is the length of the text, and then the loop prints the lines that it takes off.
print_chunks_lem :
    (prefix : Text) (fuel chunk_no : ℕ) (t : Text)
    → length t ≤ fuel
    → (ls : List Text) × AreLines ls
      × (joined ls ≡ visible t)
      × (print_chunks prefix fuel chunk_no t ≡ some (print_all prefix chunk_no ls))
unfolding print_chunks joined print_all visible
print_chunks_lem prefix fuel chunk_no [] h = ([], tt, refl, refl)
print_chunks_lem prefix zero chunk_no (c ∷ t) h = absurd (omega (arith, h))
print_chunks_lem prefix (suc fuel) chunk_no (c ∷ t) h =
    let round = next_chunk-IsRound c t in
    let (ls, lines, same, printed) =
      print_chunks_lem prefix fuel (chunk_no + 1) (next_chunk (c ∷ t)).1
        (omega (arith, h, round.shorter)) in
    (
      (next_chunk (c ∷ t)).0 ∷ ls,
      (round.line, lines),
      ap (λ u. (next_chunk (c ∷ t)).0 ++ u) same ∙ round.content,
      rw (printed, print_chunks) refl,
    )

-- With the file open, write_buffer returns 0 and appends lines of at most MAX_CONTENT_WIDTH bytes,
-- numbered from 0 on, which together are the text without its newlines.
pub write_buffer_lines :
    (file : Text) (errno : ℕ) (prefix buffer : Text)
    → (ls : List Text) × AreLines ls
      × (joined ls ≡ visible buffer)
      × (write_buffer (some file) errno prefix buffer
          ≡ some (0, some (file ++ print_all prefix 0 ls)))
unfolding write_buffer
write_buffer_lines file errno prefix buffer =
    let (ls, lines, same, printed) =
      print_chunks_lem prefix (length buffer) 0 buffer (omega arith) in
    (ls, lines, same, rw (printed, write_buffer) refl)
