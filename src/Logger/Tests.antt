-- ===== src/Logger/Tests.antt =====
-- The log of a text of two lines.
use operative_system_project.Prelude.{refl, ◌≡◌, List, [], ◌∷◌, some, ◌++◌, replicate}
use operative_system_project.Logger.{
  Text, write_buffer, print_chunks, next_chunk, memchr, take, drop, skip_newline, print_chunk,
}
use operative_system_project.Logger.Lines.{AreLines, joined, visible, print_all, write_buffer_lines}

abbrev text : Text
text = 65 ∷ 66 ∷ 10 ∷ 67 ∷ []

write_buffer_lines_example :
    (ls : List Text) × AreLines ls
    × (joined ls ≡ visible text)
    × (write_buffer (some (88 ∷ [])) 0 (80 ∷ 62 ∷ []) text
        ≡ some (0, some ((88 ∷ []) ++ print_all (80 ∷ 62 ∷ []) 0 ls)))
write_buffer_lines_example = write_buffer_lines (88 ∷ []) 0 (80 ∷ 62 ∷ []) text

-- The first line has the prefix and the second its length in dashes.
two_lines :
    write_buffer (some []) 0 (80 ∷ 62 ∷ []) text
    ≡ some (
      0,
      some (
          80 ∷ 62 ∷ 91 ∷ 65 ∷ 66 ∷ 93 ∷ 10 ∷ 45 ∷ 45 ∷ 93 ∷ 32 ∷ 45 ∷ 45 ∷ 62 ∷ 32 ∷ 91 ∷ 67 ∷ 93
          ∷ 10 ∷ []),
    )
unfolding write_buffer print_chunks next_chunk memchr take drop skip_newline print_chunk replicate
two_lines = refl
