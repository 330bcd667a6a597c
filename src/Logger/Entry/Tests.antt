-- ===== src/Logger/Entry/Tests.antt =====
-- The log of a text of two lines, with a C library that prints it as documented.
use operative_system_project.Prelude.{
  ◌+◌, ◌-◌, ◌<◌, ◌≡◌, refl, true, false, List, [], ◌∷◌, ◌++◌, none, some, length, if◌then◌else◌,
  arith,
}
use operative_system_project.Prelude.Int.{pos, negsuc}
use operative_system_project.Logger.{Text, take, prefix_bufsz}
use operative_system_project.Logger.Lines.{AreLines, joined, visible, print_all}
use operative_system_project.Logger.Format.{LogLevel, prefix_of, full_prefix, prefix_of-full}
use operative_system_project.Logger.Entry.{Library, Stamp, Logged, vlogx_impl, logx, log_init}
use operative_system_project.Logger.Entry.Ends.{log_rounds, vlogx_impl_ends}
use operative_system_project.Logger.Entry.Exact.{Prints, has_room, entered, vlogx_impl_enters}
use operative_system_project.Logger.Entry.Session.{logged_lines}

abbrev text : Text
text = 65 ∷ 66 ∷ 10 ∷ 67 ∷ []

abbrev lib : Library
lib = record {
  vsnprintf = λ size. some (4, take (size - 1) text);
  malloc = λ size. true;
  realloc = λ size. false;
}

abbrev stamp : Stamp
stamp = record { errno = 2; pid = 52 ∷ 50 ∷ []; ts = 49 ∷ 50 ∷ 51 ∷ [] }

prints : Prints lib text
prints = record { stored = λ size h. refl }

vlogx_impl_ends_example :
    (l : Logged) × (vlogx_impl lib log_rounds stamp LogLevel.sys_info none ≡ some l) × (l.held ≡ 0)
vlogx_impl_ends_example = vlogx_impl_ends lib stamp LogLevel.sys_info none

vlogx_impl_enters_example : vlogx_impl lib 2 stamp LogLevel.app_err (some []) ≡ (
    if has_room lib text
    then entered stamp LogLevel.app_err (some []) text
    else some (record { rc = negsuc 0; file = some []; held = 0 }))
vlogx_impl_enters_example = vlogx_impl_enters lib text prints 0 stamp LogLevel.app_err (some [])

logged_lines_example :
    (log_init (λ path. some (88 ∷ [])) (some (47 ∷ [])) none ≡ (0, some (88 ∷ [])))
    × ((ls : List Text) × AreLines ls
        × (joined ls ≡ visible text)
        × (logx lib 2 stamp LogLevel.debug
              (log_init (λ path. some (88 ∷ [])) (some (47 ∷ [])) none).1
            ≡ some (record {
              rc = pos 0;
              file =
                  some ((88 ∷ []) ++ print_all (prefix_of LogLevel.debug stamp.pid stamp.ts) 0 ls);
              held = 0;
            })))
logged_lines_example =
    logged_lines lib text prints refl (λ path. some (88 ∷ [])) (47 ∷ []) none 0 stamp LogLevel.debug
      (88 ∷ []) refl

prefix_of-full_example :
    (prefix_of LogLevel.trace (52 ∷ []) (49 ∷ []) ≡ full_prefix LogLevel.trace (52 ∷ []) (49 ∷ []))
    × (length (prefix_of LogLevel.trace (52 ∷ []) (49 ∷ [])) ≡ 26 + 1 + 1)
    × (length (prefix_of LogLevel.trace (52 ∷ []) (49 ∷ [])) < prefix_bufsz)
prefix_of-full_example =
    prefix_of-full LogLevel.trace (52 ∷ []) (49 ∷ []) (omega arith) (omega arith)
