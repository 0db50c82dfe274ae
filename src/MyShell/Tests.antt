-- ===== src/MyShell/Tests.antt =====
-- Lines for the shell.
use seminars.Base.{
  ℕ, ◌+◌, ◌<◌, ◌≤◌, ◌≡◌, refl, false, none, some, List, [], ◌∷◌, ◌++◌, length, rev_onto, codes,
  words, is_space, arith,
}
use seminars.MyShell.Parse.{
  split, too_many, split_commands, parse_argv, argv_overflow, unsupported_argv, get_redirection,
  redirections, syntax_error, max_commands, max_argv_size, blank_spaces, skip_path, end_path,
  take_path,
}
use seminars.MyShell.Strings.{NoNul}
use seminars.MyShell.Commands.{pieces, CommandsAre, split_commands-pieces}
use seminars.MyShell.Argv.{ArgvIs, parse_argv-words}
use seminars.MyShell.Redirection.{get_redirection-passes_end}

abbrev line : List ℕ
line = codes "ls -l|wc|cat"

split_line :
    split_commands (line ++ 0 ∷ 7 ∷ []) 0 1
    ≡ split (codes "ls -l" ++ 0 ∷ codes "wc" ++ 0 ∷ codes "cat" ++ 0 ∷ 7 ∷ []) (6 ∷ 9 ∷ [])
unfolding split_commands
split_line = refl

line-NoNul : NoNul line
line-NoNul = omega arith

split_commands-pieces_example :
    (length (pieces line) ≤ max_commands
      → CommandsAre (pieces line) 0 (split_commands (line ++ 0 ∷ 7 ∷ []) 0 1))
    × (max_commands < length (pieces line) → split_commands (line ++ 0 ∷ 7 ∷ []) 0 1 ≡ too_many)
split_commands-pieces_example = split_commands-pieces line (7 ∷ []) line-NoNul

abbrev command : List ℕ
command = codes " grep  -n main "

command-NoNul : NoNul command
command-NoNul = omega arith

parse_argv-words_example :
    (length (words command) < max_argv_size
      → ArgvIs (words command) (parse_argv (command ++ 0 ∷ []) 0 false 0))
    × (length (words command) ≡ max_argv_size
        → parse_argv (command ++ 0 ∷ []) 0 false 0 ≡ argv_overflow)
    × (max_argv_size < length (words command)
        → parse_argv (command ++ 0 ∷ []) 0 false 0 ≡ unsupported_argv)
parse_argv-words_example = parse_argv-words command [] command-NoNul

get_redirection-passes_end_example :
    get_redirection
      (length (codes "cat ") + 9)
      []
      (codes "cat " ++ (b'<' ∷ b'i' ∷ codes "n" ++ 0 ∷ codes "wc"))
      none
      none
    ≡ get_redirection 8
        (0 ∷ rev_onto (codes "n") (b'i' ∷ 0 ∷ rev_onto (codes "cat ") []))
        (codes "wc")
        (some 5)
        none
unfolding is_space
get_redirection-passes_end_example =
    get_redirection-passes_end (codes "cat ") (codes "n") (codes "wc") [] b'i' 8 none none
      (omega arith) ((refl, omega arith, omega arith), ((refl, omega arith, omega arith), tt))

-- `sort <i|uniq >o` is refused, though only its last command redirects its output.
pipeline_refused :
    redirections (0 ∷ 8 ∷ []) 0 2 (codes "sort <i" ++ 0 ∷ codes "uniq >o" ++ 0 ∷ 0 ∷ []) none none
    ≡ syntax_error
unfolding redirections blank_spaces skip_path end_path take_path is_space
pipeline_refused = refl
