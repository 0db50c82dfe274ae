-- ===== src/MyShell/Lines.antt =====
-- A line without redirections, from its bytes to the processes that run it.
use mathlib.Core.Path.{subst}
use seminars.Base.{
  ℕ, ◌+◌, ◌<◌, ◌≤◌, ◌≡◌, ◌≢◌, refl, sym, false, none, some, List, [], ◌∷◌, ◌++◌, All, length,
  get_elem?, codes, words, ◌==◌, arith,
}
use seminars.MyShell.Parse.{
  Split, split, too_many, overrun, split_commands, max_commands, max_argv_size, redirections, files,
}
use seminars.MyShell.Strings.{strings_at}
use seminars.MyShell.Commands.{pieces, CommandsAre, split_commands-pieces}
use seminars.MyShell.Argv.{ArgvIs}
use seminars.MyShell.Redirection.{Plain}
use seminars.MyShell.Run.{Table, System, Child, open_error, execs, HasFiles, run_commands}
use seminars.MyShell.Wiring.{IsOpen, IsWiredTable}
use seminars.MyShell.Pipeline.{ShellIs, ChildIs}
use seminars.MyShell.Rounds.{run_commands-RunIs}
use seminars.MyShell.Prompt.{
  Line, blank, leaves, unsupported_commands_num, line_syntax_error, outside, runs, commands_at,
  same_string, run_split, run_line,
}
use seminars.MyShell.Terminated.{Ends, split_commands-Ends}
use seminars.MyShell.Plain.{
  All-pieces, AreCommands, commands_at-AreCommands, AreCommands-length, AreCommands-at, AllPlain,
  redirections-none,
}
use seminars.MyShell.Fits.{
  Fits, Plain-NoNul, Fits-ArgvIs, commands_IsParsed, HasRun, run_from-HasRun,
}

abbrev no_files : HasFiles
no_files = record { input = false; output = false }

module _ (t : Table) (open_in : IsOpen t 0) (open_out : IsOpen t 1) (sys : System)
    (ps : List (List ℕ)) where
  -- A child runs its piece of the line: argv has the words of the piece, and the descriptors are
  -- the shell's, but for the pipes before and behind.
  abbrev pub RunsPiece : ℕ × Child → Type 0
  RunsPiece (i, open_error) = ⊥
  RunsPiece (i, execs bytes argv c) =
      ((p : List ℕ) × (get_elem? ps i ≡ some p) × (strings_at 0 bytes argv ≡ words p))
      × IsWiredTable t open_in open_out no_files i (i + 1 == length ps) c

  -- What a line comes to whose pieces are all run.
  abbrev pub RunsPieces : Line → Type 0
  RunsPieces (runs input output e) =
      (input ≡ none)
      × (output ≡ none)
      × HasRun sys (length ps) e
      × All RunsPiece e.children
      × ShellIs t e.status e.table
  RunsPieces blank = ⊥
  RunsPieces leaves = ⊥
  RunsPieces unsupported_commands_num = ⊥
  RunsPieces line_syntax_error = ⊥
  RunsPieces outside = ⊥

  module _ (commands : List (List ℕ)) (h : AreCommands ps commands) (f : All Fits ps) where
    child_RunsPiece :
        (child : ℕ × Child) → ChildIs t open_in open_out no_files commands child → RunsPiece child
    child_RunsPiece (i, open_error) c = absurd (ground (arith, c))
    child_RunsPiece (i, execs bytes argv u) ((command, at, parsed), wired) =
        let (p, rest, at_p, e, fits) = AreCommands-at Fits ps commands i command h f at in
        (
          (p, at_p, subst (ArgvIs (words p)) parsed (Fits-ArgvIs p rest command e fits)),
          subst (λ n. IsWiredTable t open_in open_out no_files i (i + 1 == n) u)
              (AreCommands-length ps commands h) wired,
        )

    children_RunsPiece :
        (children : List (ℕ × Child))
        → All (ChildIs t open_in open_out no_files commands) children
        → All RunsPiece children
    children_RunsPiece [] c = tt
    children_RunsPiece (child ∷ children) (one, c) =
        (child_RunsPiece child one, children_RunsPiece children c)

    runs_RunsPieces : RunsPieces (runs none none (run_commands sys no_files commands t))
    runs_RunsPieces =
        let (children, shell) = run_commands-RunIs t open_in open_out no_files sys commands in
        (
          refl,
          refl,
          subst (λ n. HasRun sys n (run_commands sys no_files commands t))
              (AreCommands-length ps commands h)
              (unfold run_commands in
                run_from-HasRun sys no_files commands 0 none 0 t
                  (commands_IsParsed ps commands h f)),
          children_RunsPiece _ children,
          shell,
        )

AllPlain-of :
    (buffer offsets : List ℕ) (ps : List (List ℕ))
    → AreCommands ps (commands_at buffer offsets)
    → All Fits ps
    → AllPlain buffer offsets
AllPlain-of buffer [] ps h f = tt
AllPlain-of buffer (o ∷ offsets) [] h f = absurd h
AllPlain-of buffer (o ∷ offsets) (p ∷ ps) ((rest, e), h) ((plain, few), f) =
    ((p, rest, e, plain), AllPlain-of buffer offsets ps h f)

run_split-none :
    (sys : System) (t : Table) (bytes offsets : List ℕ)
    → redirections offsets 0 (length offsets) bytes none none ≡ files bytes none none
    → run_split sys t bytes offsets
      ≡ runs none none (run_commands sys no_files (commands_at bytes offsets) t)
unfolding run_split
run_split-none sys t bytes offsets e = ground arith

run_line-split :
    (sys : System) (t : Table) (c : ℕ) (text behind bytes offsets : List ℕ)
    → same_string (c ∷ text) (codes "exit") ≡ false
    → split_commands (c ∷ text ++ 0 ∷ behind) 0 1 ≡ split bytes offsets
    → run_line sys t (c ∷ text) behind ≡ run_split sys t bytes (0 ∷ offsets)
unfolding run_line
run_line-split sys t c text behind bytes offsets other e = rw (other, e) refl

All-zip :
    (ps : List (List ℕ))
    → All Plain ps
    → All (λ p. length (words p) < max_argv_size) ps
    → All Fits ps
All-zip [] h f = tt
All-zip (p ∷ ps) (one, h) (few, f) = ((one, few), All-zip ps h f)

module _ (t : Table) (open_in : IsOpen t 0) (open_out : IsOpen t 1) (sys : System) where
  split_RunsPieces :
      (ps : List (List ℕ)) (s : Split)
      → CommandsAre ps 0 s
      → Ends 0 s
      → All Fits ps
      → (bytes : List ℕ) × (offsets : List ℕ) × (s ≡ split bytes offsets)
        × RunsPieces t open_in open_out sys ps (run_split sys t bytes (0 ∷ offsets))
  split_RunsPieces ps too_many c e f = absurd c
  split_RunsPieces ps overrun c e f = absurd c
  split_RunsPieces ps (split bytes offsets) (are, above) (one, all) f =
      let commands : AreCommands ps (commands_at bytes (0 ∷ offsets)) =
        subst (λ l. AreCommands l (commands_at bytes (0 ∷ offsets))) are
          (one, commands_at-AreCommands bytes offsets all) in
      let plain = AllPlain-of bytes (0 ∷ offsets) ps commands f in
      let same =
        run_split-none sys t bytes (0 ∷ offsets)
          (redirections-none bytes (0 ∷ offsets) 0 (length (0 ∷ offsets)) plain) in
      (
        bytes,
        offsets,
        refl,
        subst (RunsPieces t open_in open_out sys ps) (sym same) (
            runs_RunsPieces t open_in open_out sys ps (commands_at bytes (0 ∷ offsets)) commands f),
      )

  -- With standard input and output open, a line that is not empty and not `exit`, without NUL, `<`
  -- and `>`, of at most sixteen pieces between its bars, each of fewer than 64 words: no scan
  -- leaves the buffer, and run_commands is called without redirections. It succeeds, and then has a
  -- child for each piece if every fork does, or it ends with a failed pipe. Each child has the
  -- words of its piece for arguments and the shell's descriptors, but for the pipes between it and
  -- its neighbours; the shell keeps its descriptors, and after a failed pipe at most the end of
  -- one pipe besides.
  pub run_line-RunsPieces :
      (c : ℕ) (text behind : List ℕ)
      → same_string (c ∷ text) (codes "exit") ≡ false
      → Plain (c ∷ text)
      → length (pieces (c ∷ text)) ≤ max_commands
      → All (λ p. length (words p) < max_argv_size) (pieces (c ∷ text))
      → RunsPieces t open_in open_out sys (pieces (c ∷ text)) (run_line sys t (c ∷ text) behind)
  run_line-RunsPieces c text behind other plain few short =
      let no_nul = Plain-NoNul (c ∷ text) plain in
      let cut = (split_commands-pieces (c ∷ text) behind no_nul).0 few in
      let ends = split_commands-Ends (c ∷ text) behind 0 1 no_nul in
      let fits =
        All-zip (pieces (c ∷ text))
          (All-pieces (λ b. (b ≢ 0) × (b ≢ b'<') × (b ≢ b'>')) (c ∷ text) plain) short in
      let (bytes, offsets, e, runs_all) = split_RunsPieces (pieces (c ∷ text)) _ cut ends fits in
      subst (RunsPieces t open_in open_out sys (pieces (c ∷ text)))
        (sym (run_line-split sys t c text behind bytes offsets other e)) runs_all
