-- ===== src/MyShell/Rounds.antt =====
-- All rounds of run_commands.
use mathlib.Core.Path.{subst}
use seminars.Base.{
  ℕ, suc, ◌+◌, ◌≡◌, ◌⊎◌, inl, inr, refl, sym, Bool, true, false, Option-cases, ◌&&◌, ◌||◌, Option,
  none, some, List, [], ◌∷◌, All, length, get_elem?, ◌==◌, arith, update,
}
use seminars.MyShell.Parse.{Argv, args, unsupported_argv, argv_overflow, argv_overrun, parse_argv}
use seminars.MyShell.Run.{
  read_end, write_end, Table, System, Child, HasFiles, is_last, run_child, close_prev, keep_reading,
  next_prev, make_pipe, success, pipe_error, parse_error, out_of_array, Ended, ended, add_child,
  run_from, run_commands,
}
use seminars.MyShell.Wiring.{IsOpen, Prev, Piped, IsWiredTable}
use seminars.MyShell.Pipeline.{
  ShellIs, ChildIs, Prev-next, Prev-last, Prev-close, Prev-Leaks, run_child-Wired,
}

pub Argv-cases :
    (a : Argv)
    → ((bytes : List ℕ) × (argv : List ℕ) × (a ≡ args bytes argv))
      ⊎ ((a ≡ unsupported_argv) ⊎ ((a ≡ argv_overflow) ⊎ (a ≡ argv_overrun)))
Argv-cases (args bytes argv) = inl (bytes, argv, refl)
Argv-cases unsupported_argv = inr (inl refl)
Argv-cases argv_overflow = inr (inr (inl refl))
Argv-cases argv_overrun = inr (inr (inr refl))

make_pipe-Piped :
    (sys : System) (c : List ℕ) (commands : List (List ℕ)) (i : ℕ) (s : Table)
    → (make_pipe sys (c ∷ commands) i s ≡ none)
      ⊎ ((r : ℕ) × (w : ℕ) × (s' : Table) × (make_pipe sys (c ∷ commands) i s
            ≡ some (some (r, w), s'))
          × Piped s i (some (r, w)) s')
unfolding make_pipe
make_pipe-Piped sys c commands i s = elim (Option-cases (sys.pipe i s)) [
  | inl refused ↦ inl (ground arith)
  | inr ((r, w), made) ↦
      let new = sys.pipe-new i s r w made in
      inr (
        r,
        w,
        update (update s r (some (read_end i))) w (some (write_end i)),
        ground arith,
        (new.0, new.1, new.2, λ x. refl),
      )
]

-- A round that forks.
pub run_from-args :
    (sys : System) (files : HasFiles) (i n : ℕ) (prev : Option ℕ) (command bytes argv : List ℕ)
    (commands : List (List ℕ)) (pipefds : Option (ℕ × ℕ)) (s s' : Table)
    → parse_argv command 0 false 0 ≡ args bytes argv
    → make_pipe sys commands i s ≡ some (pipefds, s')
    → run_from sys files (command ∷ commands) i prev n s
      ≡ add_child (sys.fork i) i (run_child sys files i bytes argv prev pipefds s') (
          run_from sys files commands
            (i + 1)
            (next_prev pipefds)
            (n + 1 + 1)
            (keep_reading pipefds (close_prev prev s')))
unfolding run_from
run_from-args sys files i n prev command bytes argv commands pipefds s s' parsed made = ground arith

pub run_from-no_pipe :
    (sys : System) (files : HasFiles) (i n : ℕ) (prev : Option ℕ) (command bytes argv : List ℕ)
    (commands : List (List ℕ)) (s : Table)
    → parse_argv command 0 false 0 ≡ args bytes argv
    → make_pipe sys commands i s ≡ none
    → run_from sys files (command ∷ commands) i prev n s ≡ ended pipe_error s n
unfolding run_from
run_from-no_pipe sys files i n prev command bytes argv commands s parsed made = ground arith

module _ (t : Table) (open_in : IsOpen t 0) (open_out : IsOpen t 1) (files : HasFiles)
    (sys : System) where
  -- What a run does, from any of its rounds on.
  abbrev pub RunIs : List (List ℕ) → Ended → Type 0
  RunIs all e = All (ChildIs t open_in open_out files all) e.children × ShellIs t e.status e.table

  module _ (all : List (List ℕ)) where
    add_child-RunIs :
        (forked : Bool) (i : ℕ) (child : Child) (e : Ended)
        → ChildIs t open_in open_out files all (i, child)
        → RunIs all e
        → RunIs all (add_child forked i child e)
    add_child-RunIs true i child e one (others, shell) = ((one, others), shell)
    add_child-RunIs false i child e one (others, shell) = (others, shell)

    child_of :
        (i : ℕ) (command bytes argv : List ℕ) (prev : Option ℕ) (pipefds : Option (ℕ × ℕ))
        (s s' : Table)
        → get_elem? all i ≡ some command
        → parse_argv command 0 false 0 ≡ args bytes argv
        → is_last pipefds ≡ (i + 1 == length all)
        → Prev t i prev s
        → Piped s i pipefds s'
        → ChildIs t open_in open_out files all (i, run_child sys files i bytes argv prev pipefds s')
    child_of i command bytes argv prev pipefds s s' at parsed last before piped =
        elim (run_child-Wired t open_in open_out files sys i bytes argv prev pipefds s s' before
          piped) [
            | inl (failed, why) ↦
                subst (λ child. ChildIs t open_in open_out files all (i, child)) (sym failed)
                  (subst (λ b. ((i == 0 && files.input) || (b && files.output)) ≡ true) last why)
            | inr (c, run, table) ↦
                subst (λ child. ChildIs t open_in open_out files all (i, child)) (sym run)
                  (
                    (command, at, parsed),
                    subst (λ b. IsWiredTable t open_in open_out files i b c) last table,
                  )
          ]

    -- A run that stops in its round.
    stopped :
        (i n : ℕ) (prev : Option ℕ) (command : List ℕ) (commands : List (List ℕ)) (s : Table)
        → Prev t i prev s
        → (parse_argv command 0 false 0 ≡ unsupported_argv)
          ⊎ ((parse_argv command 0 false 0 ≡ argv_overflow)
              ⊎ (parse_argv command 0 false 0 ≡ argv_overrun))
        → RunIs all (run_from sys files (command ∷ commands) i prev n s)
    unfolding run_from
    stopped i n prev command commands s before (inl e) =
        let same : ended parse_error (close_prev prev s) n
            ≡ run_from sys files (command ∷ commands) i prev n s =
          ground arith in
        subst (RunIs all) same (tt, Prev-close t open_in open_out files sys i prev s before)
    stopped i n prev command commands s before (inr (inl e)) =
        let same : ended out_of_array s n ≡ run_from sys files (command ∷ commands) i prev n s =
          ground arith in
        subst (RunIs all) same (tt, Prev-Leaks t open_in open_out files sys i prev s before)
    stopped i n prev command commands s before (inr (inr e)) =
        let same : ended out_of_array s n ≡ run_from sys files (command ∷ commands) i prev n s =
          ground arith in
        subst (RunIs all) same (tt, Prev-Leaks t open_in open_out files sys i prev s before)

    run_from-RunIs :
        (i n : ℕ) (prev : Option ℕ) (command : List ℕ) (commands : List (List ℕ)) (s : Table)
        → Prev t i prev s
        → i + length (command ∷ commands) ≡ length all
        → ((j : ℕ) → get_elem? (command ∷ commands) j ≡ get_elem? all (i + j))
        → RunIs all (run_from sys files (command ∷ commands) i prev n s)
    unfolding run_from make_pipe
    run_from-RunIs i n prev command [] s before size at =
        elim (Argv-cases (parse_argv command 0 false 0)) [
          | inr other ↦ stopped i n prev command [] s before other
          | inl (bytes, argv, parsed) ↦
              subst (RunIs all)
                (sym (run_from-args sys files i n prev command bytes argv [] none s s parsed refl))
                (add_child-RunIs (sys.fork i) i (run_child sys files i bytes argv prev none s)
                  (ended success (keep_reading none (close_prev prev s)) (n + 1 + 1))
                  (child_of i command bytes argv prev none s s (ground (arith, at 0)) parsed
                    (ground arith) before (λ x. refl))
                  (tt, Prev-last t open_in open_out files sys i prev s s before (λ x. refl)))
        ]
    run_from-RunIs i n prev command (c ∷ commands) s before size at =
        elim (Argv-cases (parse_argv command 0 false 0)) [
          | inr other ↦ stopped i n prev command (c ∷ commands) s before other
          | inl (bytes, argv, parsed) ↦ elim (make_pipe-Piped sys c commands i s) [
            | inl refused ↦
                subst (RunIs all)
                  (sym (
                    run_from-no_pipe sys files i n prev command bytes argv (c ∷ commands) s parsed
                      refused))
                  (tt, Prev-Leaks t open_in open_out files sys i prev s before)
            | inr (r, w, s', made, piped) ↦
                subst (RunIs all)
                  (sym (
                    run_from-args sys files i n prev command bytes argv (c ∷ commands) (some (r, w))
                      s s' parsed made))
                  (add_child-RunIs (sys.fork i) i
                    (run_child sys files i bytes argv prev (some (r, w)) s')
                    (run_from sys files (c ∷ commands) (i + 1) (some r) (n + 1 + 1)
                      (keep_reading (some (r, w)) (close_prev prev s')))
                    (child_of i command bytes argv prev (some (r, w)) s s' (ground (arith, at 0))
                      parsed (ground arith) before piped)
                    (run_from-RunIs (i + 1) (n + 1 + 1) (some r) c commands
                      (keep_reading (some (r, w)) (close_prev prev s'))
                      (Prev-next t open_in open_out files sys i r w prev s s' before piped)
                      (omega arith) (λ j. ground (arith, at (suc j)))))
          ]
        ]

  -- With standard input and output open, a run of run_commands does this. Each child that reaches
  -- execvp has the arguments of its command, and exactly the shell's descriptors but for two: its
  -- standard input is the end of the pipe before it, or for the first command the input
  -- redirection or the shell's; its standard output is the end of the pipe behind it, or for the
  -- last command the output redirection or the shell's. A child fails before only if it has a
  -- redirection. The shell's descriptors are at the end what they were, after a success or a
  -- command of too many words; after a failed pipe, or an access outside an array, at most the end
  -- of one pipe is open besides.
  pub run_commands-RunIs :
      (commands : List (List ℕ)) → RunIs commands (run_commands sys files commands t)
  unfolding run_commands run_from
  run_commands-RunIs [] = (tt, λ fd. refl)
  run_commands-RunIs (command ∷ commands) =
      run_from-RunIs (command ∷ commands) 0 0 none command commands t (refl, λ fd. refl)
        (omega arith) (λ j. ground arith)
