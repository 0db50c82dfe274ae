-- ===== src/MyShell/Fits.antt =====
-- Commands that fit into argv: run_commands has a child for each, or a pipe has failed.
use mathlib.Core.Path.{subst}
use seminars.Base.{
  ℕ, suc, ◌+◌, ◌<◌, ◌≡◌, ◌⊎◌, inl, inr, refl, sym, true, false, Option, Option-cases, List, [], ◌∷◌,
  ◌++◌, All, length, words, arith,
}
use seminars.MyShell.Parse.{
  Argv, args, unsupported_argv, argv_overflow, argv_overrun, parse_argv, max_argv_size,
}
use seminars.MyShell.Strings.{NoNul}
use seminars.MyShell.Argv.{ArgvIs, parse_argv-words}
use seminars.MyShell.Redirection.{Plain}
use seminars.MyShell.Run.{
  Table, System, Child, HasFiles, success, pipe_error, Ended, make_pipe, add_child, run_child,
  run_from, close_prev, keep_reading, next_prev,
}
use seminars.MyShell.Rounds.{run_from-args, run_from-no_pipe}
use seminars.MyShell.Plain.{AreCommands}

-- A piece that fits into argv.
abbrev pub Fits : List ℕ → Type 0
Fits p = Plain p × (length (words p) < max_argv_size)

pub Plain-NoNul : (text : List ℕ) → Plain text → NoNul text
Plain-NoNul [] h = tt
Plain-NoNul (c ∷ text) ((nz, nl, ng), h) = (nz, Plain-NoNul text h)

abbrev pub IsParsed : List ℕ → Type 0
IsParsed command =
    (bytes : List ℕ) × (argv : List ℕ) × (parse_argv command 0 false 0 ≡ args bytes argv)

IsParsed-of :
    (strings : List (List ℕ)) (command : List ℕ) (r : Argv)
    → parse_argv command 0 false 0 ≡ r
    → ArgvIs strings r
    → IsParsed command
IsParsed-of strings command (args bytes argv) e h = (bytes, argv, e)
IsParsed-of strings command unsupported_argv e h = absurd h
IsParsed-of strings command argv_overflow e h = absurd h
IsParsed-of strings command argv_overrun e h = absurd h

pub Fits-ArgvIs :
    (p rest command : List ℕ)
    → command ≡ p ++ 0 ∷ rest
    → Fits p
    → ArgvIs (words p) (parse_argv command 0 false 0)
Fits-ArgvIs p rest command e (plain, few) =
    subst (λ c. ArgvIs (words p) (parse_argv c 0 false 0)) (sym e)
      ((parse_argv-words p rest (Plain-NoNul p plain)).0 few)

pub commands_IsParsed :
    (ps commands : List (List ℕ)) → AreCommands ps commands → All Fits ps → All IsParsed commands
commands_IsParsed [] [] h f = tt
commands_IsParsed [] (c ∷ commands) h f = absurd h
commands_IsParsed (p ∷ ps) [] h f = absurd h
commands_IsParsed (p ∷ ps) (c ∷ commands) ((rest, e), h) (one, f) = (
  IsParsed-of (words p) c (parse_argv c 0 false 0) refl (Fits-ArgvIs p rest c e one),
  commands_IsParsed ps commands h f,
)

-- A run whose commands are all parsed: it has a child for each command if every fork succeeds, or
-- a pipe has failed.
abbrev pub HasRun : System → ℕ → Ended → Type 0
HasRun sys n e =
    ((e.status ≡ success) × (((i : ℕ) → sys.fork i ≡ true) → length e.children ≡ n))
    ⊎ (e.status ≡ pipe_error)

add_child-HasRun :
    (sys : System) (i n : ℕ) (child : Child) (e : Ended)
    → HasRun sys n e
    → HasRun sys (suc n) (add_child (sys.fork i) i child e)
add_child-HasRun sys i n child e (inr failed) = inr failed
add_child-HasRun sys i n child e (inl (done, all)) =
    inl (done, λ forks. ground (arith, forks i, all forks))

pub run_from-HasRun :
    (sys : System) (wanted : HasFiles) (commands : List (List ℕ)) (i : ℕ) (prev : Option ℕ) (n : ℕ)
    (t : Table)
    → All IsParsed commands
    → HasRun sys (length commands) (run_from sys wanted commands i prev n t)
run_from-HasRun sys wanted [] i prev n t h = unfold run_from in inl (refl, λ forks. refl)
run_from-HasRun sys wanted (c ∷ commands) i prev n t ((bytes, argv, parsed), h) =
    elim (Option-cases (make_pipe sys commands i t)) [
      | inl refused ↦
          subst (HasRun sys (suc (length commands)))
            (sym (run_from-no_pipe sys wanted i n prev c bytes argv commands t parsed refused))
            (inr refl)
      | inr ((pipefds, t'), made) ↦
          subst (HasRun sys (suc (length commands)))
            (sym (run_from-args sys wanted i n prev c bytes argv commands pipefds t t' parsed made))
            (add_child-HasRun sys i (length commands)
              (run_child sys wanted i bytes argv prev pipefds t')
              (run_from sys wanted commands (i + 1) (next_prev pipefds) (n + 1 + 1)
                (keep_reading pipefds (close_prev prev t')))
              (run_from-HasRun sys wanted commands (i + 1) (next_prev pipefds) (n + 1 + 1)
                (keep_reading pipefds (close_prev prev t')) h))
    ]
