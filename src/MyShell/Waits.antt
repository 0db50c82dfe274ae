-- ===== src/MyShell/Waits.antt =====
-- How often run_commands waits.
use mathlib.Core.Path.{subst}
use seminars.Base.{
  ℕ, zero, suc, ◌+◌, ◌*◌, ◌≡◌, inl, inr, refl, ap, sym, ◌∙◌, Bool, true, false, Option-cases,
  Option, none, List, [], ◌∷◌, length, if◌then◌else◌, arith,
}
use seminars.MyShell.Parse.{parse_argv}
use seminars.MyShell.Run.{
  Table, System, Child, HasFiles, run_child, close_prev, keep_reading, next_prev, make_pipe,
  success, Ended, add_child, run_from, run_commands,
}
use seminars.MyShell.Rounds.{Argv-cases, run_from-args}

-- How many of n forks succeed, from command i on.
abbrev pub forks_of : System → ℕ → ℕ → ℕ
forks_of sys zero i = 0
forks_of sys (suc n) i = (if sys.fork i then 1 else 0) + forks_of sys n (i + 1)

-- The number of waits that a run ends with, and of its children.
abbrev pub Waits : Ended → ℕ → ℕ → Type 0
Waits e waits children = (e.children_num ≡ waits) × (length e.children ≡ children)

Waits-add_child :
    (forked : Bool) (i : ℕ) (child : Child) (e : Ended) (waits children : ℕ)
    → Waits e waits children
    → Waits (add_child forked i child e) waits ((if forked then 1 else 0) + children)
Waits-add_child true i child e waits children (a, b) = (a, omega (arith, b))
Waits-add_child false i child e waits children (a, b) = (a, omega (arith, b))

run_from-Waits :
    (sys : System) (files : HasFiles) (commands : List (List ℕ)) (i n : ℕ) (prev : Option ℕ)
    (t : Table)
    → (run_from sys files commands i prev n t).status ≡ success
    → Waits
        (run_from sys files commands i prev n t)
        (n + 2 * length commands)
        (forks_of sys (length commands) i)
unfolding run_from
run_from-Waits sys files [] i n prev t e = (omega arith, refl)
run_from-Waits sys files (command ∷ commands) i n prev t e =
    elim (Argv-cases (parse_argv command 0 false 0)) [
      | inr (inl other) ↦ absurd (ground arith)
      | inr (inr (inl other)) ↦ absurd (ground arith)
      | inr (inr (inr other)) ↦ absurd (ground arith)
      | inl (bytes, argv, parsed) ↦ elim (Option-cases (make_pipe sys commands i t)) [
        | inl refused ↦ absurd (ground arith)
        | inr ((pipefds, t'), made) ↦
            let one =
              run_from-args sys files i n prev command bytes argv commands pipefds t t' parsed
                made in
            let table = keep_reading pipefds (close_prev prev t') in
            let rest = run_from sys files commands (i + 1) (next_prev pipefds) (n + 1 + 1) table in
            let ih =
              run_from-Waits sys files commands (i + 1) (n + 1 + 1) (next_prev pipefds) table
                (sym (ap (λ r. r.status) one) ∙ e) in
            subst
              (λ r.
                Waits r (n + 2 * length (command ∷ commands))
                  (forks_of sys (length (command ∷ commands)) i))
              (sym one)
              (subst
                (λ w.
                  Waits
                    (add_child (sys.fork i) i (run_child sys files i bytes argv prev pipefds t')
                      rest)
                    w (forks_of sys (length (command ∷ commands)) i))
                (omega arith)
                (Waits-add_child (sys.fork i) i (run_child sys files i bytes argv prev pipefds t')
                  rest (n + 1 + 1 + 2 * length commands) (forks_of sys (length commands) (i + 1))
                  ih))
      ]
    ]

-- A successful run of run_commands has as many children as forks have succeeded, and waits twice for
-- each command.
run_commands-Waits :
    (sys : System) (files : HasFiles) (commands : List (List ℕ)) (t : Table)
    → (run_commands sys files commands t).status ≡ success
    → Waits
        (run_commands sys files commands t)
        (2 * length commands)
        (forks_of sys (length commands) 0)
unfolding run_commands
run_commands-Waits sys files commands t e =
    let (waits, children) = run_from-Waits sys files commands 0 0 none t e in
    (omega (arith, waits), children)
