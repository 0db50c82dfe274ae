-- ===== src/Pcat/Main.antt =====
-- pcat/pcat.c: `main`. The child copies the files into a pipe, and the parent copies the pipe to
-- the standard output; each process has a state of its own.
use seminars.Base.{ℕ, ◌≡◌, Bool, true, false, Option, none, some, List, [], ◌∷◌, if◌then◌else◌}
use seminars.Kernel.{Kernel, IsApart}
use seminars.Transfer.{Outcome, success, failure, no_fuel}
use seminars.Pcat.{copy_file}

-- `open` and `close` in a process that writes to descriptor `to`, with what is documented of them:
-- open succeeds for the files that can be read, which do not change meanwhile, and are not what
-- `to` writes to; and neither call writes.
pub record Files {S : Type 0} (k : Kernel S) (to : ℕ) : Type 0 where
  pub open_file : S → List ℕ → Option ℕ × S
  pub close : S → ℕ → S
  pub text : List ℕ → Option (List ℕ)
  pub open_file_none : (s : S) (path : List ℕ) → (open_file s path).0 ≡ none → text path ≡ none
  pub open_file_some :
      (s : S) (path : List ℕ) (fd : ℕ)
      → (open_file s path).0 ≡ some fd
      → (text path ≡ some (k.pending (open_file s path).1 fd)) × IsApart k fd to
  pub open_file_keeps : (s : S) (path : List ℕ) → k.written (open_file s path).1 to ≡ k.written s to
  pub close_keeps : (s : S) (fd : ℕ) → k.written (close s fd) to ≡ k.written s to
  pub close_pending : (s : S) (fd : ℕ) → k.pending (close s fd) 0 ≡ k.pending s 0

module _ {S : Type 0} (k : Kernel S) {to : ℕ} (f : Files k to) where
  -- The loop over the arguments.
  unfoldable pub copy_files : ℕ → List (List ℕ) → S → Outcome × S
  unfolding copy_file
  copy_files fuel [] s = (success, f.close s to)
  copy_files fuel (path ∷ paths) s =
      let (opened, s') = f.open_file s path in
      elim opened [
        | none ↦ copy_files fuel paths s'
        | some fd ↦
            let (o, s'') = copy_file k fuel fd to s' in
            elim o [
              | success ↦ copy_files fuel paths (f.close s'' fd)
              | failure ↦ (failure, f.close (f.close s'' fd) to)
              | no_fuel ↦ (no_fuel, s'')
            ]
      ]

  -- The child, from the closing of the pipe's other end on. `paths` are the arguments behind
  -- argv[0]; without any, the standard input is copied.
  unfoldable pub run_child : ℕ → ℕ → List (List ℕ) → S → Outcome × S
  unfolding copy_files copy_file
  run_child fuel pipe_from [] s =
      let (o, s') = copy_file k fuel 0 to (f.close s pipe_from) in (o, f.close s' to)
  run_child fuel pipe_from (path ∷ paths) s = copy_files fuel (path ∷ paths) (f.close s pipe_from)

-- The parent behind the fork, with the calls it makes. Both ends of the pipe are open in it, and
-- `connect` is its state when the child writes these bytes and ends: a read finds them and then the
-- end only when the parent has closed the end of its own that is written to. close and waitpid
-- write nothing.
pub record Parent {T : Type 0} (k : Kernel T) (pipe_from pipe_to : ℕ) : Type 0 where
  pub connect : List ℕ → T
  pub close : T → ℕ → T
  pub wait : T → T
  pub connect-written : (bytes : List ℕ) → k.written (connect bytes) 1 ≡ []
  pub close-pending : (bytes : List ℕ) → k.pending (close (connect bytes) pipe_to) pipe_from ≡ bytes
  pub close-written : (t : T) (fd : ℕ) → k.written (close t fd) 1 ≡ k.written t 1
  pub wait-written : (t : T) → k.written (wait t) 1 ≡ k.written t 1

module _ {T : Type 0} (p : Kernel T) {pipe_from pipe_to : ℕ}
    (parent : Parent p pipe_from pipe_to) where
  -- What follows the parent's copy: its status is not changed by that of the child.
  abbrev pub finish : Outcome × T → Outcome × T
  finish (success, t) = (success, parent.wait (parent.close t pipe_from))
  finish (failure, t) = (failure, parent.close t pipe_from)
  finish (no_fuel, t) = (no_fuel, t)

  unfoldable pub run_parent : ℕ → List ℕ → Outcome × T
  unfolding copy_file
  run_parent fuel bytes =
      finish (copy_file p fuel pipe_from 1 (parent.close (parent.connect bytes) pipe_to))

-- The end of main: its status and the state of the parent; and the end of the child, if there is
-- one.
pub record Ended (S T : Type 0) : Type 0 where
  pub parent : Outcome × T
  pub child : Option (Outcome × S)

-- What the child has written into the pipe.
abbrev pub piped : {S : Type 0} → Kernel S → ℕ → Option (Outcome × S) → List ℕ
piped k to none = []
piped k to (some (o, s)) = k.written s to

-- `main`: `none` if pipe fails. A failing fork takes the branch of the parent.
unfoldable pub main :
    {S T : Type 0} (k : Kernel S) (p : Kernel T) {to pipe_from : ℕ}
    → Files k to
    → Parent p pipe_from to
    → ℕ
    → Bool
    → Bool
    → List (List ℕ)
    → S
    → Option (Ended S T)
unfolding run_child run_parent
main k p f parent fuel false forked paths s = none
main k p {to = to} {pipe_from = pipe_from} f parent fuel true forked paths s =
    let child = if forked then some (run_child k f fuel pipe_from paths s) else none in
    some (record { parent = run_parent p parent fuel (piped k to child); child = child })
