-- ===== src/MyShell/Pipeline.antt =====
-- What a run of run_commands does: its children, and the shell's own descriptors.
use seminars.Base.{
  ℕ, ◌+◌, ◌-◌, ◌≡◌, ◌⊎◌, inl, inr, true, false, Option-cases, ◌&&◌, ◌||◌, Option, none, some, List,
  length, get_elem?, ◌==◌, if◌then◌else◌, arith,
}
use seminars.MyShell.Parse.{args, parse_argv}
use seminars.MyShell.Run.{
  input_file, output_file, read_end, Table, System, Child, open_error, execs, redirect_to,
  take_prev, give_pipe, HasFiles, is_last, run_child, close_prev, keep_reading, Status, success,
  pipe_error, parse_error, out_of_array,
}
use seminars.MyShell.Wiring.{
  IsOpen, Prev, Piped, IsWiredTable, wired, redirect_to-all, redirect_to-wanted,
}

-- The shell keeps at most the pipe that a command before has left.
abbrev pub IsKept : Table → Table → Type 0
IsKept t u = (fd : ℕ) → u fd ≡ t fd

abbrev pub Leaks : Table → Table → Type 0
Leaks t u =
    IsKept t u
    ⊎ ((p : ℕ) × (k : ℕ) × ((fd : ℕ) → u fd ≡ (if fd == p then some (read_end k) else t fd)))

-- The shell's descriptors at the end.
abbrev pub ShellIs : Table → Status → Table → Type 0
ShellIs t success u = IsKept t u
ShellIs t parse_error u = IsKept t u
ShellIs t pipe_error u = Leaks t u
ShellIs t out_of_array u = Leaks t u

module _ (t : Table) (open_in : IsOpen t 0) (open_out : IsOpen t 1) (files : HasFiles) where
  -- What a child does: it may fail only if it has a redirection; its arguments are those of its
  -- command, and its descriptors are the shell's, but for the standard input and output.
  abbrev pub ChildIs : List (List ℕ) → ℕ × Child → Type 0
  ChildIs commands (i, open_error) =
      ((i == 0 && files.input) || ((i + 1 == length commands) && files.output)) ≡ true
  ChildIs commands (i, execs bytes argv c) =
      ((command : List ℕ) × (get_elem? commands i ≡ some command)
        × (parse_argv command 0 false 0 ≡ args bytes argv))
      × IsWiredTable t open_in open_out files i (i + 1 == length commands) c

  module _ (sys : System) where
    -- The descriptors that are moved are open.
    Piped-IsOpen :
        (i : ℕ) (prev : Option ℕ) (pipefds : Option (ℕ × ℕ)) (s s' : Table)
        → Prev t i prev s
        → Piped s i pipefds s'
        → IsOpen s' 0 × IsOpen s' 1
    Piped-IsOpen i none none s s' (start, same) piped = (
      (open_in.0, ground (arith, same 0, piped 0, open_in.1)),
      (open_out.0, ground (arith, same 1, piped 1, open_out.1)),
    )
    Piped-IsOpen i none (some (r, w)) s s' (start, same) (no_r, no_w, ne, piped) = (
      (open_in.0, ground (arith, same 0, piped 0, open_in.1)),
      (open_out.0, ground (arith, same 1, piped 1, open_out.1)),
    )
    Piped-IsOpen i (some p) none s s' (later, no_p, there, same) piped = (
      (open_in.0, ground (arith, same 0, piped 0, open_in.1)),
      (open_out.0, ground (arith, same 1, piped 1, open_out.1)),
    )
    Piped-IsOpen i (some p) (some (r, w)) s s' (later, no_p, there, same) (no_r, no_w, ne, piped) =
        (
          (open_in.0, ground (arith, same 0, piped 0, open_in.1)),
          (open_out.0, ground (arith, same 1, piped 1, open_out.1)),
        )

    -- The shell's descriptors after a round.
    pub Prev-next :
        (i r w : ℕ) (prev : Option ℕ) (s s' : Table)
        → Prev t i prev s
        → Piped s i (some (r, w)) s'
        → Prev t (i + 1) (some r) (keep_reading (some (r, w)) (close_prev prev s'))
    unfolding keep_reading close_prev
    Prev-next i r w none s s' (start, same) (no_r, no_w, ne, piped) = (
      omega arith,
      ground (arith, same r),
      ground (arith, piped r),
      λ x other. ground (arith, same x, piped x, same w),
    )
    Prev-next i r w (some p) s s' (later, no_p, there, same) (no_r, no_w, ne, piped) = (
      omega arith,
      ground (arith, same r),
      ground (arith, piped r),
      λ x other. ground (arith, same x, piped x, same w),
    )

    pub Prev-last :
        (i : ℕ) (prev : Option ℕ) (s s' : Table)
        → Prev t i prev s
        → Piped s i none s'
        → IsKept t (keep_reading none (close_prev prev s'))
    unfolding keep_reading close_prev
    Prev-last i none s s' (start, same) piped x = ground (arith, same x, piped x)
    Prev-last i (some p) s s' (later, no_p, there, same) piped x = ground (arith, same x, piped x)

    pub Prev-close :
        (i : ℕ) (prev : Option ℕ) (s : Table) → Prev t i prev s → IsKept t (close_prev prev s)
    unfolding close_prev
    Prev-close i none s (start, same) x = same x
    Prev-close i (some p) s (later, no_p, there, same) x = ground (arith, same x)

    pub Prev-Leaks : (i : ℕ) (prev : Option ℕ) (s : Table) → Prev t i prev s → Leaks t s
    Prev-Leaks i none s (start, same) = inl same
    Prev-Leaks i (some p) s (later, no_p, there, same) = inr (p, i - 1, λ x. ground (arith, same x))

    -- The child of a round.
    pub run_child-Wired :
        (i : ℕ) (bytes argv : List ℕ) (prev : Option ℕ) (pipefds : Option (ℕ × ℕ)) (s s' : Table)
        → Prev t i prev s
        → Piped s i pipefds s'
        → ((run_child sys files i bytes argv prev pipefds s' ≡ open_error)
            × (((i == 0 && files.input) || (is_last pipefds && files.output)) ≡ true))
          ⊎ ((c : Table) × (run_child sys files i bytes argv prev pipefds s' ≡ execs bytes argv c)
              × IsWiredTable t open_in open_out files i (is_last pipefds) c)
    unfolding run_child
    run_child-Wired i bytes argv prev pipefds s s' before piped =
        let both = Piped-IsOpen i prev pipefds s s' before piped in
        elim (Option-cases (redirect_to sys (i == 0 && files.input) input_file 0 s')) [
          | inl refused ↦ inl (
            ground arith,
            ground (arith, redirect_to-wanted sys (i == 0 && files.input) input_file 0 s' refused),
          )
          | inr (a, first) ↦
              let reds = (λ (x : ℕ).
                redirect_to-all sys (i == 0 && files.input) input_file 0 x s' a both.0 first) in
              elim (Option-cases
                (redirect_to sys (is_last pipefds && files.output) output_file 1 a)) [
                  | inl refused ↦ inl (
                    ground arith,
                    ground (
                      arith,
                      redirect_to-wanted sys (is_last pipefds && files.output) output_file 1 a
                          refused,
                    ),
                  )
                  | inr (u, second) ↦
                      let out : IsOpen a 1 = (both.1.0, ground (arith, both.1.1, reds 1)) in
                      let all = (λ (x : ℕ).
                        redirect_to-all sys (is_last pipefds && files.output) output_file 1 x a u
                          out second) in
                      inr (
                        give_pipe pipefds (take_prev prev u),
                        ground arith,
                        wired t open_in open_out files i prev pipefds s s' u before piped
                            (λ x. ground (arith, reds x, all x)),
                      )
                ]
        ]
