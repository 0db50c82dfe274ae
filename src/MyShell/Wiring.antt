-- ===== src/MyShell/Wiring.antt =====
-- The descriptors of the children of run_commands and of the shell itself.
use seminars.Base.{
  ℕ, ◌-◌, ◌<◌, ◌≡◌, ◌≢◌, inl, inr, refl, Bool, true, false, Option-cases, ◌&&◌, ◌||◌, Option, none,
  some, ◌==◌, if◌then◌else◌, arith, update,
}
use seminars.MyShell.Run.{
  File, input_file, output_file, read_end, write_end, Table, close, dup2, System, redirect_to,
  take_prev, give_pipe, HasFiles, is_last,
}

-- The descriptor is in use.
abbrev pub IsOpen : Table → ℕ → Type 0
IsOpen t fd = (f : File) × (t fd ≡ some f)

-- The descriptor moves to the target, and all others stay.
moved :
    (t : Table) (fd target x : ℕ) (f : File)
    → t fd ≡ some f
    → fd ≢ target
    → close fd (dup2 fd target t) x
      ≡ (if x == fd then none else if x == target then some f else t x)
moved t fd target x f e ne = ground arith

pub redirect_to-all :
    (sys : System) (wanted : Bool) (f : File) (target x : ℕ) (t t' : Table)
    → IsOpen t target
    → redirect_to sys wanted f target t ≡ some t'
    → t' x ≡ (if x == target && wanted then some f else t x)
unfolding redirect_to
redirect_to-all sys false f target x t t' (g, there) e = ground arith
redirect_to-all sys true f target x t t' (g, there) e = elim (Option-cases (sys.open_file f t)) [
  | inl refused ↦ ground arith
  | inr (fd, opened) ↦
      let new = sys.open_file-new f t fd opened in
      let apart : fd ≢ target = ground arith in
      let result : t' x ≡ close fd (dup2 fd target (update t fd (some f))) x = ground arith in
      ground (arith, moved (update t fd (some f)) fd target x f (ground arith) apart)
]

-- Without a redirection nothing can fail.
pub redirect_to-wanted :
    (sys : System) (wanted : Bool) (f : File) (target : ℕ) (t : Table)
    → redirect_to sys wanted f target t ≡ none
    → wanted ≡ true
unfolding redirect_to
redirect_to-wanted sys false f target t e = ground arith
redirect_to-wanted sys true f target t e = refl

take_prev-all :
    (p x : ℕ) (f : File) (t : Table)
    → t p ≡ some f
    → p ≢ 0
    → take_prev (some p) t x ≡ (if x == p then none else if x == 0 then some f else t x)
unfolding take_prev
take_prev-all p x f t e ne = moved t p 0 x f e ne

give_pipe-all :
    (r w x : ℕ) (f : File) (t : Table)
    → t w ≡ some f
    → w ≢ 1
    → r ≢ 1
    → give_pipe (some (r, w)) t x
      ≡ (if x == w || x == r then none else if x == 1 then some f else t x)
unfolding give_pipe
give_pipe-all r w x f t e ne ne' = ground arith

-- What holds when command `i` begins: nothing but the pipe from the command before, if there is one,
-- differs from the shell's descriptors.
abbrev pub Prev : Table → ℕ → Option ℕ → Table → Type 0
Prev t i none s = (i ≡ 0) × ((x : ℕ) → s x ≡ t x)
Prev t i (some p) s =
    (0 < i) × (t p ≡ none) × (s p ≡ some (read_end (i - 1))) × ((x : ℕ) → x ≢ p → s x ≡ t x)

-- The descriptors with the pipe to the next command.
abbrev pub Piped : Table → ℕ → Option (ℕ × ℕ) → Table → Type 0
Piped s i none s' = (x : ℕ) → s' x ≡ s x
Piped s i (some (r, w)) s' =
    (s r ≡ none)
    × (s w ≡ none)
    × (r ≢ w)
    × ((x : ℕ)
        → s' x ≡ (if x == w then some (write_end i) else if x == r then some (read_end i) else s x))

-- The standard input and output that command `i` is to have.
abbrev pub stdin_of : Table → HasFiles → ℕ → Option File
stdin_of t files i =
    if i == 0 then (if files.input then some input_file else t 0) else some (read_end (i - 1))

abbrev pub stdout_of : Table → HasFiles → Bool → ℕ → Option File
stdout_of t files last i =
    if last then (if files.output then some output_file else t 1) else some (write_end i)

module _ (t : Table) (open_in : IsOpen t 0) (open_out : IsOpen t 1) (files : HasFiles) where
  -- The table of a child: its standard input and output, and otherwise what the shell has.
  abbrev pub IsWiredTable : ℕ → Bool → Table → Type 0
  IsWiredTable i last c =
      (x : ℕ)
      → c x
        ≡ (if x == 0 then stdin_of t files i else if x == 1 then stdout_of t files last i else t x)

  -- The table after the redirections.
  abbrev pub Redirected : ℕ → Bool → Table → Table → Type 0
  Redirected i last s u =
      (x : ℕ)
      → u x ≡ (
          if x == 0 && (i == 0 && files.input)
          then some input_file
          else if x == 1 && (last && files.output)
          then some output_file
          else s x)

  module _ (i : ℕ) (s s' u : Table) where
    wired_alone :
        Prev t i none s
        → Piped s i none s'
        → Redirected i true s' u
        → IsWiredTable i true (give_pipe none (take_prev none u))
    unfolding give_pipe take_prev
    wired_alone (start, same) piped red x = ground (arith, same x, piped x, red x)

    wired_first :
        (r w : ℕ)
        → Prev t i none s
        → Piped s i (some (r, w)) s'
        → Redirected i false s' u
        → IsWiredTable i false (give_pipe (some (r, w)) u)
    wired_first r w (start, same) (no_r, no_w, ne, piped) red x =
        let outside : (r ≢ 0) × (w ≢ 0) × (r ≢ 1) × (w ≢ 1) =
          ground (arith, open_in.1, open_out.1, same 0, same 1) in
        let at_w : u w ≡ some (write_end i) = ground (arith, piped w, red w) in
        let all = give_pipe-all r w x (write_end i) u at_w outside.3 outside.2 in
        ground (arith, all, same x, same r, same w, piped x, red x)

    wired_last :
        (p : ℕ)
        → Prev t i (some p) s
        → Piped s i none s'
        → Redirected i true s' u
        → IsWiredTable i true (take_prev (some p) u)
    wired_last p (later, no_p, there, same) piped red x =
        let outside : p ≢ 0 = ground (arith, open_in.1) in
        let at_p : u p ≡ some (read_end (i - 1)) = ground (arith, piped p, red p) in
        let all = take_prev-all p x (read_end (i - 1)) u at_p outside in
        ground (arith, all, same x, piped x, red x)

    -- For a command between two others: what take_prev leaves.
    taken_between :
        (p r w : ℕ)
        → Prev t i (some p) s
        → Piped s i (some (r, w)) s'
        → Redirected i false s' u
        → (y : ℕ)
        → take_prev (some p) u y ≡ (
            if y == p
            then none
            else if y == 0
            then some (read_end (i - 1))
            else if y == w
            then some (write_end i)
            else if y == r
            then some (read_end i)
            else t y)
    taken_between p r w (later, no_p, there, same) (no_r, no_w, ne, piped) red y =
        let outside : (p ≢ 0) × (r ≢ p) × (w ≢ p) = ground (arith, open_in.1) in
        let at_p : u p ≡ some (read_end (i - 1)) = ground (arith, piped p, red p) in
        let all = take_prev-all p y (read_end (i - 1)) u at_p outside.0 in
        ground (arith, all, piped y, red y, same y)

    wired_between :
        (p r w : ℕ)
        → Prev t i (some p) s
        → Piped s i (some (r, w)) s'
        → Redirected i false s' u
        → IsWiredTable i false (give_pipe (some (r, w)) (take_prev (some p) u))
    wired_between p r w (later, no_p, there, same) (no_r, no_w, ne, piped) red x =
        let taken = taken_between p r w (later, no_p, there, same) (no_r, no_w, ne, piped) red in
        let outside : (p ≢ 0) × (p ≢ 1) × (r ≢ p) × (w ≢ p) =
          ground (arith, open_in.1, open_out.1) in
        let other : (r ≢ 0) × (w ≢ 0) × (r ≢ 1) × (w ≢ 1) =
          ground (arith, open_in.1, open_out.1, same 0, same 1, outside) in
        let at_w : take_prev (some p) u w ≡ some (write_end i) =
          ground (arith, taken w, other, outside) in
        let all = give_pipe-all r w x (write_end i) (take_prev (some p) u) at_w other.3 other.2 in
        ground (arith, all, taken x, same r, same w, outside, other)

  pub wired :
      (i : ℕ) (prev : Option ℕ) (pipefds : Option (ℕ × ℕ)) (s s' u : Table)
      → Prev t i prev s
      → Piped s i pipefds s'
      → Redirected i (is_last pipefds) s' u
      → IsWiredTable i (is_last pipefds) (give_pipe pipefds (take_prev prev u))
  unfolding give_pipe take_prev
  wired i none none s s' u = wired_alone i s s' u
  wired i none (some (r, w)) s s' u = wired_first i s s' u r w
  wired i (some p) none s s' u = wired_last i s s' u p
  wired i (some p) (some (r, w)) s s' u = wired_between i s s' u p r w
