-- ===== src/Wc/Main.antt =====
-- wc/wc.c: `main`, which runs a program, passes its output on, and reports the counters.
use seminars.Base.{
  ℕ, ◌<◌, ◌≡◌, ◌≢◌, refl, Bool, true, false, not, ◌&&◌, ◌||◌, update, Option, none, some, length,
  words, split_on, ◌%◌, ◌^◌, ◌-◌, ◌==◌, ltb, if◌then◌else◌, arith,
}
use seminars.Kernel.{Kernel, IsApart}
use seminars.Transfer.{Outcome, success, failure}
use seminars.Transfer.Write.{Delivered}
use seminars.Wc.{Info, no_count, copy_file}
use seminars.Wc.Copy.{copy_file-passes, copy_file-info}

-- What the calls of main return: whether pipe and the two gettimeofday succeed, and the process
-- that fork and wait name, which is none for -1.
pub record Calls : Type 0 where
  pub pipe : Bool
  pub start_time : Bool
  pub fork : Option ℕ
  pub wait : Option ℕ
  pub end_time : Bool

-- `wait(NULL) != pid`, negated
unfoldable pub same_pid : Option ℕ → Option ℕ → Bool
same_pid none none = true
same_pid none (some q) = false
same_pid (some p) none = false
same_pid (some p) (some q) = p == q

-- `dup2(fd, 1)` for what `fd` stands for.
abbrev pub onto_stdout : Option ℕ → (ℕ → Option ℕ) → ℕ → Option ℕ
onto_stdout none t = t
onto_stdout (some f) t = update t 1 (some f)

-- The child's descriptors at the call of execvp; `t` has what each open descriptor stands for.
unfoldable pub child_table : ℕ → ℕ → (ℕ → Option ℕ) → ℕ → Option ℕ
child_table r w t = let closed = update t r none in update (onto_stdout (closed w) closed) w none

-- The program writes into the pipe, and has neither of the pipe's own descriptors.
child_table-stdout :
    (r w f x : ℕ) (t : ℕ → Option ℕ)
    → r ≢ 1
    → w ≢ 1
    → r ≢ w
    → t w ≡ some f
    → child_table r w t x ≡ (if x == 1 then some f else if x == r || x == w then none else t x)
unfolding child_table
child_table-stdout r w f x t nr nw ne e = ground arith

module _ {S : Type 0} (k : Kernel S) (pipe_from : ℕ) where
  -- `main` in the parent: its status, the counters it reports, and its state. A failing fork takes
  -- this branch too, and the status of copy_file is not looked at.
  unfoldable pub main : ℕ → Calls → ℕ → S → Outcome × Option Info × S
  unfolding copy_file same_pid
  main argc calls fuel s =
      let (o, st, s') = copy_file k fuel pipe_from 1 no_count s in
      if ltb argc 2
      then (failure, none, s)
      else if not calls.pipe
      then (failure, none, s)
      else if not calls.start_time
      then (failure, none, s)
      else if not (same_pid calls.wait calls.fork)
      then (failure, none, s')
      else if not calls.end_time
      then (failure, none, s')
      else (success, some st.info, s')

-- All calls but fork and copy_file have gone well, and wait names what fork has returned.
abbrev pub all_well : ℕ → Calls → Bool
all_well argc calls =
    not (ltb argc 2)
    && (calls.pipe && (calls.start_time && (same_pid calls.wait calls.fork && calls.end_time)))

module _ {S : Type 0} (k : Kernel S) {pipe_from : ℕ} (apart : IsApart k pipe_from 1) where
  -- A successful end: copy_file has run before, its output is what it has delivered of the text,
  -- and the report has the counters that it has left, which after its success are those of the text.
  abbrev pub Reports : ℕ → S → Outcome × Option Info × S → Type 0
  Reports fuel s r =
      let text = k.pending s pipe_from in
      let (copied, count, s') = copy_file k fuel pipe_from 1 no_count s in
      let info = count.info in
      (r.0 ≡ success)
      × (r.1 ≡ some info)
      × (r.2 ≡ s')
      × Delivered k 1 text s (copied, s')
      × (copied ≡ success
          → (info.bytes ≡ length text % 2 ^ 64)
            × (info.words ≡ length (words text) % 2 ^ 64)
            × (info.lines ≡ (length (split_on (λ c. c == 10) text) - 1) % 2 ^ 64))

  main-ends :
      (argc : ℕ) (calls : Calls) (fuel : ℕ) (s : S)
      → let (o, st, s') = copy_file k fuel pipe_from 1 no_count s in
        all_well argc calls ≡ true
        → main k pipe_from argc calls fuel s ≡ (success, some st.info, s')
  unfolding main
  main-ends argc calls fuel s h = ground arith

  main-fails :
      (argc : ℕ) (calls : Calls) (fuel : ℕ) (s : S)
      → all_well argc calls ≡ false
      → let r = main k pipe_from argc calls fuel s in (r.0 ≡ failure) × (r.1 ≡ none)
  unfolding main
  main-fails argc calls fuel s h = ground arith

  -- With a round more than the program's output has bytes: if there is a program to run, pipe and
  -- both gettimeofday succeed and wait returns what fork has returned, main of wc returns success
  -- and reports the counters that copy_file has left. If copy_file has succeeded, all of the output
  -- is passed on, and these are the number of its bytes, words and line ends modulo 2 ^ 64; if it
  -- has failed, a front part of the output is passed on. Otherwise main fails and reports nothing.
  pub main-Reports :
      (argc : ℕ) (calls : Calls) (fuel : ℕ) (s : S)
      → length (k.pending s pipe_from) < fuel
      → let r = main k pipe_from argc calls fuel s in
        (all_well argc calls ≡ true → Reports fuel s r)
        × (all_well argc calls ≡ false → (r.0 ≡ failure) × (r.1 ≡ none))
  main-Reports argc calls fuel s h = (
    λ well. rw (main-ends argc calls fuel s well) (
      refl,
      refl,
      refl,
      (copy_file-passes k apart fuel no_count s h).1,
      copy_file-info k apart fuel s,
    ),
    main-fails argc calls fuel s,
  )
