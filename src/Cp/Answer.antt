-- ===== src/Cp/Answer.antt =====
-- What copy_file does in each case, and the user's answer.
use mathlib.Core.Path.{subst}
use seminars.Base.{
  ℕ, zero, suc, ◌+◌, ◌<◌, ◌≤◌, ◌≡◌, ◌≢◌, inl, inr, refl, ap, ◌∙◌, Bool, true, false, Bool-cases,
  Option-cases, not, ◌&&◌, ◌||◌, none, some, List, [], ◌∷◌, ◌++◌, append_assoc, All, length, take,
  get_or, ◌==◌, arith,
}
use seminars.Kernel.{Kernel, IsApart, wrote, ReadResult-cases, WriteResult-cases}
use seminars.Transfer.{success, failure, write_loop}
use seminars.Transfer.Write.{Delivered}
use seminars.Cp.{Mode}
use seminars.Cp.Copy.{
  buffer_size, write_again, copy_loop, skip_line, ask, Files, Copied, close, may_write, copy_file,
}
use seminars.Pcat
use seminars.Pcat.Copy.{copy_file-Delivered}

module _ {S : Type 0} (k : Kernel S) where
  -- A descriptor that accepts all the bytes of a write or fails, as a regular file mostly does.
  abbrev pub IsFull : ℕ → Type 0
  IsFull to = (s : S) (n : ℕ) (bytes : List ℕ) → (k.write s to bytes).0 ≡ wrote n → n ≡ length bytes

  write_again-write_loop :
      (fuel to b : ℕ) (bs : List ℕ) (s : S)
      → IsFull to
      → write_again k (suc (suc fuel)) to (b ∷ bs) 0 s
        ≡ write_loop k (suc (suc fuel)) to (b ∷ bs) 0 s
  unfolding write_again write_loop
  write_again-write_loop fuel to b bs s full = elim (WriteResult-cases (k.write s to (b ∷ bs)).0) [
    | inl e ↦ ground arith
    | inr (n, e) ↦ ground (arith, full s n (b ∷ bs) e)
  ]

  -- To such a descriptor, cp copies as pcat does.
  copy_loop-copy_file :
      (fuel from to : ℕ) (s : S)
      → IsFull to
      → copy_loop k fuel from to s ≡ Pcat.copy_file k fuel from to s
  unfolding copy_loop Pcat.copy_file
  copy_loop-copy_file zero from to s full = refl
  copy_loop-copy_file (suc fuel) from to s full =
      elim (ReadResult-cases (k.read s from buffer_size).0) [
        | inl e ↦ ground arith
        | inr ([], e) ↦ ground arith
        | inr (b ∷ bs, e) ↦
            let s' = (k.read s from buffer_size).1 in
            let same = write_again-write_loop 3 to b bs s' full in
            let rest =
              copy_loop-copy_file fuel from to (write_loop k (suc buffer_size) to (b ∷ bs) 0 s').1
                full in
            ground (arith, same, rest)
      ]

  -- The first byte of the answer says yes.
  abbrev pub says_yes : List ℕ → Bool
  says_yes input = get_or input 0 0 == b'y' || get_or input 0 0 == b'Y'

  -- An existing target is kept unless -f, or -i and the user says yes.
  abbrev pub keeps_target : Mode → Files → List ℕ → Bool
  keeps_target mode files input =
      files.dst_exists && (not mode.force && not (mode.interactive && says_yes input))

  -- What a call does, in each of its cases.
  pub data Copies (mode : Mode) (files : Files) (input : List ℕ) (s : S) (r : Copied S)
      : Type 0 where
    no_source : files.src ≡ none → r.outcome ≡ failure → r.system ≡ s → Copies mode files input s r
    kept :
        (from : ℕ)
        → files.src ≡ some from
        → keeps_target mode files input ≡ true
        → r.outcome ≡ success
        → r.system ≡ s
        → Copies mode files input s r
    no_target :
        (from : ℕ)
        → files.src ≡ some from
        → keeps_target mode files input ≡ false
        → files.dst ≡ none
        → r.outcome ≡ failure
        → r.system ≡ s
        → Copies mode files input s r
    copied :
        (from to : ℕ)
        → keeps_target mode files input ≡ false
        → files.src ≡ some from
        → files.dst ≡ some to
        → Delivered k to (k.pending s from) s (r.outcome, r.system)
        → Copies mode files input s r

  may_write-keeps_target :
      (mode : Mode) (files : Files) (input : List ℕ)
      → (may_write mode files.dst_exists input).0 ≡ not (keeps_target mode files input)
  unfolding may_write ask
  may_write-keeps_target mode files [] = ground arith
  may_write-keeps_target mode files (c ∷ input) = ground arith

  close-all : (from to : ℕ) → close to (close from (from ∷ to ∷ [])) ≡ []
  unfolding close
  close-all from to = ground arith

  close-one : (from : ℕ) → close from (from ∷ []) ≡ []
  unfolding close
  close-one from = ground arith

  module _ (fuel : ℕ) (mode : Mode) (files : Files) (input : List ℕ) (s : S) where
    -- Every descriptor that was opened is closed.
    left_open-copy_file : (copy_file k fuel mode files input s).left_open ≡ []
    unfolding copy_file
    left_open-copy_file = elim (Option-cases files.src) [
      | inl no_src ↦ ground arith
      | inr (from, src) ↦ elim (Option-cases files.dst) [
        | inl no_dst ↦ ground (arith, close-one from)
        | inr (to, dst) ↦ ground (arith, close-one from, close-all from to)
      ]
    ]

    -- copy_file closes what it opens. It fails and changes nothing when the source cannot be
    -- opened. When it can, and the target exists and there is neither -f nor -i with a yes, it
    -- succeeds and changes nothing; otherwise it fails and changes nothing when the target cannot be
    -- opened, and else the target gets all the bytes of the source on success, and a front part of them
    -- on failure. The two files are different, the target accepts what a write gives it or fails, and
    -- there is a round more than the source has bytes.
    pub copy_file-Copies :
        ((from to : ℕ) → files.src ≡ some from → files.dst ≡ some to → IsApart k from to)
        → ((to : ℕ) → files.dst ≡ some to → IsFull to)
        → ((from : ℕ) → files.src ≡ some from → length (k.pending s from) < fuel)
        → Copies mode files input s (copy_file k fuel mode files input s)
          × ((copy_file k fuel mode files input s).left_open ≡ [])
    unfolding copy_file
    copy_file-Copies apart full enough = (
      elim (Option-cases files.src) [
        | inl no_src ↦ no_source no_src (ground arith) (ground arith)
        | inr (from, src) ↦ elim (Bool-cases (keeps_target mode files input)) [
          | inl keep ↦
              let refused : (may_write mode files.dst_exists input).0 ≡ false =
                rw (may_write-keeps_target mode files input, keep) refl in
              kept from src keep (ground arith) (ground arith)
          | inr write ↦
              let allowed : (may_write mode files.dst_exists input).0 ≡ true =
                rw (may_write-keeps_target mode files input, write) refl in
              elim (Option-cases files.dst) [
                | inl no_dst ↦ no_target from src write no_dst (ground arith) (ground arith)
                | inr (to, dst) ↦ copied from to write src dst (
                    subst (Delivered k to (k.pending s from) s)
                      (ground (arith, copy_loop-copy_file fuel from to s (full to dst)))
                      (copy_file-Delivered k (apart from to src dst) fuel s (enough from src)))
              ]
        ]
      ],
      left_open-copy_file,
    )

  -- Whenever a first write takes only a front part of the buffer, and a second one enough to make up
  -- the number of bytes, the loop reports success, and the target has got as many of the first bytes
  -- of the buffer as the first write has taken, and behind them as many of its first bytes again as
  -- the second one has taken.
  pub write_again-repeats :
      (fuel to n m : ℕ) (buffer : List ℕ) (s : S)
      → (k.write s to buffer).0 ≡ wrote n
      → n < length buffer
      → (k.write (k.write s to buffer).1 to buffer).0 ≡ wrote m
      → length buffer ≤ n + m
      → let r = write_again k (suc (suc (suc fuel))) to buffer 0 s in
        (r.0 ≡ success) × (k.written r.1 to ≡ k.written s to ++ (take n buffer ++ take m buffer))
  unfolding write_again
  write_again-repeats fuel to n m buffer s first short second enough =
      let s' = (k.write s to buffer).1 in
      let one = k.write_wrote s to n buffer (omega arith) first in
      let two = k.write_wrote s' to m buffer (omega arith) second in
      let same : write_again k (suc (suc (suc fuel))) to buffer 0 s
          ≡ (success, (k.write s' to buffer).1) =
        ground arith in
      (
        ap (λ r. r.0) same,
        ap (λ r. k.written r.1 to) same
            ∙ two.2
            ∙ ap (λ w. w ++ take m buffer) one.2
            ∙ append_assoc (k.written s to) (take n buffer) (take m buffer),
      )

-- A line has no end of line in it.
abbrev pub IsLine : List ℕ → Type 0
IsLine line = All (λ c. c ≢ 10) line

skip_line-IsLine : (line more : List ℕ) → IsLine line → skip_line (line ++ (10 ∷ more)) ≡ more
unfolding skip_line
skip_line-IsLine [] more h = refl
skip_line-IsLine (c ∷ line) more (ne, h) = ground (arith, skip_line-IsLine line more h)

-- The answer to the question is yes for a line that begins with y or Y, and that line is taken from
-- the input; an empty line is no, and takes the line after it as well.
ask-lines :
    (c : ℕ) (line more : List ℕ)
    → c ≢ 10
    → IsLine line
    → (ask (c ∷ (line ++ (10 ∷ more))) ≡ (c == b'Y' || c == b'y', more))
      × (ask (10 ∷ (line ++ (10 ∷ more))) ≡ (false, more))
unfolding ask
ask-lines c line more ne h =
    let skipped = skip_line-IsLine line more h in (ground (arith, skipped), ground (arith, skipped))
