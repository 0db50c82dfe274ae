-- ===== src/CpMmap/Release.antt =====
-- What main releases, and what it leaves in the target.
use mathlib.Core.Path.{subst}
use seminars.Base.{
  ℕ, ◌≡◌, ◌≢◌, ◌⊎◌, inl, inr, refl, ap, sym, false, Bool-cases, Option-cases, Option, none, some,
  List, [], ◌∷◌, length, length-replicate, take, replicate, Bool, true, ◌∙◌, ◌==◌, arith,
  ℕ_discrete,
}
use seminars.CpMmap.{
  Calls, Process, fresh, close, munmap, mapped_bytes, copy_mapped, with_source, with_files, main,
}

-- Nothing is held at the end.
abbrev pub IsReleased : Process → Type 0
IsReleased p = (p.fds ≡ []) × (p.maps ≡ [])

-- What a copy leaves: a file that is copied onto itself has been emptied before.
abbrev pub copy_of : Bool → List ℕ → List ℕ
copy_of false source = source
copy_of true source = replicate (length source) 0

-- The ends of a run, by its status and its target, and what a failure is due to.
pub data Copies (calls : Calls) (argc : ℕ) (source : List ℕ) (r : ℕ × Process) : Type 0 where
  copied : r.0 ≡ 0 → r.1.target ≡ some (copy_of calls.same_file source) → Copies calls argc source r
  untouched :
      (argc ≢ 3) ⊎ ((calls.stat ≡ none) ⊎ ((calls.open_from ≡ none) ⊎ (calls.open_to ≡ none)))
      → r.0 ≡ 1
      → r.1.target ≡ none
      → Copies calls argc source r
  emptied : calls.ftruncate ≡ false → r.0 ≡ 1 → r.1.target ≡ some [] → Copies calls argc source r
  zeroed :
      (calls.mmap_from ≡ none) ⊎ (calls.mmap_to ≡ none)
      → r.0 ≡ 1
      → r.1.target ≡ some (replicate (length source) 0)
      → Copies calls argc source r

-- Both.
abbrev pub Ends : Calls → ℕ → List ℕ → ℕ × Process → Type 0
Ends calls argc source r = Copies calls argc source r × IsReleased r.1

take-all : (l : List ℕ) → take (length l) l ≡ l
take-all [] = refl
take-all (x ∷ l) = ap (λ t. x ∷ t) (take-all l)

module _ (calls : Calls) (source : List ℕ) (from to : ℕ) where
  copied_bytes :
      (same : Bool) (p : Process)
      → p.target ≡ some (replicate (length source) 0)
      → take (length source) (mapped_bytes same source p) ≡ copy_of same source
  copied_bytes false p e = take-all source
  copied_bytes true p e =
      let zeros : mapped_bytes true source p ≡ replicate (length source) 0 = rw e refl in
      let size : length (replicate {A = ℕ} (length source) 0) ≡ length source =
        length-replicate (length source) 0 in
      ap (take (length source)) zeros
      ∙ ap (λ n. take n (replicate (length source) 0)) (sym size)
      ∙ take-all (replicate (length source) 0)

  with_source-Ends :
      (mapped : Option ℕ) (at : ℕ) (p : Process)
      → calls.mmap_to ≡ mapped
      → p.fds ≡ to ∷ from ∷ []
      → p.maps ≡ (at, length source) ∷ []
      → p.target ≡ some (replicate (length source) 0)
      → Ends calls 3 source (with_source mapped (length source) calls.same_file source from to at p)
  unfolding with_source close munmap copy_mapped
  with_source-Ends none at p e fds maps target =
      (zeroed (inr e) refl target, (ground (arith, fds), ground (arith, maps)))
  with_source-Ends (some to_at) at p e fds maps target = (
    copied refl (
        ap some (
          copied_bytes calls.same_file (record p { maps = (to_at, length source) ∷ p.maps })
            target)),
    (ground (arith, fds), ground (arith, maps)),
  )

  with_files-Ends :
      (p : Process)
      → p.fds ≡ to ∷ from ∷ []
      → p.maps ≡ []
      → p.target ≡ some []
      → Ends calls 3 source (with_files calls (length source) source from to p)
  unfolding with_files close
  with_files-Ends p fds maps target = elim (Bool-cases calls.ftruncate) [
    | inr no_space ↦ simp no_space (emptied no_space refl target, (ground (arith, fds), maps))
    | inl made ↦ elim (Option-cases calls.mmap_from) [
      | inl unmapped ↦
          simp (made, unmapped) (zeroed (inl unmapped) refl refl, (ground (arith, fds), maps))
      | inr (at, mapped) ↦
          simp (made, mapped)
            (with_source-Ends calls.mmap_to at
              (record p {
                target = some (replicate (length source) 0);
                maps = (at, length source) ∷ p.maps;
              })
              refl fds (ap (λ m. (at, length source) ∷ m) maps) refl)
    ]
  ]

module _ (calls : Calls) (source : List ℕ) where
  -- With the right number of arguments.
  main-three :
      ((size : ℕ) → calls.stat ≡ some size → size ≡ length source)
      → Ends calls 3 source (main calls 3 source)
  unfolding main close
  main-three whole = elim (Option-cases calls.stat) [
    | inl none_seen ↦ simp none_seen (untouched (inr (inl none_seen)) refl refl, (refl, refl))
    | inr (size, seen) ↦ elim (Option-cases calls.open_from) [
      | inl no_from ↦
          simp (seen, no_from) (untouched (inr (inr (inl no_from))) refl refl, (refl, refl))
      | inr (from, opened) ↦ elim (Option-cases calls.open_to) [
        | inl no_to ↦
            simp (seen, opened, no_to)
              (untouched (inr (inr (inr no_to))) refl refl, (ground arith, refl))
        | inr (to, made) ↦
            let run : main calls 3 source
                ≡ with_files calls (length source) source from to
                    (record fresh { fds = to ∷ from ∷ []; target = some [] }) =
              ground (arith, whole size seen) in
            subst (Ends calls 3 source) (sym run) (
              with_files-Ends calls source from to
                (record fresh { fds = to ∷ from ∷ []; target = some [] }) refl refl refl)
      ]
    ]
  ]

-- Whatever calls fail, main releases every descriptor and every mapping. It succeeds unless the
-- number of arguments is wrong or a call fails, and then the target has the bytes of the source, or
-- as many zeros if the two paths name one file;
-- otherwise the status is 1, and the target is untouched, empty or full of zeros, by the call that
-- has failed. The size that stat gives is that of the source
-- before.
pub main-Ends :
    (calls : Calls) (argc : ℕ) (source : List ℕ)
    → ((size : ℕ) → calls.stat ≡ some size → size ≡ length source)
    → Ends calls argc source (main calls argc source)
unfolding main close
main-Ends calls argc source whole = elim (ℕ_discrete argc 3) [
  | no other ↦
      let refused : (argc == 3) ≡ false = ground arith in
      simp refused (untouched (inl other) refl refl, (refl, refl))
  | yes three ↦
      subst (λ n. Ends calls n source (main calls n source)) (sym three)
        (main-three calls source whole)
]
