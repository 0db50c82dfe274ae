-- ===== src/Pcat/Files.antt =====
-- What the child of pcat writes into the pipe.
use mathlib.Core.Path.{subst}
use seminars.Base.{
  ℕ, ◌<◌, ◌≡◌, refl, sym, ap, ◌∙◌, inl, inr, Option, Option-cases, none, some, List, [], ◌∷◌, ◌++◌,
  length, length-append, append-nil, append_assoc, arith,
}
use seminars.Kernel.{Kernel, IsApart}
use seminars.Transfer.{Outcome, success, failure, no_fuel}
use seminars.Transfer.Write.{Delivered, Delivered-append}
use seminars.Pcat.{copy_file}
use seminars.Pcat.Copy.{copy_file-Delivered}
use seminars.Pcat.Main.{Files, copy_files, run_child}

abbrev pub text_of : Option (List ℕ) → List ℕ
text_of none = []
text_of (some t) = t

module _ {S : Type 0} (k : Kernel S) {to : ℕ} (f : Files k to) where
  -- The files that can be read, one behind the other.
  abbrev pub all_text : List (List ℕ) → List ℕ
  all_text [] = []
  all_text (path ∷ paths) = text_of (f.text path) ++ all_text paths

  -- What the child is asked for.
  abbrev pub wanted : List (List ℕ) → S → List ℕ
  wanted [] s = k.pending s 0
  wanted (path ∷ paths) s = all_text (path ∷ paths)

  -- A closed descriptor changes nothing of what is delivered.
  Delivered-close :
      (text : List ℕ) (s : S) (o : Outcome) (s' : S) (fd : ℕ)
      → Delivered k to text s (o, s')
      → Delivered k to text s (o, f.close s' fd)
  Delivered-close text s success s' fd d = f.close_keeps s' fd ∙ d
  Delivered-close text s failure s' fd (front, back, e, out) =
      (front, back, e, f.close_keeps s' fd ∙ out)
  Delivered-close text s no_fuel s' fd d = d

  copy_files-skips :
      (fuel : ℕ) (path : List ℕ) (paths : List (List ℕ)) (s : S)
      → (f.open_file s path).0 ≡ none
      → copy_files k f fuel (path ∷ paths) s ≡ copy_files k f fuel paths (f.open_file s path).1
  unfolding copy_files
  copy_files-skips fuel path paths s e = ground arith

  -- What follows the copy of one file.
  after_copy : ℕ → List (List ℕ) → ℕ → Outcome × S → Outcome × S
  after_copy fuel paths fd (success, s) = copy_files k f fuel paths (f.close s fd)
  after_copy fuel paths fd (failure, s) = (failure, f.close (f.close s fd) to)
  after_copy fuel paths fd (no_fuel, s) = (no_fuel, s)

  copy_files-copies :
      (fuel fd : ℕ) (path : List ℕ) (paths : List (List ℕ)) (s : S)
      → (f.open_file s path).0 ≡ some fd
      → copy_files k f fuel (path ∷ paths) s
        ≡ after_copy fuel paths fd (copy_file k fuel fd to (f.open_file s path).1)
  unfolding copy_files after_copy
  copy_files-copies fuel fd path paths s e = ground arith

  after_copy-Delivered :
      (fuel fd : ℕ) (paths : List (List ℕ)) (first rest : List ℕ) (s : S) (w : Outcome × S)
      → Delivered k to first s w
      → ((t : S) → Delivered k to rest t (copy_files k f fuel paths t))
      → Delivered k to (first ++ rest) s (after_copy fuel paths fd w)
  unfolding after_copy
  after_copy-Delivered fuel fd paths first rest s (success, t) d more =
      Delivered-append k to (first ++ rest) first rest s (f.close t fd) _ refl
        (f.close_keeps t fd ∙ d) (more (f.close t fd))
  after_copy-Delivered fuel fd paths first rest s (failure, t) (front, back, split, out) more = (
    front,
    back ++ rest,
    rw split (append_assoc front back rest),
    f.close_keeps (f.close t fd) to ∙ f.close_keeps t fd ∙ out,
  )
  after_copy-Delivered fuel fd paths first rest s (no_fuel, t) d more = absurd d

  -- With more rounds than the files have bytes together, the child delivers them all, or a front
  -- part of them if a call fails.
  copy_files-Delivered :
      (fuel : ℕ) (paths : List (List ℕ)) (s : S)
      → length (all_text paths) < fuel
      → Delivered k to (all_text paths) s (copy_files k f fuel paths s)
  copy_files-Delivered fuel [] s h = unfold copy_files in f.close_keeps s to ∙ sym (append-nil _)
  copy_files-Delivered fuel (path ∷ paths) s h =
      let size = length-append (text_of (f.text path)) (all_text paths) in
      let s' = (f.open_file s path).1 in
      elim (Option-cases (f.open_file s path).0) [
        | inl e ↦
            subst (Delivered k to (all_text (path ∷ paths)) s)
              (sym (copy_files-skips fuel path paths s e))
              (Delivered-append k to (all_text (path ∷ paths)) [] (all_text paths) s s' _
                (ap (λ t. text_of t ++ all_text paths) (f.open_file_none s path e))
                (f.open_file_keeps s path ∙ sym (append-nil _))
                (copy_files-Delivered fuel paths s' (omega (arith, size))))
        | inr (fd, e) ↦
            let (found, apart) = f.open_file_some s path fd e in
            let same = ap text_of found in
            subst (Delivered k to (all_text (path ∷ paths)) s)
              (sym (copy_files-copies fuel fd path paths s e))
              (Delivered-append k to (all_text (path ∷ paths)) [] (all_text (path ∷ paths)) s s' _
                refl (f.open_file_keeps s path ∙ sym (append-nil _))
                (after_copy-Delivered fuel fd paths (text_of (f.text path)) (all_text paths) s' _
                  (subst (λ l. Delivered k to l s' (copy_file k fuel fd to s')) (sym same)
                    (copy_file-Delivered k apart fuel s' (omega (arith, size, ap length same))))
                  (λ t. copy_files-Delivered fuel paths t (omega (arith, size)))))
      ]

  pub run_child-Delivered :
      (fuel pipe_from : ℕ) (paths : List (List ℕ)) (s : S)
      → IsApart k 0 to
      → length (wanted paths s) < fuel
      → Delivered k to (wanted paths s) s (run_child k f fuel pipe_from paths s)
  unfolding run_child
  run_child-Delivered fuel pipe_from [] s apart h =
      let s' = f.close s pipe_from in
      let same = f.close_pending s pipe_from in
      Delivered-close (k.pending s 0) s _ _ to (
        Delivered-append k to (k.pending s 0) [] (k.pending s 0) s s' _ refl
          (f.close_keeps s pipe_from ∙ sym (append-nil _))
          (subst (λ l. Delivered k to l s' (copy_file k fuel 0 to s')) same
            (copy_file-Delivered k apart fuel s' (omega (arith, ap length same)))))
  run_child-Delivered fuel pipe_from (path ∷ paths) s apart h =
      Delivered-append k to (all_text (path ∷ paths)) [] (all_text (path ∷ paths)) s
        (f.close s pipe_from) _ refl (f.close_keeps s pipe_from ∙ sym (append-nil _))
        (copy_files-Delivered fuel (path ∷ paths) (f.close s pipe_from) h)
