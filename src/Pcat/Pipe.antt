-- ===== src/Pcat/Pipe.antt =====
-- What pcat prints: the composition of the child, the pipe and the parent.
use mathlib.Core.Path.{subst}
use seminars.Base.{
  ℕ, ◌<◌, ◌≡◌, ◌≢◌, refl, sym, ap, ◌∙◌, Bool, true, false, Option, none, some, List, [], ◌∷◌, ◌++◌,
  length, length-append, append-nil, append_assoc, arith,
}
use seminars.Kernel.{Kernel, IsApart}
use seminars.Transfer.{Outcome, success, failure, no_fuel}
use seminars.Transfer.Write.{Delivered}
use seminars.Pcat.{copy_file}
use seminars.Pcat.Copy.{copy_file-Delivered}
use seminars.Pcat.Main.{Files, Parent, Ended, run_child, finish, run_parent, main}
use seminars.Pcat.Files.{wanted, run_child-Delivered}

-- A process has ended, and a front part of the text is out: all of it after a success.
abbrev IsFront : {S : Type 0} → Kernel S → ℕ → List ℕ → S → Outcome × S → Type 0
IsFront k to text s w =
    (w.0 ≢ no_fuel)
    × (front : List ℕ) × (back : List ℕ) × (text ≡ front ++ back)
    × (k.written w.1 to ≡ k.written s to ++ front)
    × (w.0 ≡ success → back ≡ [])

Delivered-IsFront :
    {S : Type 0} (k : Kernel S) (to : ℕ) (text : List ℕ) (s : S) (w : Outcome × S)
    → Delivered k to text s w
    → IsFront k to text s w
Delivered-IsFront k to text s (success, t) d =
    (λ e. cc, text, [], sym (append-nil text), d, λ e. refl)
Delivered-IsFront k to text s (failure, t) (front, back, split, out) =
    (λ e. cc, front, back, split, out, λ e. cc)
Delivered-IsFront k to text s (no_fuel, t) d = absurd d

abbrev pub HasSucceeded : {S : Type 0} → Option (Outcome × S) → Type 0
HasSucceeded none = ⊥
HasSucceeded (some (o, s)) = o ≡ success

abbrev pub HasEnded : {S : Type 0} → Option (Outcome × S) → Type 0
HasEnded none = Unit
HasEnded (some (o, s)) = o ≢ no_fuel

module _ {S T : Type 0} (k : Kernel S) (p : Kernel T) {to pipe_from : ℕ} (f : Files k to)
    (parent : Parent p pipe_from to) where
  -- Both processes have ended. A front part of the text is on the standard output, and all of it if
  -- main and the child succeed.
  abbrev pub IsPrinted : List ℕ → Ended S T → Type 0
  IsPrinted text e =
      (e.parent.0 ≢ no_fuel)
      × HasEnded e.child
      × (front : List ℕ) × (back : List ℕ) × (text ≡ front ++ back)
      × (p.written e.parent.1 1 ≡ front)
      × (e.parent.0 ≡ success → HasSucceeded e.child → back ≡ [])

  module _ (apart : IsApart k 0 to) (pipe_apart : IsApart p pipe_from 1) (fuel : ℕ) where
    start : List ℕ → T
    start bytes = parent.close (parent.connect bytes) to

    start-written : (bytes : List ℕ) → p.written (start bytes) 1 ≡ []
    unfolding start
    start-written bytes =
        parent.close-written (parent.connect bytes) to ∙ parent.connect-written bytes

    finish-IsFront :
        (bytes : List ℕ) (s : T) (w : Outcome × T)
        → IsFront p 1 bytes s w
        → IsFront p 1 bytes s (finish p parent w)
    finish-IsFront bytes s (success, t) (ends, front, back, split, out, whole) = (
      ends,
      front,
      back,
      split,
      parent.wait-written (parent.close t pipe_from) ∙ parent.close-written t pipe_from ∙ out,
      whole,
    )
    finish-IsFront bytes s (failure, t) (ends, front, back, split, out, whole) =
        (ends, front, back, split, parent.close-written t pipe_from ∙ out, whole)
    finish-IsFront bytes s (no_fuel, t) h = h

    -- What the parent makes of the bytes in its pipe.
    parent-IsFront :
        (bytes : List ℕ)
        → length bytes < fuel
        → IsFront p 1 bytes (start bytes) (run_parent p parent fuel bytes)
    unfolding start run_parent
    parent-IsFront bytes h =
        let same = parent.close-pending bytes in
        finish-IsFront bytes (start bytes) (copy_file p fuel pipe_from 1 (start bytes)) (
          Delivered-IsFront p 1 bytes (start bytes) _ (
            subst (λ l. Delivered p 1 l (start bytes) (copy_file p fuel pipe_from 1 (start bytes)))
              same
              (copy_file-Delivered p pipe_apart fuel (start bytes)
                (omega (arith, ap length same)))))

    printed :
        (text : List ℕ) (s : S) (c : Outcome × S)
        → k.written s to ≡ []
        → length text < fuel
        → IsFront k to text s c
        → IsPrinted text
            (record { parent = run_parent p parent fuel (k.written c.1 to); child = some c })
    printed text s c empty h (ends, front, back, split, out, whole) =
        let held : k.written c.1 to ≡ front = out ∙ ap (λ l. l ++ front) empty in
        let size = length-append front back in
        let (ends', front', back', split', out', whole') =
          parent-IsFront (k.written c.1 to)
            (omega (arith, ap length held, ap length split, size)) in
        (
          ends',
          ends,
          front',
          back' ++ back,
          split ∙ ap (λ l. l ++ back) (sym held ∙ split') ∙ append_assoc front' back' back,
          out' ∙ ap (λ l. l ++ front') (start-written (k.written c.1 to)),
          λ good child_good. rw (whole' good, whole child_good) refl,
        )

    main_forked :
        (paths : List (List ℕ)) (s : S)
        → main k p f parent fuel true true paths s
          ≡ some (record {
            parent =
                run_parent p parent fuel (k.written (run_child k f fuel pipe_from paths s).1 to);
            child = some (run_child k f fuel pipe_from paths s);
          })
    unfolding main
    main_forked paths s = refl

    -- pcat with a standard input, an empty pipe and files that are apart, and more rounds than the
    -- text has bytes; the text is that of the files that can be read, in the order of the arguments,
    -- or without arguments the standard input. When pipe and fork succeed, both processes end; a
    -- front part of the text is printed, and all of it if both succeed. When fork fails, nothing is
    -- printed, though main may return success. When pipe fails, main returns at once.
    pub main-IsPrinted :
        (paths : List (List ℕ)) (s : S)
        → k.written s to ≡ []
        → length (wanted k f paths s) < fuel
        → ((e : Ended S T) × (main k p f parent fuel true true paths s ≡ some e)
            × IsPrinted (wanted k f paths s) e)
          × ((e : Ended S T) × (main k p f parent fuel true false paths s ≡ some e)
              × (e.child ≡ none)
              × (e.parent.0 ≢ no_fuel)
              × (p.written e.parent.1 1 ≡ []))
          × ((forked : Bool) → main k p f parent fuel false forked paths s ≡ none)
    unfolding main
    main-IsPrinted paths s empty h = (
      (
        _,
        main_forked paths s,
        printed (wanted k f paths s) s (run_child k f fuel pipe_from paths s) empty h (
            Delivered-IsFront k to (wanted k f paths s) s _
              (run_child-Delivered k f fuel pipe_from paths s apart h)),
      ),
      (
        _,
        refl,
        refl,
        (parent-IsFront [] (omega arith)).0,
        nothing (parent-IsFront [] (omega arith)),
      ),
      λ forked. refl,
    )
      where
        nothing : {w : Outcome × T} → IsFront p 1 [] (start []) w → p.written w.1 1 ≡ []
        nothing (ends, [], back, split, out, whole) = out ∙ rw (start-written []) refl
        nothing (ends, c ∷ front, back, split, out, whole) = absurd cc
