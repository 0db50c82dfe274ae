-- ===== src/MyShell/Plain.antt =====
-- Lines without redirections: the pieces of the line as the commands that run_commands gets.
use mathlib.Core.Path.{subst}
use seminars.Base.{
  ℕ, ℕ_discrete, zero, suc, ◌+◌, ◌-◌, ◌≡◌, refl, sym, ap, ◌∙◌, none, some, List, [], ◌∷◌, ◌++◌, All,
  length, length-append, length-drop, take, drop, take-append-drop, rev_onto, rev_onto-rev_onto,
  onto_first, get_elem?, split_on, arith,
}
use seminars.MyShell.Parse.{redirect, redirection_at, files, redirections}
use seminars.MyShell.Prompt.{commands_at}
use seminars.MyShell.Strings.{c_string, strings_at}
use seminars.MyShell.Commands.{pieces, pieces-bar, pieces-byte}
use seminars.MyShell.Redirection.{Plain, get_redirection-none}
use seminars.MyShell.Terminated.{Terminated, AllTerminated}

module _ (P : ℕ → Type 0) where
  All-onto_first :
      (c : ℕ) (ws : List (List ℕ)) → P c → All (All P) ws → All (All P) (onto_first c ws)
  All-onto_first c [] p h = ((p, tt), tt)
  All-onto_first c (w ∷ ws) p (one, h) = ((p, one), h)

  -- What holds of each byte of a line holds of each byte of its pieces.
  pub All-pieces : (text : List ℕ) → All P text → All (All P) (pieces text)
  All-pieces [] h = unfold split_on in (tt, tt)
  All-pieces (c ∷ text) (p, h) = elim (ℕ_discrete c b'|') [
    | yes e ↦ rw (e, pieces-bar text) (tt, All-pieces text h)
    | no ne ↦ rw (pieces-byte c text ne) (All-onto_first c (pieces text) p (All-pieces text h))
  ]

-- Each command is its piece, a NUL, and what stands behind.
abbrev pub AreCommands : List (List ℕ) → List (List ℕ) → Type 0
AreCommands [] [] = Unit
AreCommands [] (c ∷ commands) = ⊥
AreCommands (p ∷ ps) [] = ⊥
AreCommands (p ∷ ps) (c ∷ commands) =
    ((rest : List ℕ) × (c ≡ p ++ 0 ∷ rest)) × AreCommands ps commands

pub commands_at-AreCommands :
    (bytes offsets : List ℕ)
    → AllTerminated 0 bytes offsets
    → AreCommands (strings_at 0 bytes offsets) (commands_at bytes offsets)
commands_at-AreCommands bytes [] h = tt
commands_at-AreCommands bytes (o ∷ offsets) ((lt, one), h) =
    let e : o - 0 ≡ o = omega arith in
    (
      subst (λ n. (rest : List ℕ) × (drop o bytes ≡ c_string (drop n bytes) ++ 0 ∷ rest)) (sym e)
          (subst (λ n. Terminated (drop n bytes)) e one),
      commands_at-AreCommands bytes offsets h,
    )

pub AreCommands-length :
    (ps commands : List (List ℕ)) → AreCommands ps commands → length commands ≡ length ps
AreCommands-length [] [] h = refl
AreCommands-length [] (c ∷ commands) h = absurd h
AreCommands-length (p ∷ ps) [] h = absurd h
AreCommands-length (p ∷ ps) (c ∷ commands) (one, h) = ap suc (AreCommands-length ps commands h)

-- A predicate of the pieces holds of the piece of a command.
pub AreCommands-at :
    (Q : List ℕ → Type 0) (ps commands : List (List ℕ)) (i : ℕ) (command : List ℕ)
    → AreCommands ps commands
    → All Q ps
    → get_elem? commands i ≡ some command
    → (p : List ℕ) × (rest : List ℕ) × (get_elem? ps i ≡ some p) × (command ≡ p ++ 0 ∷ rest) × Q p
AreCommands-at Q [] [] i command h q at = absurd (ground arith)
AreCommands-at Q [] (c ∷ commands) i command h q at = absurd h
AreCommands-at Q (p ∷ ps) [] i command h q at = absurd h
AreCommands-at Q (p ∷ ps) (c ∷ commands) zero command ((rest, e), h) (one, q) at =
    (p, rest, refl, ground (arith, e), one)
AreCommands-at Q (p ∷ ps) (c ∷ commands) (suc i) command ((rest, e), h) (one, q) at =
    AreCommands-at Q ps commands i command h q at

-- A command without `<` and `>`: its scan finds nothing, and changes nothing.
redirection_at-none :
    (buffer rest : List ℕ) (offset : ℕ) (text : List ℕ)
    → drop offset buffer ≡ text ++ 0 ∷ rest
    → Plain text
    → redirection_at buffer offset ≡ redirect buffer none none
unfolding redirection_at
redirection_at-none buffer rest offset text e plain =
    let size : length text + suc (length rest) ≡ length buffer - offset =
      omega (arith, length-append text (0 ∷ rest), ap length e, length-drop offset buffer) in
    let fuel : length buffer + 1 ≡ length text + suc (length buffer - length text) = omega arith in
    rw (fuel, e)
      (get_redirection-none text rest (rev_onto (take offset buffer) [])
          (length buffer - length text) none none plain
        ∙ ap (λ b. redirect b none none)
            (rev_onto-rev_onto (take offset buffer) [] (text ++ 0 ∷ rest)
              ∙ ap (λ l. take offset buffer ++ l) (sym e)
              ∙ take-append-drop offset buffer))

abbrev pub AllPlain : List ℕ → List ℕ → Type 0
AllPlain buffer offsets =
    All (λ o. (text : List ℕ) × (rest : List ℕ) × (drop o buffer ≡ text ++ 0 ∷ rest) × Plain text)
      offsets

pub redirections-none :
    (buffer offsets : List ℕ) (i n : ℕ)
    → AllPlain buffer offsets
    → redirections offsets i n buffer none none ≡ files buffer none none
unfolding redirections
redirections-none buffer [] i n h = refl
redirections-none buffer (o ∷ offsets) i n ((text, rest, e, plain), h) =
    let scan = redirection_at-none buffer rest o text e plain in
    let more = redirections-none buffer offsets (i + 1) n h in ground arith
