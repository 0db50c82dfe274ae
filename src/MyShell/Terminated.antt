-- ===== src/MyShell/Terminated.antt =====
-- The commands of a line end inside the buffer.
use mathlib.Core.Path.{subst}
use seminars.Base.{
  ℕ, suc, ◌+◌, ◌-◌, ◌<◌, ◌≡◌, ◌≢◌, refl, ap, ℕ_discrete, dec_lt, List, [], ◌∷◌, ◌++◌, All, drop,
  arith,
}
use seminars.MyShell.Parse.{
  Split, split, too_many, overrun, keep_byte, new_command, split_commands, max_commands,
}
use seminars.MyShell.Strings.{c_string, c_string-cons, NoNul}
use seminars.MyShell.Commands.{split_commands-bar, split_commands-byte, split_commands-full}

-- A NUL ends the string that begins the block.
abbrev pub Terminated : List ℕ → Type 0
Terminated bytes = (rest : List ℕ) × (bytes ≡ c_string bytes ++ 0 ∷ rest)

Terminated-cons : (c : ℕ) (bytes : List ℕ) → Terminated bytes → Terminated (c ∷ bytes)
Terminated-cons c bytes (rest, e) = elim (ℕ_discrete c 0) [
  | yes z ↦ (bytes, rw z refl)
  | no nz ↦ (rest, rw (c_string-cons c bytes nz) (ap (λ l. c ∷ l) e))
]

Terminated-zero : (bytes : List ℕ) → Terminated (0 ∷ bytes)
Terminated-zero bytes = (bytes, refl)

-- The commands at these offsets of a block that begins at `base` are ended.
abbrev pub AllTerminated : ℕ → List ℕ → List ℕ → Type 0
AllTerminated base bytes offsets =
    All (λ o. (base < o) × Terminated (drop (o - base) bytes)) offsets

AllTerminated-cons :
    (base c : ℕ) (bytes offsets : List ℕ)
    → AllTerminated (base + 1) bytes offsets
    → AllTerminated base (c ∷ bytes) offsets
AllTerminated-cons base c bytes [] h = tt
AllTerminated-cons base c bytes (o ∷ offsets) ((lt, one), h) =
    let e : suc (o - (base + 1)) ≡ o - base = omega arith in
    (
      (omega arith, subst (λ n. Terminated (drop n (c ∷ bytes))) e one),
      AllTerminated-cons base c bytes offsets h,
    )

abbrev pub Ends : ℕ → Split → Type 0
Ends base (split bytes offsets) = Terminated bytes × AllTerminated base bytes offsets
Ends base too_many = Unit
Ends base overrun = ⊥

keep_byte-Ends : (c base : ℕ) (s : Split) → c ≢ 0 → Ends (base + 1) s → Ends base (keep_byte c s)
keep_byte-Ends c base (split bytes offsets) nz (one, all) =
    (Terminated-cons c bytes one, AllTerminated-cons base c bytes offsets all)
keep_byte-Ends c base too_many nz h = tt
keep_byte-Ends c base overrun nz h = h

new_command-Ends : (base : ℕ) (s : Split) → Ends (base + 1) s → Ends base (new_command (base + 1) s)
new_command-Ends base (split bytes offsets) (one, all) =
    let e : 1 ≡ base + 1 - base = omega arith in
    (
      Terminated-zero bytes,
      (
        (omega arith, subst (λ n. Terminated (drop n (0 ∷ bytes))) e one),
        AllTerminated-cons base 0 bytes offsets all,
      ),
    )
new_command-Ends base too_many h = tt
new_command-Ends base overrun h = h

-- However the line is cut, each command is ended by a NUL inside the buffer.
pub split_commands-Ends :
    (text rest : List ℕ) (base n : ℕ)
    → NoNul text
    → Ends base (split_commands (text ++ 0 ∷ rest) base n)
split_commands-Ends [] rest base n h = unfold split_commands in (Terminated-zero rest, tt)
split_commands-Ends (c ∷ text) rest base n (nz, h) = elim (ℕ_discrete c b'|') [
  | no ne ↦
      rw (split_commands-byte c (text ++ 0 ∷ rest) base n nz ne)
        (keep_byte-Ends c base _ nz (split_commands-Ends text rest (base + 1) n h))
  | yes e ↦ elim (dec_lt n max_commands) [
    | no full ↦ rw (e, split_commands-full (text ++ 0 ∷ rest) base n (omega arith)) tt
    | yes room ↦
        rw (e, split_commands-bar (text ++ 0 ∷ rest) base n (omega arith))
          (new_command-Ends base _ (split_commands-Ends text rest (base + 1) (n + 1) h))
  ]
]
