-- ===== src/MyShell/Commands.antt =====
-- The commands of a line are its pieces between the bars.
use seminars.Base.{
  ℕ, ℕ_discrete, ◌+◌, ◌-◌, ◌<◌, ◌≤◌, ◌≡◌, ◌≢◌, refl, ap, ◌∙◌, List, [], ◌∷◌, ◌++◌, length, ◌==◌,
  split_on, onto_first, arith, ==_ne,
}
use seminars.MyShell.Parse.{
  Split, split, too_many, overrun, keep_byte, new_command, split_commands, max_commands,
}
use seminars.MyShell.Strings.{
  c_string, strings_at, strings_at-cons, Above, Above-weaken, c_string-cons, NoNul,
}

-- The pieces of a line between its bars.
abbrev pub pieces : List ℕ → List (List ℕ)
pieces text = split_on (λ c. c == b'|') text

-- The first command starts at the block's first byte, the others at the offsets found.
abbrev pub CommandsAre : List (List ℕ) → ℕ → Split → Type 0
CommandsAre strings base (split bytes offsets) =
    (c_string bytes ∷ strings_at base bytes offsets ≡ strings) × Above base offsets
CommandsAre strings base too_many = ⊥
CommandsAre strings base overrun = ⊥

keep_byte-CommandsAre :
    (c base : ℕ) (strings : List (List ℕ)) (s : Split)
    → c ≢ 0
    → CommandsAre strings (base + 1) s
    → CommandsAre (onto_first c strings) base (keep_byte c s)
keep_byte-CommandsAre c base strings (split bytes offsets) h (e, above) = (
  rw
      (
        c_string-cons c bytes h,
        strings_at-cons base c bytes offsets (Above-weaken base offsets above),
      )
      (ap (onto_first c) e),
  Above-weaken base offsets above,
)
keep_byte-CommandsAre c base strings too_many h f = f
keep_byte-CommandsAre c base strings overrun h f = f

new_command-CommandsAre :
    (base : ℕ) (strings : List (List ℕ)) (s : Split)
    → CommandsAre strings (base + 1) s
    → CommandsAre ([] ∷ strings) base (new_command (base + 1) s)
new_command-CommandsAre base strings (split bytes offsets) (e, above) =
    let one : base + 1 - base ≡ 1 = omega arith in
    (
      rw (one, strings_at-cons base 0 bytes offsets (Above-weaken base offsets above))
          (ap (λ ws. [] ∷ ws) e),
      (omega arith, Above-weaken base offsets above),
    )
new_command-CommandsAre base strings too_many f = f
new_command-CommandsAre base strings overrun f = f

-- The shape of one step at a byte that is no NUL.
pub split_commands-bar :
    (bytes : List ℕ) (offset n : ℕ)
    → n < max_commands
    → split_commands (b'|' ∷ bytes) offset n
      ≡ new_command (offset + 1) (split_commands bytes (offset + 1) (n + 1))
unfolding split_commands
split_commands-bar bytes offset n h = ground arith

pub split_commands-byte :
    (c : ℕ) (bytes : List ℕ) (offset n : ℕ)
    → c ≢ 0
    → c ≢ b'|'
    → split_commands (c ∷ bytes) offset n ≡ keep_byte c (split_commands bytes (offset + 1) n)
unfolding split_commands
split_commands-byte c bytes offset n h k = ground arith

pub split_commands-full :
    (bytes : List ℕ) (offset n : ℕ)
    → max_commands ≤ n
    → split_commands (b'|' ∷ bytes) offset n ≡ too_many
unfolding split_commands
split_commands-full bytes offset n h = ground arith

-- The pieces of a line, byte by byte.
pub pieces-bar : (text : List ℕ) → pieces (b'|' ∷ text) ≡ [] ∷ pieces text
unfolding split_on
pieces-bar text = refl

pub pieces-byte :
    (c : ℕ) (text : List ℕ) → c ≢ b'|' → pieces (c ∷ text) ≡ onto_first c (pieces text)
unfolding split_on
pieces-byte c text h = rw (==_ne c b'|' h)

length-onto_first :
    (c : ℕ) (ws : List (List ℕ)) → 0 < length ws → length (onto_first c ws) ≡ length ws
length-onto_first c [] h = absurd (omega arith)
length-onto_first c (w ∷ ws) h = refl

length-pieces : (text : List ℕ) → 0 < length (pieces text)
length-pieces [] = unfold split_on in omega arith
length-pieces (c ∷ text) = elim (ℕ_discrete c b'|') [
  | yes e ↦ rw (e, pieces-bar text) (omega arith)
  | no h ↦
      rw (pieces-byte c text h, length-onto_first c (pieces text) (length-pieces text))
        (length-pieces text)
]

-- How many pieces there are, byte by byte.
length-pieces_bar : (text : List ℕ) → length (pieces (b'|' ∷ text)) ≡ length (pieces text) + 1
length-pieces_bar text = rw (pieces-bar text) (omega arith)

length-pieces_byte :
    (c : ℕ) (text : List ℕ) → c ≢ b'|' → length (pieces (c ∷ text)) ≡ length (pieces text)
length-pieces_byte c text h =
    rw (pieces-byte c text h) (length-onto_first c (pieces text) (length-pieces text))

-- A line of at most sixteen pieces is cut into them: the first command is the string at the
-- line's start, the others are the strings at the offsets found, in order.
split_commands-CommandsAre :
    (text rest : List ℕ) (base n : ℕ)
    → NoNul text
    → n + length (pieces text) ≤ max_commands + 1
    → CommandsAre (pieces text) base (split_commands (text ++ 0 ∷ rest) base n)
split_commands-CommandsAre [] rest base n h few = unfold split_commands split_on in (refl, tt)
split_commands-CommandsAre (c ∷ text) rest base n (nz, h) few = elim (ℕ_discrete c b'|') [
  | yes e ↦
      let count = ap (λ b. length (pieces (b ∷ text))) e ∙ length-pieces_bar text in
      let room : n < max_commands = omega (arith, count, length-pieces text) in
      let more = split_commands-CommandsAre text rest (base + 1) (n + 1) h (omega (arith, count)) in
      rw (e, pieces-bar text, split_commands-bar (text ++ 0 ∷ rest) base n room)
        (new_command-CommandsAre base (pieces text) _ more)
  | no ne ↦
      let count = length-pieces_byte c text ne in
      let more = split_commands-CommandsAre text rest (base + 1) n h (omega (arith, count)) in
      rw (pieces-byte c text ne, split_commands-byte c (text ++ 0 ∷ rest) base n nz ne)
        (keep_byte-CommandsAre c base (pieces text) _ nz more)
]

keep_byte-too_many : (c : ℕ) (s : Split) → s ≡ too_many → keep_byte c s ≡ too_many
keep_byte-too_many c s e = rw e

new_command-too_many : (o : ℕ) (s : Split) → s ≡ too_many → new_command o s ≡ too_many
new_command-too_many o s e = rw e

-- A line of more pieces is refused.
split_commands-too_many :
    (text rest : List ℕ) (base n : ℕ)
    → NoNul text
    → n ≤ max_commands
    → max_commands + 1 < n + length (pieces text)
    → split_commands (text ++ 0 ∷ rest) base n ≡ too_many
split_commands-too_many [] rest base n h le many = absurd (unfold split_on in omega arith)
split_commands-too_many (c ∷ text) rest base n (nz, h) le many = elim (ℕ_discrete c b'|') [
  | yes e ↦
      let count = ap (λ b. length (pieces (b ∷ text))) e ∙ length-pieces_bar text in
      elim (ℕ_discrete n max_commands) [
        | yes full ↦ rw e (split_commands-full (text ++ 0 ∷ rest) base n (omega arith))
        | no room ↦
            let more =
              split_commands-too_many text rest (base + 1) (n + 1) h (omega arith)
                (omega (arith, count)) in
            rw (e, split_commands-bar (text ++ 0 ∷ rest) base n (omega arith))
              (new_command-too_many (base + 1) _ more)
      ]
  | no ne ↦
      let count = length-pieces_byte c text ne in
      let more = split_commands-too_many text rest (base + 1) n h le (omega (arith, count)) in
      rw (split_commands-byte c (text ++ 0 ∷ rest) base n nz ne) (keep_byte-too_many c _ more)
]

-- The loop of `main` over a whole line: a line of at most sixteen pieces is cut at its bars, so
-- that the strings of the commands are the pieces in order, and a longer one is refused.
pub split_commands-pieces :
    (text rest : List ℕ)
    → NoNul text
    → (length (pieces text) ≤ max_commands
        → CommandsAre (pieces text) 0 (split_commands (text ++ 0 ∷ rest) 0 1))
      × (max_commands < length (pieces text) → split_commands (text ++ 0 ∷ rest) 0 1 ≡ too_many)
split_commands-pieces text rest h = (
  λ few. split_commands-CommandsAre text rest 0 1 h (omega arith),
  λ many. split_commands-too_many text rest 0 1 h (omega arith) (omega arith),
)
