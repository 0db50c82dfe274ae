-- ===== src/MyShell/Arguments.antt =====
-- The arguments of a command are its words.
use mathlib.Core.Path.{ap₂}
use seminars.Base.{
  ℕ, ◌+◌, ◌-◌, ◌<◌, ◌≤◌, ◌≡◌, ◌≢◌, refl, sym, ap, ◌∙◌, Bool, true, false, List, [], ◌∷◌, All,
  split_on, onto_first, drop_empty, is_space, arith, ==_ne,
}
use seminars.MyShell.Parse.{
  Argv, args, unsupported_argv, argv_overflow, argv_overrun, argv_byte, argv_word, parse_argv,
  max_argv_size,
}
use seminars.MyShell.Strings.{c_string, strings_at, strings_at-cons, Above, c_string-cons}

-- The pieces of a command between its white space, empty ones too.
abbrev pub gaps : List ℕ → List (List ℕ)
gaps text = split_on is_space text

-- What the scan finds in a text cut at white space: where a word is under way, its string goes on
-- at the block's first byte, and only later pieces begin words.
abbrev pub later_words : Bool → List (List ℕ) → List (List ℕ)
later_words false strings = drop_empty strings
later_words true [] = []
later_words true (s ∷ strings) = drop_empty strings

abbrev pub first_piece : List (List ℕ) → List ℕ
first_piece [] = []
first_piece (s ∷ strings) = s

abbrev pub AtLeast : ℕ → List ℕ → Type 0
AtLeast base offsets = All (λ o. base ≤ o) offsets

AtLeast-weaken : (base : ℕ) (offsets : List ℕ) → AtLeast (base + 1) offsets → AtLeast base offsets
AtLeast-weaken base [] h = tt
AtLeast-weaken base (o ∷ offsets) (le, h) = (omega arith, AtLeast-weaken base offsets h)

AtLeast-Above : (base : ℕ) (offsets : List ℕ) → AtLeast (base + 1) offsets → Above base offsets
AtLeast-Above base [] h = tt
AtLeast-Above base (o ∷ offsets) (le, h) = (omega arith, AtLeast-Above base offsets h)

-- The strings at the offsets found are the words, and the block's first string is the first piece.
abbrev pub ArgumentsAre : List (List ℕ) → Bool → ℕ → Argv → Type 0
ArgumentsAre strings in_word base (args bytes offsets) =
    (strings_at base bytes offsets ≡ later_words in_word strings)
    × (c_string bytes ≡ first_piece strings)
    × AtLeast base offsets
ArgumentsAre strings in_word base unsupported_argv = ⊥
ArgumentsAre strings in_word base argv_overflow = ⊥
ArgumentsAre strings in_word base argv_overrun = ⊥

-- A white space ends a piece.
pub space-ArgumentsAre :
    (b : Bool) (base : ℕ) (strings : List (List ℕ)) (r : Argv)
    → ArgumentsAre strings false (base + 1) r
    → ArgumentsAre ([] ∷ strings) b base (argv_byte 0 r)
unfolding drop_empty
space-ArgumentsAre false base strings (args bytes offsets) (e, f, h) = (
  rw (strings_at-cons base 0 bytes offsets (AtLeast-Above base offsets h)) e,
  refl,
  AtLeast-weaken base offsets h,
)
space-ArgumentsAre true base strings (args bytes offsets) (e, f, h) = (
  rw (strings_at-cons base 0 bytes offsets (AtLeast-Above base offsets h)) e,
  refl,
  AtLeast-weaken base offsets h,
)
space-ArgumentsAre b base strings unsupported_argv h = absurd h
space-ArgumentsAre b base strings argv_overflow h = absurd h
space-ArgumentsAre b base strings argv_overrun h = absurd h

pub later_words-onto_first :
    (c : ℕ) (strings : List (List ℕ))
    → later_words true (onto_first c strings) ≡ later_words true strings
later_words-onto_first c [] = unfold drop_empty in refl
later_words-onto_first c (s ∷ strings) = refl

pub later_words-word :
    (c : ℕ) (strings : List (List ℕ))
    → later_words false (onto_first c strings)
      ≡ (c ∷ first_piece strings) ∷ later_words true strings
unfolding drop_empty
later_words-word c [] = refl
later_words-word c (s ∷ strings) = refl

first_piece-onto_first :
    (c : ℕ) (strings : List (List ℕ)) → first_piece (onto_first c strings) ≡ c ∷ first_piece strings
first_piece-onto_first c [] = refl
first_piece-onto_first c (s ∷ strings) = refl

-- Another byte continues a word,
pub byte-ArgumentsAre :
    (c base : ℕ) (strings : List (List ℕ)) (r : Argv)
    → c ≢ 0
    → ArgumentsAre strings true (base + 1) r
    → ArgumentsAre (onto_first c strings) true base (argv_byte c r)
byte-ArgumentsAre c base strings (args bytes offsets) nz (e, f, h) = (
  strings_at-cons base c bytes offsets (AtLeast-Above base offsets h)
      ∙ e
      ∙ sym (later_words-onto_first c strings),
  c_string-cons c bytes nz ∙ ap (λ w. c ∷ w) f ∙ sym (first_piece-onto_first c strings),
  AtLeast-weaken base offsets h,
)
byte-ArgumentsAre c base strings unsupported_argv nz h = absurd h
byte-ArgumentsAre c base strings argv_overflow nz h = absurd h
byte-ArgumentsAre c base strings argv_overrun nz h = absurd h

-- or begins one.
pub word-ArgumentsAre :
    (c base : ℕ) (strings : List (List ℕ)) (r : Argv)
    → c ≢ 0
    → ArgumentsAre strings true (base + 1) r
    → ArgumentsAre (onto_first c strings) false base (argv_word base c r)
word-ArgumentsAre c base strings (args bytes offsets) nz (e, f, h) =
    let here : base - base ≡ 0 = omega arith in
    let first = c_string-cons c bytes nz ∙ ap (λ w. c ∷ w) f in
    (
      rw here (
          ap₂ ◌∷◌ first (strings_at-cons base c bytes offsets (AtLeast-Above base offsets h) ∙ e)
          ∙ sym (later_words-word c strings)),
      first ∙ sym (first_piece-onto_first c strings),
      (omega arith, AtLeast-weaken base offsets h),
    )
word-ArgumentsAre c base strings unsupported_argv nz h = absurd h
word-ArgumentsAre c base strings argv_overflow nz h = absurd h
word-ArgumentsAre c base strings argv_overrun nz h = absurd h

-- One step of `parse_argv`, by the kind of byte.
pub parse_argv-space :
    (c : ℕ) (bytes : List ℕ) (base n : ℕ) (b : Bool)
    → c ≢ 0
    → is_space c ≡ true
    → parse_argv (c ∷ bytes) base b n ≡ argv_byte 0 (parse_argv bytes (base + 1) false n)
unfolding parse_argv
parse_argv-space c bytes base n b nz s = rw (==_ne c 0 nz, s)

pub parse_argv-byte :
    (c : ℕ) (bytes : List ℕ) (base n : ℕ)
    → c ≢ 0
    → is_space c ≡ false
    → parse_argv (c ∷ bytes) base true n ≡ argv_byte c (parse_argv bytes (base + 1) true n)
unfolding parse_argv
parse_argv-byte c bytes base n nz s = rw (==_ne c 0 nz, s)

pub parse_argv-word :
    (c : ℕ) (bytes : List ℕ) (base n : ℕ)
    → c ≢ 0
    → is_space c ≡ false
    → n < max_argv_size
    → parse_argv (c ∷ bytes) base false n
      ≡ argv_word base c (parse_argv bytes (base + 1) true (n + 1))
unfolding parse_argv
parse_argv-word c bytes base n nz s h = ground (arith, ==_ne c 0 nz)

pub parse_argv-full :
    (c : ℕ) (bytes : List ℕ) (base n : ℕ)
    → c ≢ 0
    → is_space c ≡ false
    → max_argv_size ≤ n
    → parse_argv (c ∷ bytes) base false n ≡ unsupported_argv
unfolding parse_argv
parse_argv-full c bytes base n nz s h = ground (arith, ==_ne c 0 nz)
