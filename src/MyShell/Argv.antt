-- ===== src/MyShell/Argv.antt =====
-- `parse_argv` over a whole command: its words, and its limit on their number.
use seminars.Base.{
  ℕ, ◌+◌, ◌<◌, ◌≤◌, ◌≡◌, ◌≢◌, refl, Bool, true, false, Bool-cases, inl, inr, List, [], ◌∷◌, ◌++◌,
  length, is_space, dec_lt, lt→ltb, le→ltb, arith, onto_first, words, drop_empty, split_on,
}
use seminars.MyShell.Parse.{
  Argv, args, unsupported_argv, argv_overflow, argv_overrun, argv_byte, argv_word, parse_argv,
  max_argv_size,
}
use seminars.MyShell.Strings.{strings_at, NoNul}
use seminars.MyShell.Arguments.{
  gaps, later_words, ArgumentsAre, space-ArgumentsAre, byte-ArgumentsAre, word-ArgumentsAre,
  parse_argv-space, parse_argv-byte, parse_argv-word, parse_argv-full, later_words-onto_first,
  later_words-word,
}

-- The result of the scan when `total` words begin in all.
record Parsed (strings : List (List ℕ)) (in_word : Bool) (base total : ℕ) (r : Argv) : Type 0 where
  fits : total < max_argv_size → ArgumentsAre strings in_word base r
  edge : total ≡ max_argv_size → r ≡ argv_overflow
  over : max_argv_size < total → r ≡ unsupported_argv

gaps-space : (c : ℕ) (text : List ℕ) → is_space c ≡ true → gaps (c ∷ text) ≡ [] ∷ gaps text
unfolding split_on
gaps-space c text s = rw s

gaps-byte :
    (c : ℕ) (text : List ℕ) → is_space c ≡ false → gaps (c ∷ text) ≡ onto_first c (gaps text)
unfolding split_on
gaps-byte c text s = rw s

later_words-empty :
    (b : Bool) (strings : List (List ℕ)) → later_words b ([] ∷ strings) ≡ later_words false strings
unfolding drop_empty
later_words-empty true strings = refl
later_words-empty false strings = refl

abbrev count : Bool → ℕ → List ℕ → ℕ
count b n text = n + length (later_words b (gaps text))

space_case :
    (c : ℕ) (text rest : List ℕ) (b : Bool) (base n : ℕ)
    → c ≢ 0
    → is_space c ≡ true
    → Parsed
        (gaps text)
        false
        (base + 1)
        (count false n text)
        (parse_argv (text ++ 0 ∷ rest) (base + 1) false n)
    → Parsed
        (gaps (c ∷ text))
        b
        base
        (count b n (c ∷ text))
        (parse_argv (c ∷ (text ++ 0 ∷ rest)) base b n)
space_case c text rest b base n nz s ih =
    rw
      (
        gaps-space c text s,
        parse_argv-space c (text ++ 0 ∷ rest) base n b nz s,
        later_words-empty b (gaps text),
      )
      record {
        fits = λ lt. space-ArgumentsAre b base (gaps text) _ (ih.fits lt);
        edge = λ e. rw (ih.edge e);
        over = λ lt. rw (ih.over lt);
      }

-- The end of the command.
parse_argv-end :
    (rest : List ℕ) (base n : ℕ) (b : Bool)
    → n ≤ max_argv_size
    → Parsed ([] ∷ []) b base (n + 0) (parse_argv (0 ∷ rest) base b n)
unfolding parse_argv drop_empty
parse_argv-end rest base n false le = record {
  fits = λ lt. rw (lt→ltb n max_argv_size (omega arith)) (refl, refl, tt);
  edge = λ e. rw (le→ltb n max_argv_size (omega arith));
  over = λ lt. absurd (omega arith);
}
parse_argv-end rest base n true le = record {
  fits = λ lt. rw (lt→ltb n max_argv_size (omega arith)) (refl, refl, tt);
  edge = λ e. rw (le→ltb n max_argv_size (omega arith));
  over = λ lt. absurd (omega arith);
}

-- A byte of a word that is under way.
byte-Parsed :
    (c base total : ℕ) (strings : List (List ℕ)) (r : Argv)
    → c ≢ 0
    → Parsed strings true (base + 1) total r
    → Parsed (onto_first c strings) true base total (argv_byte c r)
byte-Parsed c base total strings r nz ih = record {
  fits = λ lt. byte-ArgumentsAre c base strings r nz (ih.fits lt);
  edge = λ e. rw (ih.edge e);
  over = λ lt. rw (ih.over lt);
}

-- The first byte of a word, where there is room for it.
word-Parsed :
    (c base total : ℕ) (strings : List (List ℕ)) (r : Argv)
    → c ≢ 0
    → Parsed strings true (base + 1) total r
    → Parsed (onto_first c strings) false base total (argv_word base c r)
word-Parsed c base total strings r nz ih = record {
  fits = λ lt. word-ArgumentsAre c base strings r nz (ih.fits lt);
  edge = λ e. rw (ih.edge e);
  over = λ lt. rw (ih.over lt);
}

parse_argv-Parsed :
    (text rest : List ℕ) (b : Bool) (base n : ℕ)
    → NoNul text
    → n ≤ max_argv_size
    → Parsed (gaps text) b base (count b n text) (parse_argv (text ++ 0 ∷ rest) base b n)
parse_argv-Parsed [] rest false base n h le =
    unfold split_on drop_empty in parse_argv-end rest base n false le
parse_argv-Parsed [] rest true base n h le =
    unfold split_on drop_empty in parse_argv-end rest base n true le
parse_argv-Parsed (c ∷ text) rest true base n (nz, h) le = elim (Bool-cases (is_space c)) [
  | inl s ↦
      space_case c text rest true base n nz s (parse_argv-Parsed text rest false (base + 1) n h le)
  | inr s ↦
      rw
        (
          gaps-byte c text s,
          parse_argv-byte c (text ++ 0 ∷ rest) base n nz s,
          later_words-onto_first c (gaps text),
        )
        (byte-Parsed c base (count true n text) (gaps text) _ nz
          (parse_argv-Parsed text rest true (base + 1) n h le))
]
parse_argv-Parsed (c ∷ text) rest false base n (nz, h) le = elim (Bool-cases (is_space c)) [
  | inl s ↦
      space_case c text rest false base n nz s (parse_argv-Parsed text rest false (base + 1) n h le)
  | inr s ↦
      let more : n + length (later_words false (onto_first c (gaps text)))
          ≡ count true (n + 1) text =
        rw (later_words-word c (gaps text)) (omega arith) in
      rw (gaps-byte c text s, more)
        (elim (dec_lt n max_argv_size) [
          | yes room ↦ rw (parse_argv-word c (text ++ 0 ∷ rest) base n nz s room) (
              word-Parsed c base (count true (n + 1) text) (gaps text) _ nz
                (parse_argv-Parsed text rest true (base + 1) (n + 1) h (omega arith)))
          | no full ↦ record {
            fits = λ lt. absurd (omega arith);
            edge = λ e. absurd (omega arith);
            over = λ lt. parse_argv-full c (text ++ 0 ∷ rest) base n nz s (omega arith);
          }
        ])
]

-- What `argv` holds after the call: the strings that its entries point to.
abbrev pub ArgvIs : List (List ℕ) → Argv → Type 0
ArgvIs strings (args bytes argv) = strings_at 0 bytes argv ≡ strings
ArgvIs strings unsupported_argv = ⊥
ArgvIs strings argv_overflow = ⊥
ArgvIs strings argv_overrun = ⊥

ArgvIs-of :
    (strings : List (List ℕ)) (r : Argv)
    → ArgumentsAre strings false 0 r
    → ArgvIs (drop_empty strings) r
ArgvIs-of strings (args bytes argv) (e, f, h) = e
ArgvIs-of strings unsupported_argv h = absurd h
ArgvIs-of strings argv_overflow h = absurd h
ArgvIs-of strings argv_overrun h = absurd h

-- `parse_argv` on a command: with fewer than 64 words, `argv` points to the words in order; with
-- exactly 64, the NULL is written behind the array; with more, the command is refused.
pub parse_argv-words :
    (text rest : List ℕ)
    → NoNul text
    → let r = parse_argv (text ++ 0 ∷ rest) 0 false 0 in
      (length (words text) < max_argv_size → ArgvIs (words text) r)
      × (length (words text) ≡ max_argv_size → r ≡ argv_overflow)
      × (max_argv_size < length (words text) → r ≡ unsupported_argv)
unfolding words
parse_argv-words text rest h =
    let all = parse_argv-Parsed text rest false 0 0 h (omega arith) in
    (
      λ lt. ArgvIs-of (gaps text) _ (all.fits (omega arith)),
      λ e. all.edge (omega arith),
      λ lt. all.over (omega arith),
    )
