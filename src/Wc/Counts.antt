-- ===== src/Wc/Counts.antt =====
-- The counters of wc against a description of the text: its length, its words, its line ends.
use mathlib.Core.Path.{◌≡⟨◌⟩◌, ◌∎}
use seminars.Base.{
  ap, sym, ◌-◌, ℕ, suc, ◌+◌, ◌%◌, ◌^◌, ◌<◌, ◌≡◌, refl, ◌∙◌, Bool, true, false, List, [], ◌∷◌, ◌++◌,
  length, ◌==◌, arith, if◌then◌else◌, is_space, split_on, drop_empty, words, onto_first,
  length-append, Bool-cases, inl, inr,
}
use seminars.Wc.{Info, Count, no_count, add_size, count_byte, count_buffer, count_read}

-- The words that begin in a text, given whether a word is under way.
pub word_starts : Bool → List ℕ → ℕ
unfolding is_space
word_starts in_word [] = 0
word_starts in_word (c ∷ cs) =
    (if is_space c then 0 else (if in_word then 0 else 1))
    + word_starts (if is_space c then false else true) cs

pub line_ends : List ℕ → ℕ
line_ends [] = 0
line_ends (c ∷ cs) = (if c == 10 then 1 else 0) + line_ends cs

-- What the counters say after a text, started from any value.
pub record IsCountOf (st : Count) (text : List ℕ) (st' : Count) : Type 0 where
  pub of_words : st'.info.words ≡ (st.info.words + word_starts st.in_word text) % 2 ^ 64
  pub of_lines : st'.info.lines ≡ (st.info.lines + line_ends text) % 2 ^ 64
  pub of_bytes : st'.info.bytes ≡ st.info.bytes

pub record IsSmall (i : Info) : Type 0 where
  pub words_lt : i.words < 2 ^ 64
  pub lines_lt : i.lines < 2 ^ 64
  pub bytes_lt : i.bytes < 2 ^ 64

count_byte-IsSmall : (st : Count) (c : ℕ) → IsSmall st.info → IsSmall (count_byte st c).info
unfolding count_byte
count_byte-IsSmall st c small = ground arith

count_byte-words :
    (st : Count) (c : ℕ) (cs : List ℕ)
    → ((count_byte st c).info.words + word_starts (count_byte st c).in_word cs) % 2 ^ 64
      ≡ (st.info.words + word_starts st.in_word (c ∷ cs)) % 2 ^ 64
unfolding count_byte word_starts
count_byte-words st c cs = ground arith

count_byte-lines :
    (st : Count) (c : ℕ) (cs : List ℕ)
    → ((count_byte st c).info.lines + line_ends cs) % 2 ^ 64
      ≡ (st.info.lines + line_ends (c ∷ cs)) % 2 ^ 64
unfolding count_byte line_ends
count_byte-lines st c cs = ground arith

count_byte-bytes : (st : Count) (c : ℕ) → (count_byte st c).info.bytes ≡ st.info.bytes
unfolding count_byte
count_byte-bytes st c = ground arith

count_buffer-IsCountOf :
    (st : Count) (text : List ℕ) → IsSmall st.info → IsCountOf st text (count_buffer st text)
unfolding count_buffer
count_buffer-IsCountOf st [] small = record {
  of_words = unfold word_starts in omega arith;
  of_lines = unfold line_ends in omega arith;
  of_bytes = refl;
}
count_buffer-IsCountOf st (c ∷ cs) small =
    let rest = count_buffer-IsCountOf (count_byte st c) cs (count_byte-IsSmall st c small) in
    record {
      of_words = rest.of_words ∙ count_byte-words st c cs;
      of_lines = rest.of_lines ∙ count_byte-lines st c cs;
      of_bytes = rest.of_bytes ∙ count_byte-bytes st c;
    }

pub count_buffer-append :
    (st : Count) (xs ys : List ℕ)
    → count_buffer st (xs ++ ys) ≡ count_buffer (count_buffer st xs) ys
unfolding count_buffer
count_buffer-append st [] ys = refl
count_buffer-append st (x ∷ xs) ys = count_buffer-append (count_byte st x) xs ys

-- The words that begin in a text that is split already.
starts_of : Bool → List (List ℕ) → ℕ
starts_of false pieces = length (drop_empty pieces)
starts_of true [] = 0
starts_of true (p ∷ ps) = length (drop_empty ps)

starts_of-onto_first :
    (b : Bool) (c : ℕ) (pieces : List (List ℕ))
    → starts_of b (onto_first c pieces) ≡ (if b then 0 else 1) + starts_of true pieces
unfolding starts_of drop_empty
starts_of-onto_first false c [] = omega arith
starts_of-onto_first false c (p ∷ ps) = omega arith
starts_of-onto_first true c [] = omega arith
starts_of-onto_first true c (p ∷ ps) = omega arith

starts_of-empty :
    (b : Bool) (pieces : List (List ℕ)) → starts_of b ([] ∷ pieces) ≡ starts_of false pieces
unfolding starts_of drop_empty
starts_of-empty false pieces = refl
starts_of-empty true pieces = refl

word_starts-split :
    (b : Bool) (text : List ℕ) → word_starts b text ≡ starts_of b (split_on is_space text)
unfolding word_starts split_on
word_starts-split false [] = unfold starts_of drop_empty in refl
word_starts-split true [] = unfold starts_of drop_empty in refl
word_starts-split b (c ∷ cs) = elim (Bool-cases (is_space c)) [
  | inl space ↦
      rw space (omega (arith, word_starts-split false cs, starts_of-empty b (split_on is_space cs)))
  | inr other ↦
      rw other
        (omega (arith, word_starts-split true cs, starts_of-onto_first b c (split_on is_space cs)))
]

-- The words that begin are the words of the text.
pub word_starts-words : (text : List ℕ) → word_starts false text ≡ length (words text)
unfolding words starts_of
word_starts-words text = word_starts-split false text

length-onto_first :
    (c : ℕ) (pieces : List (List ℕ))
    → 0 < length pieces
    → length (onto_first c pieces) ≡ length pieces
length-onto_first c [] h = absurd (omega arith)
length-onto_first c (p ∷ ps) h = refl

-- A text has one more piece between line ends than it has line ends.
pub line_ends-split : (text : List ℕ) → suc (line_ends text) ≡ length (split_on (λ c. c == 10) text)
unfolding line_ends split_on
line_ends-split [] = refl
line_ends-split (c ∷ cs) =
    ground (arith, line_ends-split cs, length-onto_first c (split_on (λ b. b == 10) cs))

count_buffer-IsSmall :
    (st : Count) (text : List ℕ) → IsSmall st.info → IsSmall (count_buffer st text).info
unfolding count_buffer
count_buffer-IsSmall st [] small = small
count_buffer-IsSmall st (c ∷ cs) small =
    count_buffer-IsSmall (count_byte st c) cs (count_byte-IsSmall st c small)

-- `count_read` first adds the length to `bytes`.
abbrev add_bytes : Count → ℕ → Count
add_bytes st n = record st { info = record st.info { bytes = add_size st.info.bytes n } }

pub count_read-IsSmall :
    (st : Count) (text : List ℕ) → IsSmall st.info → IsSmall (count_read st text).info
unfolding count_read
count_read-IsSmall st text small =
    count_buffer-IsSmall (add_bytes st (length text)) text (omega arith)

count_byte-add_bytes :
    (st : Count) (n c : ℕ) → count_byte (add_bytes st n) c ≡ add_bytes (count_byte st c) n
unfolding count_byte
count_byte-add_bytes st n c = ground arith

count_buffer-add_bytes :
    (st : Count) (n : ℕ) (text : List ℕ)
    → count_buffer (add_bytes st n) text ≡ add_bytes (count_buffer st text) n
unfolding count_buffer
count_buffer-add_bytes st n [] = refl
count_buffer-add_bytes st n (c ∷ cs) =
    rw (count_byte-add_bytes st n c) (count_buffer-add_bytes (count_byte st c) n cs)

pub count_read-nil : (st : Count) → IsSmall st.info → count_read st [] ≡ st
unfolding count_read count_buffer
count_read-nil st small = ground arith

-- Where the input is cut into reads does not matter to the counters.
pub count_read-append :
    (st : Count) (xs ys : List ℕ) → count_read (count_read st xs) ys ≡ count_read st (xs ++ ys)
unfolding count_read
count_read-append st xs ys =
    count_buffer (add_bytes (count_buffer (add_bytes st (length xs)) xs) (length ys)) ys
    ≡⟨ ap (λ c. count_buffer c ys)
        (sym (count_buffer-add_bytes (add_bytes st (length xs)) (length ys) xs)) ⟩
      count_buffer (count_buffer (add_bytes (add_bytes st (length xs)) (length ys)) xs) ys
    ≡⟨ ap (λ c. count_buffer (count_buffer c xs) ys) sums ⟩
      count_buffer (count_buffer (add_bytes st (length (xs ++ ys))) xs) ys
    ≡⟨ sym (count_buffer-append (add_bytes st (length (xs ++ ys))) xs ys) ⟩
      count_buffer (add_bytes st (length (xs ++ ys))) (xs ++ ys) ∎
  where
    sums : add_bytes (add_bytes st (length xs)) (length ys) ≡ add_bytes st (length (xs ++ ys))
    sums = ground (arith, length-append xs ys)

-- The three counters of a whole text, modulo the width of `size_t`.
pub count_read-info :
    (text : List ℕ)
    → let info = (count_read no_count text).info in
      (info.bytes ≡ length text % 2 ^ 64)
      × (info.words ≡ length (words text) % 2 ^ 64)
      × (info.lines ≡ (length (split_on (λ c. c == 10) text) - 1) % 2 ^ 64)
unfolding count_read
count_read-info text =
    let start = add_bytes no_count (length text) in
    let counted = count_buffer-IsCountOf start text (omega arith) in
    omega (
      arith,
      counted.of_words,
      counted.of_lines,
      counted.of_bytes,
      word_starts-words text,
      line_ends-split text,
    )
