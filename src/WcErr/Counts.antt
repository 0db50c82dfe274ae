-- ===== src/WcErr/Counts.antt =====
-- The counters of a stream, however the reads cut it.
use mathlib.Core.Path.{subst}
use seminars.Base.{
  ℕ, ◌-◌, ◌%◌, ◌^◌, ◌≡◌, refl, ap, sym, ◌∙◌, List, [], ◌∷◌, ◌++◌, length, words, split_on, ◌==◌,
  arith,
}
use seminars.Wc.{Count, count_byte, count_buffer, count_read}
use seminars.Wc.Counts.{
  IsSmall, count_read-IsSmall, count_read-nil, count_read-append, count_read-info,
}
use seminars.WcErr.{Info, no_info, count_char, count_chars, count_info}

-- The counters in the form that wc/wc.c keeps them.
abbrev pub as_wc : Info → Count
as_wc info = record {
  info = record { bytes = info.bytes; words = info.words; lines = info.lines };
  in_word = info.in_word;
}

as_wc-count_char : (info : Info) (c : ℕ) → as_wc (count_char info c) ≡ count_byte (as_wc info) c
unfolding count_char count_byte
as_wc-count_char info c = ground arith

as_wc-count_chars :
    (buffer : List ℕ) (info : Info)
    → as_wc (count_chars buffer info) ≡ count_buffer (as_wc info) buffer
unfolding count_chars count_buffer
as_wc-count_chars [] info = refl
as_wc-count_chars (c ∷ buffer) info =
    as_wc-count_chars buffer (count_char info c)
    ∙ ap (λ st. count_buffer st buffer) (as_wc-count_char info c)

-- `count_info` counts as `copy_file` of wc does.
pub as_wc-count_info :
    (buffer : List ℕ) (info : Info)
    → as_wc (count_info buffer info) ≡ count_read (as_wc info) buffer
unfolding count_info count_read
as_wc-count_info buffer info = as_wc-count_chars buffer _

unfoldable pub count_reads : List (List ℕ) → Info → Info
count_reads [] info = info
count_reads (buffer ∷ buffers) info = count_reads buffers (count_info buffer info)

pub joined : List (List ℕ) → List ℕ
joined [] = []
joined (buffer ∷ buffers) = buffer ++ joined buffers

as_wc-count_reads :
    (buffers : List (List ℕ)) (info : Info)
    → IsSmall (as_wc info).info
    → as_wc (count_reads buffers info) ≡ count_read (as_wc info) (joined buffers)
unfolding count_reads joined
as_wc-count_reads [] info small = sym (count_read-nil (as_wc info) small)
as_wc-count_reads (buffer ∷ buffers) info small =
    let one = as_wc-count_info buffer info in
    let still =
      subst (λ st. IsSmall st.info) (sym one) (count_read-IsSmall (as_wc info) buffer small) in
    as_wc-count_reads buffers (count_info buffer info) still
    ∙ ap (λ st. count_read st (joined buffers)) one
    ∙ count_read-append (as_wc info) buffer (joined buffers)

-- Started with zeros, `count_info` over the pieces that the reads of a stream return counts the
-- bytes, words and line ends of the whole stream, modulo 2^64, wherever the pieces are cut.
pub count_reads-info :
    (buffers : List (List ℕ))
    → let info = count_reads buffers no_info in
      let text = joined buffers in
      (info.bytes ≡ length text % 2 ^ 64)
      × (info.words ≡ length (words text) % 2 ^ 64)
      × (info.lines ≡ (length (split_on (λ c. c == 10) text) - 1) % 2 ^ 64)
count_reads-info buffers =
    let same =
      as_wc-count_reads buffers no_info
        (record { words_lt = omega arith; lines_lt = omega arith; bytes_lt = omega arith }) in
    let counted = count_read-info (joined buffers) in
    (
      ap (λ st. st.info.bytes) same ∙ counted.0,
      ap (λ st. st.info.words) same ∙ counted.1,
      ap (λ st. st.info.lines) same ∙ counted.2,
    )
