-- ===== src/Wc.antt =====
-- wc/wc.c: `copy_file` passes the output of a program on, and counts its bytes, words and lines.
pub mod Counts
pub mod Copy
pub mod Main
mod Tests
use seminars.Base.{
  ℕ, zero, suc, ◌+◌, ◌%◌, ◌^◌, Bool, true, false, List, [], ◌∷◌, length, ◌==◌, if◌then◌else◌,
  is_space,
}
use seminars.Kernel.{Kernel, got, read_failed}
use seminars.Transfer.{Outcome, success, failure, no_fuel, write_loop}

-- BUFFER_SIZE
abbrev pub buffer_size : ℕ
buffer_size = 4

-- `size_t` addition
abbrev pub add_size : ℕ → ℕ → ℕ
add_size a b = (a + b) % 2 ^ 64

-- `mywc_info_t`
pub record Info : Type 0 where
  pub bytes : ℕ
  pub words : ℕ
  pub lines : ℕ

abbrev pub no_info : Info
no_info = record { bytes = 0; words = 0; lines = 0 }

-- `info` and the local `in_word` of `copy_file`
pub record Count : Type 0 where
  pub info : Info
  pub in_word : Bool

-- `info` and `in_word` at the start
abbrev pub no_count : Count
no_count = record { info = no_info; in_word = false }

-- The body of the `for` loop over the buffer.
unfoldable pub count_byte : Count → ℕ → Count
unfolding is_space
count_byte st c =
    let info = if c == 10 then record st.info { lines = add_size st.info.lines 1 } else st.info in
    if is_space c
    then record { info = info; in_word = false }
    else (if st.in_word
        then record { info = info; in_word = true }
        else record { info = record info { words = add_size info.words 1 }; in_word = true })

unfoldable pub count_buffer : Count → List ℕ → Count
count_buffer st [] = st
count_buffer st (c ∷ cs) = count_buffer (count_byte st c) cs

-- `info->bytes += read_bytes`, then the loop over the bytes read
unfoldable pub count_read : Count → List ℕ → Count
count_read st bytes =
    count_buffer
      (record st { info = record st.info { bytes = add_size st.info.bytes (length bytes) } }) bytes

unfoldable pub copy_file : {S : Type 0} → Kernel S → ℕ → ℕ → ℕ → Count → S → Outcome × Count × S
copy_file k zero from to st s = (no_fuel, st, s)
copy_file k (suc fuel) from to st s =
    let (r, s') = k.read s from buffer_size in
    elim r [
      | read_failed ↦ (failure, st, s')
      | got [] ↦ (success, st, s')
      | got (b ∷ bs) ↦
          let st' = count_read st (b ∷ bs) in
          let (o, s'') = write_loop k (suc buffer_size) to (b ∷ bs) 0 s' in
          elim o [
            | success ↦ copy_file k fuel from to st' s''
            | failure ↦ (failure, st', s'')
            | no_fuel ↦ (no_fuel, st', s'')
          ]
    ]
