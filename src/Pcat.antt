-- ===== src/Pcat.antt =====
-- pcat/pcat.c: `copy_file` moves all bytes of one descriptor to another through a small buffer.
pub mod Copy
pub mod Main
pub mod Files
pub mod Pipe
mod Tests
use seminars.Base.{ℕ, zero, suc, [], ◌∷◌}
use seminars.Kernel.{Kernel, got, read_failed}
use seminars.Transfer.{Outcome, success, failure, no_fuel, write_loop}

-- BUFFER_SIZE
abbrev pub buffer_size : ℕ
buffer_size = 4

-- The outer loop: a round writes at most `buffer_size` bytes, in as many writes at most.
unfoldable pub copy_file : {S : Type 0} → Kernel S → ℕ → ℕ → ℕ → S → Outcome × S
copy_file k zero from to s = (no_fuel, s)
copy_file k (suc fuel) from to s =
    let (r, s') = k.read s from buffer_size in
    elim r [
      | read_failed ↦ (failure, s')
      | got [] ↦ (success, s')
      | got (b ∷ bs) ↦
          let (o, s'') = write_loop k (suc buffer_size) to (b ∷ bs) 0 s' in
          elim o [
            | success ↦ copy_file k fuel from to s''
            | failure ↦ (failure, s'')
            | no_fuel ↦ (no_fuel, s'')
          ]
    ]
