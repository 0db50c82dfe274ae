-- ===== src/Kernel/Memory.antt =====
-- A small system that meets the interface, for concrete runs: descriptor 0 reads a text three
-- bytes at a time, descriptor 1 accepts two bytes at a time, all others fail or are empty.
use Prim.Native.Nat.{min}
use seminars.Base.{
  ℕ, ◌≡◌, ◌≤◌, ◌<◌, refl, ap, List, [], ◌∷◌, ◌++◌, length, take, drop, ◌==◌, if◌then◌else◌, arith,
  length-take, take-append-drop,
}
use seminars.Kernel.{
  Kernel, IsApart, ReadResult, got, read_failed, WriteResult, wrote, write_failed,
}

pub record Memory : Type 0 where
  pub input : List ℕ
  pub output : List ℕ

abbrev pub mem_read : Memory → ℕ → ℕ → ReadResult × Memory
mem_read m fd count =
    if fd == 0
    then (got (take (min count 3) m.input), record m { input = drop (min count 3) m.input })
    else (read_failed, m)

abbrev pub mem_write : Memory → ℕ → List ℕ → WriteResult × Memory
mem_write m fd bytes =
    if fd == 1
    then (
      wrote (min 2 (length bytes)),
      record m { output = m.output ++ take (min 2 (length bytes)) bytes },
    )
    else (write_failed, m)

abbrev pub mem_pending : Memory → ℕ → List ℕ
mem_pending m fd = if fd == 0 then m.input else []

abbrev pub mem_written : Memory → ℕ → List ℕ
mem_written m fd = if fd == 1 then m.output else []

take-length : (l : List ℕ) → take (length l) l ≡ l
take-length [] = refl
take-length (x ∷ l) = ap (λ t. x ∷ t) (take-length l)

take-eq_nil : (n : ℕ) (l : List ℕ) → 0 < n → take n l ≡ [] → l ≡ []
take-eq_nil n [] h e = refl
take-eq_nil n (x ∷ l) h e = ground (arith, length-take n (x ∷ l))

pub mem_read_got :
    (s : Memory) (fd count : ℕ) (bytes : List ℕ)
    → 0 < count
    → (mem_read s fd count).0 ≡ got bytes
    → (mem_pending s fd ≡ bytes ++ mem_pending (mem_read s fd count).1 fd)
      × (length bytes ≤ count)
      × (bytes ≡ [] → mem_pending s fd ≡ [])
mem_read_got s fd count bytes h e = (
  ground (arith, take-append-drop (min count 3) s.input),
  ground (arith, length-take (min count 3) s.input),
  λ nil. ground (arith, take-eq_nil (min count 3) s.input),
)

pub mem_write_wrote :
    (s : Memory) (fd n : ℕ) (bytes : List ℕ)
    → 0 < length bytes
    → (mem_write s fd bytes).0 ≡ wrote n
    → (0 < n)
      × (n ≤ length bytes)
      × (mem_written (mem_write s fd bytes).1 fd ≡ mem_written s fd ++ take n bytes)
mem_write_wrote s fd n bytes h e = ground arith

pub mem_write_failed :
    (s : Memory) (fd : ℕ) (bytes : List ℕ)
    → (mem_write s fd bytes).0 ≡ write_failed
    → mem_written (mem_write s fd bytes).1 fd ≡ mem_written s fd
mem_write_failed s fd bytes e = ground arith

abbrev pub memory : Kernel Memory
memory = record {
  read = mem_read;
  write = mem_write;
  pending = mem_pending;
  written = mem_written;
  read_got = mem_read_got;
  write_wrote = mem_write_wrote;
  write_failed_lem = mem_write_failed;
}

pub memory-IsApart : IsApart memory 0 1
memory-IsApart = record { read_keeps = λ s count. refl; write_keeps = λ s bytes. refl }

-- The same with a descriptor 1 that accepts all bytes at once, as a file does.
abbrev pub file_write : Memory → ℕ → List ℕ → WriteResult × Memory
file_write m fd bytes =
    if fd == 1
    then (wrote (length bytes), record m { output = m.output ++ bytes })
    else (write_failed, m)

pub file_write_wrote :
    (s : Memory) (fd n : ℕ) (bytes : List ℕ)
    → 0 < length bytes
    → (file_write s fd bytes).0 ≡ wrote n
    → (0 < n)
      × (n ≤ length bytes)
      × (mem_written (file_write s fd bytes).1 fd ≡ mem_written s fd ++ take n bytes)
file_write_wrote s fd n bytes h e = ground (arith, take-length bytes)

pub file_write_failed :
    (s : Memory) (fd : ℕ) (bytes : List ℕ)
    → (file_write s fd bytes).0 ≡ write_failed
    → mem_written (file_write s fd bytes).1 fd ≡ mem_written s fd
file_write_failed s fd bytes e = ground arith

abbrev pub file_memory : Kernel Memory
file_memory = record {
  read = mem_read;
  write = file_write;
  pending = mem_pending;
  written = mem_written;
  read_got = mem_read_got;
  write_wrote = file_write_wrote;
  write_failed_lem = file_write_failed;
}

pub file_memory-IsApart : IsApart file_memory 0 1
file_memory-IsApart = record { read_keeps = λ s count. refl; write_keeps = λ s bytes. refl }

pub file_memory-wrote :
    (s : Memory) (fd n : ℕ) (bytes : List ℕ)
    → (file_write s fd bytes).0 ≡ wrote n
    → n ≡ length bytes
file_memory-wrote s fd n bytes e = ground arith
