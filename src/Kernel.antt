-- ===== src/Kernel.antt =====
-- The operating system's `read` and `write`, which the programs call and do not implement: an
-- interface over an abstract state of the system, with what POSIX documents of the two calls.
pub mod Memory
use seminars.Base.{ℕ, ◌≤◌, ◌<◌, ◌≡◌, ◌⊎◌, inl, inr, refl, List, [], ◌++◌, length, take}

-- What `read` returns: the bytes read (none at the end of the file), or -1.
pub data ReadResult : Type 0 where
  got : List ℕ → ReadResult
  read_failed : ReadResult

-- What `write` returns: the number of bytes accepted, or -1.
pub data WriteResult : Type 0 where
  wrote : ℕ → WriteResult
  write_failed : WriteResult

pub record Kernel (S : Type 0) : Type 0 where
  -- `read(fd, buffer, count)`
  pub read : S → ℕ → ℕ → ReadResult × S
  -- `write(fd, bytes, length)`
  pub write : S → ℕ → List ℕ → WriteResult × S
  -- the bytes that a descriptor still holds before its end of file
  pub pending : S → ℕ → List ℕ
  -- the bytes that a descriptor has accepted
  pub written : S → ℕ → List ℕ
  -- A read takes at most `count` bytes off the front, and none only at the end of the file.
  pub read_got :
      (s : S) (fd count : ℕ) (bytes : List ℕ)
      → 0 < count
      → (read s fd count).0 ≡ got bytes
      → (pending s fd ≡ bytes ++ pending (read s fd count).1 fd)
        × (length bytes ≤ count)
        × (bytes ≡ [] → pending s fd ≡ [])
  -- A write accepts a front part of the bytes, and at least one of them.
  pub write_wrote :
      (s : S) (fd n : ℕ) (bytes : List ℕ)
      → 0 < length bytes
      → (write s fd bytes).0 ≡ wrote n
      → (0 < n)
        × (n ≤ length bytes)
        × (written (write s fd bytes).1 fd ≡ written s fd ++ take n bytes)
  -- A write that fails accepts nothing.
  pub write_failed_lem :
      (s : S) (fd : ℕ) (bytes : List ℕ)
      → (write s fd bytes).0 ≡ write_failed
      → written (write s fd bytes).1 fd ≡ written s fd

-- Two descriptors of different files or pipes: reading one does not write the other, nor the
-- other way round.
pub record IsApart {S : Type 0} (k : Kernel S) (from to : ℕ) : Type 0 where
  pub read_keeps : (s : S) (count : ℕ) → k.written (k.read s from count).1 to ≡ k.written s to
  pub write_keeps :
      (s : S) (bytes : List ℕ) → k.pending (k.write s to bytes).1 from ≡ k.pending s from

pub ReadResult-cases : (r : ReadResult) → (r ≡ read_failed) ⊎ ((bytes : List ℕ) × (r ≡ got bytes))
ReadResult-cases read_failed = inl refl
ReadResult-cases (got bytes) = inr (bytes, refl)

pub WriteResult-cases : (r : WriteResult) → (r ≡ write_failed) ⊎ ((n : ℕ) × (r ≡ wrote n))
WriteResult-cases write_failed = inl refl
WriteResult-cases (wrote n) = inr (n, refl)
