-- ===== src/Pcat/Copy.antt =====
-- `copy_file` of pcat delivers all that the source holds.
use mathlib.Core.Path.{subst}
use seminars.Base.{
  ℕ, zero, suc, ◌<◌, ◌≡◌, refl, sym, ◌∙◌, ap, inl, inr, List, [], ◌∷◌, ◌++◌, length, arith,
  append-nil, append_assoc, length-append,
}
use seminars.Kernel.{Kernel, IsApart, got, read_failed, ReadResult-cases}
use seminars.Transfer.{Outcome, success, failure, no_fuel, write_loop}
use seminars.Transfer.Write.{Delivered, Delivered-append, write_loop-Delivered, pending-write_loop}
use seminars.Pcat.{copy_file, buffer_size}

module _ {S : Type 0} (k : Kernel S) {from to : ℕ} (apart : IsApart k from to) where
  -- One round of the copy, in each of its four cases.
  copy_file-fails :
      (fuel : ℕ) (s : S)
      → (k.read s from buffer_size).0 ≡ read_failed
      → copy_file k (suc fuel) from to s ≡ (failure, (k.read s from buffer_size).1)
  unfolding copy_file
  copy_file-fails fuel s e = ground arith

  copy_file-ends :
      (fuel : ℕ) (s : S)
      → (k.read s from buffer_size).0 ≡ got []
      → copy_file k (suc fuel) from to s ≡ (success, (k.read s from buffer_size).1)
  unfolding copy_file
  copy_file-ends fuel s e = ground arith

  after_write : ℕ → Outcome × S → Outcome × S
  after_write fuel (success, s) = copy_file k fuel from to s
  after_write fuel (failure, s) = (failure, s)
  after_write fuel (no_fuel, s) = (no_fuel, s)

  copy_file-writes :
      (fuel b : ℕ) (bs : List ℕ) (s : S)
      → (k.read s from buffer_size).0 ≡ got (b ∷ bs)
      → copy_file k (suc fuel) from to s
        ≡ after_write fuel
            (write_loop k (suc buffer_size) to (b ∷ bs) 0 (k.read s from buffer_size).1)
  unfolding copy_file after_write
  copy_file-writes fuel b bs s e = ground arith

  -- What follows the write loop, when the loop has delivered its buffer.
  after_write-Delivered :
      (fuel : ℕ) (first rest : List ℕ) (s : S) (w : Outcome × S)
      → Delivered k to first s w
      → k.pending w.1 from ≡ rest
      → ((t : S) → k.pending t from ≡ rest → Delivered k to rest t (copy_file k fuel from to t))
      → Delivered k to (first ++ rest) s (after_write fuel w)
  unfolding after_write
  after_write-Delivered fuel first rest s (success, t) d left copies =
      Delivered-append k to (first ++ rest) first rest s t (copy_file k fuel from to t) refl d
        (copies t left)
  after_write-Delivered fuel first rest s (failure, t) (front, back, split, out) left copies =
      (front, back ++ rest, rw split (append_assoc front back rest), out)
  after_write-Delivered fuel first rest s (no_fuel, t) d left copies = absurd d

  -- With a round for each byte that the source holds, and one more, `copy_file` ends; if it
  -- succeeds, it has written all the bytes of the source, and if a call fails, a front part of them.
  pub copy_file-Delivered :
      (fuel : ℕ) (s : S)
      → length (k.pending s from) < fuel
      → Delivered k to (k.pending s from) s (copy_file k fuel from to s)
  copy_file-Delivered zero s h = absurd (omega arith)
  copy_file-Delivered (suc fuel) s h = elim (ReadResult-cases (k.read s from buffer_size).0) [
    | inl e ↦
        subst (Delivered k to text s) (sym (copy_file-fails fuel s e))
          ([], text, refl, same ∙ sym (append-nil _))
    | inr ([], e) ↦ subst (Delivered k to text s) (sym (copy_file-ends fuel s e)) (
        same
        ∙ sym (append-nil _)
        ∙ ap (λ l. k.written s to ++ l)
            (sym ((k.read_got s from buffer_size [] (omega arith) e).2 refl)))
    | inr (b ∷ bs, e) ↦
        let (split, size, full) = k.read_got s from buffer_size (b ∷ bs) (omega arith) e in
        let w = write_loop k (suc buffer_size) to (b ∷ bs) 0 s' in
        subst (Delivered k to text s) (sym (copy_file-writes fuel b bs s e)) (
          Delivered-append k to text [] text s s' (after_write fuel w) refl
            (same ∙ sym (append-nil _))
            (subst (λ l. Delivered k to l s' (after_write fuel w)) (sym split)
              (after_write-Delivered fuel (b ∷ bs) (k.pending s' from) s' w
                (write_loop-Delivered k to (suc buffer_size) (b ∷ bs) 0 s' (omega arith)
                  (omega arith))
                (pending-write_loop k apart (suc buffer_size) (b ∷ bs) 0 s')
                (λ t left. rw (← left) (
                  copy_file-Delivered fuel t (
                    omega (
                      arith,
                      ap length split,
                      ap length left,
                      length-append (b ∷ bs) (k.pending s' from),
                    )))))))
  ]
    where
      text : List ℕ
      text = k.pending s from

      s' : S
      s' = (k.read s from buffer_size).1

      same : k.written s' to ≡ k.written s to
      same = apart.read_keeps s buffer_size
