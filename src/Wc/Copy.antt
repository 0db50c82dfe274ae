-- ===== src/Wc/Copy.antt =====
-- `copy_file` of wc passes its input on unchanged, and its counters are those of the whole input.
use mathlib.Core.Path.{subst}
use seminars.Base.{
  ◌%◌, ◌^◌, ◌-◌, words, split_on, ◌==◌, ℕ, zero, suc, ◌<◌, ◌≡◌, ◌≢◌, refl, sym, ◌∙◌, ap, inl, inr,
  List, [], ◌∷◌, length, arith,
}
use seminars.Kernel.{Kernel, IsApart, got, read_failed, ReadResult-cases}
use seminars.Transfer.{success, write_loop, success?}
use seminars.Transfer.Write.{Delivered, pending-write_loop}
use seminars.Pcat
use seminars.Pcat.Copy.{copy_file-Delivered}
use seminars.Wc.{Count, no_count, copy_file, buffer_size, count_read}
use seminars.Wc.Counts.{
  IsSmall, count_read-IsSmall, count_read-nil, count_read-append, count_read-info,
}

module _ {S : Type 0} (k : Kernel S) (from to : ℕ) where
  -- The counting changes nothing of what is read and written: it is the `copy_file` of pcat.
  copy_file-pcat :
      (fuel : ℕ) (st : Count) (s : S)
      → let (o, st', s') = copy_file k fuel from to st s in
        (o, s') ≡ Pcat.copy_file k fuel from to s
  unfolding copy_file Pcat.copy_file
  copy_file-pcat zero st s = refl
  copy_file-pcat (suc fuel) st s = elim (ReadResult-cases (k.read s from buffer_size).0) [
    | inl e ↦ ground arith
    | inr ([], e) ↦ ground arith
    | inr (b ∷ bs, e) ↦ ground (
      arith,
      copy_file-pcat fuel (count_read st (b ∷ bs))
          (write_loop k (suc buffer_size) to (b ∷ bs) 0 (k.read s from buffer_size).1).1,
    )
  ]

module _ {S : Type 0} (k : Kernel S) {from to : ℕ} (apart : IsApart k from to) where
  -- `copy_file` of wc returns what `copy_file` of pcat returns, and leaves the same system. With a
  -- round for each byte of the input, and one more, it ends; if it succeeds, it has written all the
  -- bytes of the input, and if a call fails, a front part of them.
  pub copy_file-passes :
      (fuel : ℕ) (st : Count) (s : S)
      → length (k.pending s from) < fuel
      → let (o, st', s') = copy_file k fuel from to st s in
        ((o, s') ≡ Pcat.copy_file k fuel from to s) × Delivered k to (k.pending s from) s (o, s')
  copy_file-passes fuel st s h =
      let same = copy_file-pcat k from to fuel st s in
      (
        same,
        subst (Delivered k to (k.pending s from) s) (sym same)
            (copy_file-Delivered k apart fuel s h),
      )

  -- One round, when the write loop ends well.
  copy_file-next :
      (fuel b : ℕ) (bs : List ℕ) (st : Count) (s : S)
      → let s' = (k.read s from buffer_size).1 in
        (k.read s from buffer_size).0 ≡ got (b ∷ bs)
        → (write_loop k (suc buffer_size) to (b ∷ bs) 0 s').0 ≡ success
        → copy_file k (suc fuel) from to st s
          ≡ copy_file k fuel from to
              (count_read st (b ∷ bs))
              (write_loop k (suc buffer_size) to (b ∷ bs) 0 s').1
  unfolding copy_file
  copy_file-next fuel b bs st s e w = ground arith

  copy_file-ends :
      (fuel : ℕ) (st : Count) (s : S)
      → (k.read s from buffer_size).0 ≡ got []
      → (copy_file k (suc fuel) from to st s).1 ≡ st
  unfolding copy_file
  copy_file-ends fuel st s e = ground arith

  copy_file-read_failed :
      (fuel : ℕ) (st : Count) (s : S)
      → (k.read s from buffer_size).0 ≡ read_failed
      → (copy_file k (suc fuel) from to st s).0 ≢ success
  unfolding copy_file
  copy_file-read_failed fuel st s e = ground arith

  copy_file-write_failed :
      (fuel b : ℕ) (bs : List ℕ) (st : Count) (s : S)
      → let s' = (k.read s from buffer_size).1 in
        (k.read s from buffer_size).0 ≡ got (b ∷ bs)
        → (write_loop k (suc buffer_size) to (b ∷ bs) 0 s').0 ≢ success
        → (copy_file k (suc fuel) from to st s).0 ≢ success
  unfolding copy_file
  copy_file-write_failed fuel b bs st s e w = ground arith

  -- When it succeeds, the counters are those of the whole input, however the reads cut it.
  pub copy_file-counts :
      (fuel : ℕ) (st : Count) (s : S)
      → IsSmall st.info
      → (copy_file k fuel from to st s).0 ≡ success
      → (copy_file k fuel from to st s).1 ≡ count_read st (k.pending s from)
  copy_file-counts zero st s small ok = absurd (unfold copy_file in cc)
  copy_file-counts (suc fuel) st s small ok =
      elim (ReadResult-cases (k.read s from buffer_size).0) [
        | inl e ↦ absurd (copy_file-read_failed fuel st s e ok)
        | inr ([], e) ↦
            copy_file-ends fuel st s e
            ∙ sym (count_read-nil st small)
            ∙ ap (count_read st) (sym ((k.read_got s from buffer_size [] (omega arith) e).2 refl))
        | inr (b ∷ bs, e) ↦
            let s' = (k.read s from buffer_size).1 in
            let w = write_loop k (suc buffer_size) to (b ∷ bs) 0 s' in
            elim (success? w.0) [
              | inr bad ↦ absurd (copy_file-write_failed fuel b bs st s e bad ok)
              | inl good ↦
                  let next = copy_file-next fuel b bs st s e good in
                  let st' = count_read st (b ∷ bs) in
                  ap (λ r. r.1) next
                  ∙ copy_file-counts fuel st' w.1 (count_read-IsSmall st (b ∷ bs) small)
                      (ap (λ r. r.0) (sym next) ∙ ok)
                  ∙ ap (count_read st') (pending-write_loop k apart (suc buffer_size) (b ∷ bs) 0 s')
                  ∙ count_read-append st (b ∷ bs) (k.pending s' from)
                  ∙ ap (count_read st)
                      (sym (k.read_got s from buffer_size (b ∷ bs) (omega arith) e).0)
            ]
      ]

  -- When `copy_file` of wc succeeds, started with zeros, its counters are the number of bytes, of
  -- words and of line ends of the whole input, modulo the width of `size_t`.
  pub copy_file-info :
      (fuel : ℕ) (s : S)
      → (copy_file k fuel from to no_count s).0 ≡ success
      → let info = (copy_file k fuel from to no_count s).1.info in
        let text = k.pending s from in
        (info.bytes ≡ length text % 2 ^ 64)
        × (info.words ≡ length (words text) % 2 ^ 64)
        × (info.lines ≡ (length (split_on (λ c. c == 10) text) - 1) % 2 ^ 64)
  copy_file-info fuel s ok =
      rw (copy_file-counts fuel no_count s (omega arith) ok) (count_read-info (k.pending s from))
