-- ===== src/Transfer/Write.antt =====
-- What the write loop delivers: the whole buffer, or a front part of it when a write fails.
use mathlib.Core.Path.{subst}
use seminars.Base.{
  ℕ, zero, suc, ◌+◌, ◌<◌, ◌≤◌, ◌≡◌, refl, sym, ◌∙◌, dec_lt, inl, inr, List, [], ◌++◌, length, drop,
  take, arith, append-nil, append_assoc, length-drop, take-append-drop, drop-of_le, drop-drop,
}
use seminars.Kernel.{Kernel, IsApart, wrote, write_failed, WriteResult-cases}
use seminars.Transfer.{Outcome, success, failure, no_fuel, write_loop}

module _ {S : Type 0} (k : Kernel S) (to : ℕ) where
  -- The bytes `text` were asked for: all of them are out on success, a front part on failure.
  abbrev pub Delivered : List ℕ → S → Outcome × S → Type 0
  Delivered text s (success, s') = k.written s' to ≡ k.written s to ++ text
  Delivered text s (failure, s') =
      (front : List ℕ) × (back : List ℕ) × (text ≡ front ++ back)
      × (k.written s' to ≡ k.written s to ++ front)
  Delivered text s (no_fuel, s') = ⊥

  -- After the bytes `first` have gone out, delivering the others delivers the whole.
  pub Delivered-append :
      (text first rest : List ℕ) (s s' : S) (o : Outcome × S)
      → text ≡ first ++ rest
      → k.written s' to ≡ k.written s to ++ first
      → Delivered rest s' o
      → Delivered text s o
  Delivered-append text first rest s s' (success, t) e out d =
      d ∙ rw (out, e) (append_assoc _ first rest)
  Delivered-append text first rest s s' (failure, t) e out (front, back, split, more) = (
    first ++ front,
    back,
    e ∙ rw split (sym (append_assoc first front back)),
    more ∙ rw out (append_assoc _ first front),
  )
  Delivered-append text first rest s s' (no_fuel, t) e out d = d

  -- One round of the write loop, in each of its three cases.
  write_loop-done :
      (fuel i : ℕ) (buffer : List ℕ) (s : S)
      → length buffer ≤ i
      → write_loop k (suc fuel) to buffer i s ≡ (success, s)
  unfolding write_loop
  write_loop-done fuel i buffer s h = ground arith

  write_loop-fails :
      (fuel i : ℕ) (buffer : List ℕ) (s : S)
      → i < length buffer
      → (k.write s to (drop i buffer)).0 ≡ write_failed
      → write_loop k (suc fuel) to buffer i s ≡ (failure, (k.write s to (drop i buffer)).1)
  unfolding write_loop
  write_loop-fails fuel i buffer s h e = ground arith

  write_loop-next :
      (fuel i n : ℕ) (buffer : List ℕ) (s : S)
      → i < length buffer
      → (k.write s to (drop i buffer)).0 ≡ wrote n
      → write_loop k (suc fuel) to buffer i s
        ≡ write_loop k fuel to buffer (i + n) (k.write s to (drop i buffer)).1
  unfolding write_loop
  write_loop-next fuel i n buffer s h e = ground arith

  take-drop : (i n : ℕ) (l : List ℕ) → drop i l ≡ take n (drop i l) ++ drop (i + n) l
  take-drop i n l = rw (← drop-drop i n l) (sym (take-append-drop n (drop i l)))

  pub write_loop-Delivered :
      (fuel : ℕ) (buffer : List ℕ) (i : ℕ) (s : S)
      → i ≤ length buffer
      → length buffer < i + fuel
      → Delivered (drop i buffer) s (write_loop k fuel to buffer i s)
  write_loop-Delivered zero buffer i s le h = absurd (omega arith)
  write_loop-Delivered (suc fuel) buffer i s le h = elim (dec_lt i (length buffer)) [
    | no stop ↦
        subst (Delivered rest s) (sym (write_loop-done fuel i buffer s (omega arith)))
          (rw (drop-of_le i buffer (omega arith), append-nil))
    | yes more ↦
        let here : 0 < length rest = omega (arith, length-drop i buffer) in
        elim (WriteResult-cases (k.write s to rest).0) [
          | inl e ↦
              subst (Delivered rest s) (sym (write_loop-fails fuel i buffer s more e))
                ([], rest, refl, k.write_failed_lem s to rest e ∙ sym (append-nil _))
          | inr (n, e) ↦
              let (some_out, bound, out) = k.write_wrote s to n rest here e in
              subst (Delivered rest s) (sym (write_loop-next fuel i n buffer s more e)) (
                Delivered-append rest (take n rest) (drop (i + n) buffer) s (k.write s to rest).1
                  (write_loop k fuel to buffer (i + n) (k.write s to rest).1) (take-drop i n buffer)
                  out
                  (write_loop-Delivered fuel buffer (i + n) (k.write s to rest).1
                    (omega (arith, length-drop i buffer)) (omega arith)))
        ]
  ]
    where
      rest : List ℕ
      rest = drop i buffer

module _ {S : Type 0} (k : Kernel S) {from to : ℕ} (apart : IsApart k from to) where
  pub pending-write_loop :
      (fuel : ℕ) (buffer : List ℕ) (i : ℕ) (s : S)
      → k.pending (write_loop k fuel to buffer i s).1 from ≡ k.pending s from
  unfolding write_loop
  pending-write_loop zero buffer i s = refl
  pending-write_loop (suc fuel) buffer i s =
      elim (WriteResult-cases (k.write s to (drop i buffer)).0) [
        | inl e ↦ ground (arith, apart.write_keeps s (drop i buffer))
        | inr (n, e) ↦ ground (
          arith,
          apart.write_keeps s (drop i buffer),
          pending-write_loop fuel buffer (i + n) (k.write s to (drop i buffer)).1,
        )
      ]
