-- ===== src/Transfer.antt =====
-- The loop by which pcat/pcat.c and wc/wc.c hand a buffer to `write` until all of it is accepted.
pub mod Write
use seminars.Base.{
  ◌≡◌, ◌≢◌, ◌⊎◌, inl, inr, refl, ℕ, zero, suc, ◌+◌, List, true, false, length, drop, ltb,
}
use seminars.Kernel.{Kernel, wrote, write_failed}

-- EXIT_SUCCESS, EXIT_FAILURE, or a loop that was given too few rounds.
pub data Outcome : Type 0 where
  success failure no_fuel : Outcome

-- `while (written < read_bytes) { write(...) }`
unfoldable pub write_loop : {S : Type 0} → Kernel S → ℕ → ℕ → List ℕ → ℕ → S → Outcome × S
write_loop k zero to buffer written s = (no_fuel, s)
write_loop k (suc fuel) to buffer written s = elim (ltb written (length buffer)) [
  | false ↦ (success, s)
  | true ↦
      let (r, s') = k.write s to (drop written buffer) in
      elim r [
        | write_failed ↦ (failure, s')
        | wrote n ↦ write_loop k fuel to buffer (written + n) s'
      ]
]

pub success? : (o : Outcome) → (o ≡ success) ⊎ (o ≢ success)
success? success = inl refl
success? failure = inr (λ e. cc)
success? no_fuel = inr (λ e. cc)
