-- ===== src/Stadium/Race.antt =====
-- What the runners and the judge can rely on, in every state that the processes can reach.
use seminars.Base.{ℕ, ◌≤◌, ◌<◌, ◌≡◌, Bool-cases, inl, inr, false, List, ◌∷◌, arith}
use seminars.Stadium.{Status, next_participant, finished, running, done, Stadium, baton, Reach}
use seminars.Stadium.Order.{Reach-Inv, DoneBefore, has_run, baton-one}

module _ {n : ℕ} {s : Stadium} (r : Reach n s) where
  -- While a runner is on his run, those before him are done and those behind him have not begun.
  pub runs_in_order :
      (k : ℕ)
      → 1 ≤ k
      → s.runner k ≡ running
      → DoneBefore s k × ((j : ℕ) → k < j → has_run (s.runner j) ≡ false)
  runs_in_order k h e = (
    (Reach-Inv r).order k h (rw e),
    λ j lt. elim (Bool-cases (has_run (s.runner j))) [
      | inl ran ↦ let d = (Reach-Inv r).order j (omega arith) ran k h lt in absurd (cc)
      | inr calm ↦ calm
    ],
  )

  -- When the judge has finished, every runner has run.
  judge_is_last : s.judge ≡ finished → (i : ℕ) → 1 ≤ i → i ≤ n → s.runner i ≡ done
  judge_is_last e i lo hi = (Reach-Inv r).ended e i lo (omega arith)

  -- The status that a runner, or the judge at the end, receives is NEXT_PARTICIPANT: the test for
  -- another status never fails.
  status_is_next :
      (k : ℕ) (status : Status) (rest : List Status)
      → 1 ≤ k
      → s.queue (baton n k) ≡ status ∷ rest
      → status ≡ next_participant
  status_is_next k status rest h q = (baton-one (Reach-Inv r) k status rest h q).0
