-- ===== src/Stadium/Order.antt =====
-- The baton: who holds it, and who has run before. True at the start and kept by every step.
use seminars.Base.{
  ℕ_discrete, Bool-cases, ℕ, ◌+◌, ◌≤◌, ◌<◌, ◌≡◌, ◌≢◌, ◌⊎◌, inl, inr, refl, Bool, true, false, List,
  [], ◌∷◌, arith, update,
}
use seminars.Stadium.{
  Status, next_participant, Judge, counting, starting, finished, Runner, waiting, running, done,
  runner_failed, Stadium, baton, start, Step, Reach, here, later, judge_sees, judge_announces,
  judge_starts, judge_ends, judge_fails, runner_says_hello, runner_starts, runner_refuses,
  runner_passes, runner_fails,
}

-- A runner who has the baton or has had it.
abbrev pub has_run : Runner → Bool
has_run running = true
has_run done = true
has_run _ = false

-- The judge before he has sent the baton off.
abbrev pub is_early : Judge → Bool
is_early (counting r) = true
is_early starting = true
is_early _ = false

abbrev pub DoneBefore : Stadium → ℕ → Type 0
DoneBefore s k = (i : ℕ) → 1 ≤ i → i < k → s.runner i ≡ done

pub record Inv (n : ℕ) (s : Stadium) : Type 0 where
  pub early :
      is_early s.judge ≡ true
      → (k : ℕ) → 1 ≤ k
      → (s.queue (baton n k) ≡ []) × (has_run (s.runner k) ≡ false)
  pub one :
      (k : ℕ) → 1 ≤ k → (s.queue (baton n k) ≡ []) ⊎ (s.queue (baton n k) ≡ next_participant ∷ [])
  pub token :
      (k : ℕ) → 1 ≤ k → s.queue (baton n k) ≢ [] → DoneBefore s k × (has_run (s.runner k) ≡ false)
  pub order : (k : ℕ) → 1 ≤ k → has_run (s.runner k) ≡ true → DoneBefore s k
  pub ended : s.judge ≡ finished → DoneBefore s (n + 1)

start-Inv : (n : ℕ) → Inv n start
start-Inv n = record {
  early = λ e k h. (refl, refl);
  one = λ k h. inl refl;
  token = λ k h ne. absurd (ne refl);
  order = λ k h e. cc;
  ended = λ e. cc;
}

module _ {n : ℕ} {s : Stadium} (inv : Inv n s) where
  open inv use {early, one, token, order, ended}

  abbrev Early : Stadium → Type 0
  Early t =
      is_early t.judge ≡ true
      → (k : ℕ) → 1 ≤ k
      → (t.queue (baton n k) ≡ []) × (has_run (t.runner k) ≡ false)

  Step-Early : {t : Stadium} → Step n s t → Early t
  Step-Early (judge_sees r u status rest j lt q) e k h = ground (arith, early (rw j refl) k h)
  Step-Early (judge_announces j) e k h = ground (arith, early (rw j refl) k h)
  Step-Early (judge_starts j) e k h = cc
  Step-Early (judge_ends status rest j q) e k h = cc
  Step-Early (judge_fails j) e k h = cc
  Step-Early (runner_says_hello i lo hi r) e k h = ground (arith, early e k h)
  Step-Early (runner_starts i rest lo hi r q) e k h = ground (arith, early e i lo)
  Step-Early (runner_refuses i status rest lo hi r ne q) e k h = ground (arith, early e k h)
  Step-Early (runner_passes i lo hi r) e k h = ground (arith, early e i lo)
  Step-Early (runner_fails i lo hi r) e k h = ground (arith, early e k h)

  -- A message that a runner or the judge finds is the baton, and the only one.
  pub baton-one :
      (k : ℕ) (status : Status) (rest : List Status)
      → 1 ≤ k
      → s.queue (baton n k) ≡ status ∷ rest
      → (status ≡ next_participant) × (rest ≡ [])
  baton-one k status rest h q = ground (arith, one k h)

  -- Nobody waits for the baton behind a runner who is on his run.
  next_empty : (i : ℕ) → 1 ≤ i → s.runner i ≡ running → s.queue (baton n (i + 1)) ≡ []
  next_empty i lo r = elim (one (i + 1) (omega arith)) [
    | inl e ↦ e
    | inr e ↦
        let before = (token (i + 1) (omega arith) (λ nil. cc)).0 i lo (omega arith) in absurd (cc)
  ]

  -- The runner behind one who is on his run has not run.
  follower_waits : (i : ℕ) → 1 ≤ i → s.runner i ≡ running → has_run (s.runner (i + 1)) ≡ false
  follower_waits i lo r = elim (Bool-cases (has_run (s.runner (i + 1)))) [
    | inl e ↦ let before = order (i + 1) (omega arith) e i lo (omega arith) in absurd (cc)
    | inr e ↦ e
  ]

  abbrev One : Stadium → Type 0
  One t =
      (k : ℕ) → 1 ≤ k → (t.queue (baton n k) ≡ []) ⊎ (t.queue (baton n k) ≡ next_participant ∷ [])

  Step-One : {t : Stadium} → Step n s t → One t
  Step-One (judge_sees r u status rest j lt q) k h = ground (arith, early (rw j refl) k h)
  Step-One (judge_announces j) k h = ground (arith, one k h)
  Step-One (judge_starts j) k h = ground (arith, one k h, early (rw j refl) k h)
  Step-One (judge_ends status rest j q) k h = ground (arith, one k h, baton-one k status rest h)
  Step-One (judge_fails j) k h = one k h
  Step-One (runner_says_hello i lo hi r) k h = ground (arith, one k h)
  Step-One (runner_starts i rest lo hi r q) k h =
      ground (arith, one k h, baton-one k next_participant rest h)
  Step-One (runner_refuses i status rest lo hi r ne q) k h =
      ground (arith, one k h, baton-one k status rest h)
  Step-One (runner_passes i lo hi r) k h = ground (arith, one k h, next_empty i lo r)
  Step-One (runner_fails i lo hi r) k h = one k h

  abbrev Token : Stadium → Type 0
  Token t =
      (k : ℕ) → 1 ≤ k → t.queue (baton n k) ≢ [] → DoneBefore t k × (has_run (t.runner k) ≡ false)

  -- A runner who moves, but not from his run, was not done.
  DoneBefore-update :
      (i k : ℕ) (p : Runner)
      → s.runner i ≢ done
      → DoneBefore s k
      → (j : ℕ) → 1 ≤ j
      → j < k
      → update s.runner i p j ≡ done
  DoneBefore-update i k p ne before j lo hi = ground (arith, before j lo hi)

  DoneBefore-done :
      (i k : ℕ) → DoneBefore s k → (j : ℕ) → 1 ≤ j → j < k → update s.runner i done j ≡ done
  DoneBefore-done i k before j lo hi = ground (arith, before j lo hi)

  Step-Token : {t : Stadium} → Step n s t → Token t
  Step-Token (judge_sees r u status rest j lt q) k h ne =
      absurd (ne (ground (arith, early (rw j refl) k h)))
  Step-Token (judge_announces j) k h ne = absurd (ne (ground (arith, early (rw j refl) k h)))
  Step-Token (judge_starts j) k h ne =
      (λ i lo hi. absurd (ne (ground (arith, early (rw j refl) k h))), (early (rw j refl) k h).1)
  Step-Token (judge_ends status rest j q) k h ne =
      token k h (λ e. ne (ground (arith, baton-one (n + 1) status rest (omega arith))))
  Step-Token (judge_fails j) k h ne = token k h ne
  Step-Token (runner_says_hello i lo hi r) k h ne =
      let (before, calm) = token k h (λ e. ne (ground arith)) in
      (DoneBefore-update i k waiting (λ e. cc) before, ground arith)
  Step-Token (runner_starts i rest lo hi r q) k h ne =
      let (before, calm) = token k h (λ e. ne (ground arith)) in
      (
        DoneBefore-update i k running (λ e. cc) before,
        ground (arith, baton-one i next_participant rest lo),
      )
  Step-Token (runner_refuses i status rest lo hi r other q) k h ne =
      absurd (other (baton-one i status rest lo q).0)
  Step-Token (runner_passes i lo hi r) k h ne = elim (ℕ_discrete k (i + 1)) [
    | yes e ↦ rw e (
      λ j jlo jhi. ground (arith, order i lo (rw r refl) j jlo),
      ground (arith, follower_waits i lo r),
    )
    | no other ↦
        let (before, calm) = token k h (λ e. ne (ground arith)) in
        (DoneBefore-done i k before, ground arith)
  ]
  Step-Token (runner_fails i lo hi r) k h ne =
      let (before, calm) = token k h ne in
      (DoneBefore-update i k runner_failed r before, ground arith)

  abbrev Ordered : Stadium → Type 0
  Ordered t = (k : ℕ) → 1 ≤ k → has_run (t.runner k) ≡ true → DoneBefore t k

  Step-Ordered : {t : Stadium} → Step n s t → Ordered t
  Step-Ordered (judge_sees r u status rest j lt q) k h e = order k h e
  Step-Ordered (judge_announces j) k h e = order k h e
  Step-Ordered (judge_starts j) k h e = order k h e
  Step-Ordered (judge_ends status rest j q) k h e = order k h e
  Step-Ordered (judge_fails j) k h e = order k h e
  Step-Ordered (runner_says_hello i lo hi r) k h e =
      DoneBefore-update i k waiting (λ d. cc) (order k h (ground arith))
  Step-Ordered (runner_starts i rest lo hi r q) k h e = elim (ℕ_discrete k i) [
    | yes same ↦ DoneBefore-update i k running (λ d. cc) (rw same (token i lo (λ nil. cc)).0)
    | no other ↦ DoneBefore-update i k running (λ d. cc) (order k h (ground arith))
  ]
  Step-Ordered (runner_refuses i status rest lo hi r other q) k h e =
      absurd (other (baton-one i status rest lo q).0)
  Step-Ordered (runner_passes i lo hi r) k h e = elim (ℕ_discrete k i) [
    | yes same ↦ DoneBefore-done i k (order k h (rw (same, r) refl))
    | no other ↦ DoneBefore-done i k (order k h (ground arith))
  ]
  Step-Ordered (runner_fails i lo hi r) k h e =
      DoneBefore-update i k runner_failed r (order k h (ground arith))

  abbrev Ended : Stadium → Type 0
  Ended t = t.judge ≡ finished → DoneBefore t (n + 1)

  Step-Ended : {t : Stadium} → Step n s t → Ended t
  Step-Ended (judge_sees r u status rest j lt q) e = cc
  Step-Ended (judge_announces j) e = cc
  Step-Ended (judge_starts j) e = cc
  Step-Ended (judge_ends status rest j q) e = (token (n + 1) (omega arith) (λ nil. cc)).0
  Step-Ended (judge_fails j) e = cc
  Step-Ended (runner_says_hello i lo hi r) e =
      DoneBefore-update i (n + 1) waiting (λ d. cc) (ended e)
  Step-Ended (runner_starts i rest lo hi r q) e =
      DoneBefore-update i (n + 1) running (λ d. cc) (ended e)
  Step-Ended (runner_refuses i status rest lo hi r other q) e =
      absurd (other (baton-one i status rest lo q).0)
  Step-Ended (runner_passes i lo hi r) e = DoneBefore-done i (n + 1) (ended e)
  Step-Ended (runner_fails i lo hi r) e = DoneBefore-update i (n + 1) runner_failed r (ended e)

  -- Every step keeps the invariant.
  pub Step-Inv : {t : Stadium} → Step n s t → Inv n t
  Step-Inv st = record {
    early = Step-Early st;
    one = Step-One st;
    token = Step-Token st;
    order = Step-Ordered st;
    ended = Step-Ended st;
  }

pub Reach-Inv : {n : ℕ} {s : Stadium} → Reach n s → Inv n s
Reach-Inv {n} here = start-Inv n
Reach-Inv (later r st) = Step-Inv (Reach-Inv r) st
