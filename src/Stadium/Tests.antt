-- ===== src/Stadium/Tests.antt =====
-- A race of one runner.
use seminars.Base.{ℕ, ◌<◌, ◌≡◌, refl, false, [], arith}
use seminars.Stadium.{
  runner_created, next_participant, Stadium, Reach, here, later, judge_sees, judge_announces,
  judge_starts, judge_ends, runner_says_hello, runner_starts, runner_passes,
}
use seminars.Stadium.Order.{DoneBefore, has_run}
use seminars.Stadium.Race.{runs_in_order}

-- A state together with the steps that lead to it.
abbrev At : ℕ → Type 0
At n = (s : Stadium) × Reach n s

abbrev hello : At 1
hello = (_, later here (runner_says_hello 1 (omega arith) (omega arith) refl))

abbrev announced : At 1
announced = (
  _,
  later (later hello.1 (judge_sees 0 2 runner_created [] refl (omega arith) refl))
      (judge_announces refl),
)

abbrev started : At 1
started = (_, later announced.1 (judge_starts refl))

abbrev on_the_run : At 1
on_the_run = (_, later started.1 (runner_starts 1 [] (omega arith) (omega arith) refl refl))

abbrev over : At 1
over = (
  _,
  later (later on_the_run.1 (runner_passes 1 (omega arith) (omega arith) refl))
      (judge_ends next_participant [] refl refl),
)

runs_in_order_example :
    DoneBefore on_the_run.0 1 × ((j : ℕ) → 1 < j → has_run (on_the_run.0.runner j) ≡ false)
runs_in_order_example = runs_in_order on_the_run.1 1 (omega arith) refl
