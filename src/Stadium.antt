-- ===== src/Stadium.antt =====
-- stadium/stadium.c: a judge and runners 1 to n, processes that hand a baton on by messages. Any
-- process may take the next step; a step goes up to and includes one call of msgsnd or msgrcv.
pub mod Order
pub mod Race
mod Tests
use seminars.Base.{ℕ, ◌+◌, ◌≤◌, ◌<◌, ◌≡◌, ◌≢◌, List, [], ◌∷◌, ◌++◌, ◌==◌, if◌then◌else◌, update}

-- `stadium_status_t`
pub data Status : Type 0 where
  runner_created next_participant all_created : Status

-- Where the judge stands: with so many runners seen, after ALL_CREATED, after the start, at the
-- end, or after a call that failed.
pub data Judge : Type 0 where
  counting : ℕ → Judge
  starting : Judge
  awaiting_end : Judge
  finished : Judge
  judge_failed : Judge

-- Where a runner stands: before his hello, before his start, on his run, after passing the baton
-- on, or after a failure.
pub data Runner : Type 0 where
  created waiting running done runner_failed : Runner

-- The message queue keeps a list of statuses, the oldest first, for each type of message.
pub record Stadium : Type 0 where
  pub queue : ℕ → List Status
  pub judge : Judge
  pub runner : ℕ → Runner

-- `msgsnd`: the status goes behind those of its type.
abbrev pub send : (ℕ → List Status) → ℕ → Status → ℕ → List Status
send queue mtype status = update queue mtype (queue mtype ++ (status ∷ []))

-- The type of the message that starts runner `i`; that of the number after the last is the judge's.
abbrev pub baton : ℕ → ℕ → ℕ
baton n i = n + 1 + i + 1

-- The state after `main` has forked, before any child has run.
abbrev pub start : Stadium
start = record { queue = λ t. []; judge = counting 0; runner = λ i. created }

-- One step of `judge` or of a runner. `msgrcv` with type 0 takes a message of any type.
pub data Step (n : ℕ) (s : Stadium) : Stadium → Type 0 where
  judge_sees :
      (r t : ℕ) (status : Status) (rest : List Status)
      → s.judge ≡ counting r
      → r < n
      → s.queue t ≡ status ∷ rest
      → Step n s (record s { judge = counting (r + 1); queue = update s.queue t rest })
  judge_announces :
      s.judge ≡ counting n
      → Step n s (record s { judge = starting; queue = send s.queue 1 all_created })
  judge_starts :
      s.judge ≡ starting
      → Step n s
          (record s { judge = awaiting_end; queue = send s.queue (baton n 1) next_participant })
  judge_ends :
      (status : Status) (rest : List Status)
      → s.judge ≡ awaiting_end
      → s.queue (baton n (n + 1)) ≡ status ∷ rest
      → Step n s (record s { judge = finished; queue = update s.queue (baton n (n + 1)) rest })
  judge_fails : s.judge ≢ finished → Step n s (record s { judge = judge_failed })
  runner_says_hello :
      (i : ℕ)
      → 1 ≤ i
      → i ≤ n
      → s.runner i ≡ created
      → Step n s (record s {
        runner = update s.runner i waiting;
        queue = send s.queue (i + 1) runner_created;
      })
  runner_starts :
      (i : ℕ) (rest : List Status)
      → 1 ≤ i
      → i ≤ n
      → s.runner i ≡ waiting
      → s.queue (baton n i) ≡ next_participant ∷ rest
      → Step n s
          (record s { runner = update s.runner i running; queue = update s.queue (baton n i) rest })
  runner_refuses :
      (i : ℕ) (status : Status) (rest : List Status)
      → 1 ≤ i
      → i ≤ n
      → s.runner i ≡ waiting
      → status ≢ next_participant
      → s.queue (baton n i) ≡ status ∷ rest
      → Step n s (record s {
        runner = update s.runner i runner_failed;
        queue = update s.queue (baton n i) rest;
      })
  runner_passes :
      (i : ℕ)
      → 1 ≤ i
      → i ≤ n
      → s.runner i ≡ running
      → Step n s (record s {
        runner = update s.runner i done;
        queue = send s.queue (baton n (i + 1)) next_participant;
      })
  runner_fails :
      (i : ℕ)
      → 1 ≤ i
      → i ≤ n
      → s.runner i ≢ done
      → Step n s (record s { runner = update s.runner i runner_failed })

pub data Reach (n : ℕ) : Stadium → Type 0 where
  here : Reach n start
  later : {s t : Stadium} → Reach n s → Step n s t → Reach n t
