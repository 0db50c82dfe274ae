-- ===== src/Bogatirya/Printing.antt =====
-- 33_bogatirya/33_bogatirya.c: what the processes do after the drawing, and main's broadcast.
use seminars.Base.{
  ℕ, ◌+◌, ◌<◌, ◌≤◌, ◌≡◌, ◌≢◌, Bool, true, false, List, [], ◌∷◌, ◌++◌, ◌==◌, if◌then◌else◌, update,
}
use seminars.Bogatirya.{bogatirs_num, symbol_of}

-- Where a process is in `bogatir`. The leader has the rank 0: at the head of his loop with `pos`,
-- before the receive that follows his command, and before his last send. The others: before the
-- receive, before putchar, and before the send that follows it.
pub data Stage : Type 0 where
  leading awaiting : List ℕ → Stage
  closing listening owning answering finished failed : Stage

-- The loop of `main`: before the receive, in the broadcast of a value from a process, before number
-- i, or behind the loop.
pub data Main : Type 0 where
  receiving over : Main
  sending : ℕ → ℕ → ℕ → Main

-- `letters k` are the values of the messages for process k that wait in the queue, `to_main` the
-- senders and values of those for main, and `printed` the standard output.
pub record Room : Type 0 where
  pub stage : ℕ → Stage
  pub letters : ℕ → List ℕ
  pub to_main : List (ℕ × ℕ)
  pub main : Main
  pub printed : List ℕ

-- The call that comes next is msgsnd or msgrcv, which may fail.
abbrev pub may_fail : ℕ → Stage → Bool
may_fail symbol (leading []) = false
may_fail symbol (leading (c ∷ pos)) = if c == symbol then false else true
may_fail symbol (awaiting pos) = true
may_fail symbol closing = true
may_fail symbol listening = true
may_fail symbol answering = true
may_fail symbol _ = false

-- A step of process k with its symbol: its stage before and after, its letters before and after,
-- the messages that it sends to main, and what it prints.
pub data Move (k symbol : ℕ)
    : Stage → List ℕ → Stage → List ℕ → List (ℕ × ℕ) → List ℕ → Type 0 where
  puts_own :
      (c : ℕ) (pos l : List ℕ)
      → c ≡ symbol
      → Move k symbol (leading (c ∷ pos)) l (leading pos) l [] (symbol ∷ [])
  commands :
      (c : ℕ) (pos l : List ℕ)
      → c ≢ symbol
      → Move k symbol (leading (c ∷ pos)) l (awaiting (c ∷ pos)) l ((k, c) ∷ []) []
  hears_answer :
      (c v : ℕ) (pos l : List ℕ) → Move k symbol (awaiting (c ∷ pos)) (v ∷ l) (leading pos) l [] []
  ends_line : (l : List ℕ) → Move k symbol (leading []) l closing l [] (10 ∷ [])
  closes : (l : List ℕ) → Move k symbol closing l finished l ((k, 0) ∷ []) []
  hears_end : (v : ℕ) (l : List ℕ) → v ≡ 0 → Move k symbol listening (v ∷ l) finished l [] []
  ignores :
      (v : ℕ) (l : List ℕ) → v ≢ 0 → v ≢ symbol → Move k symbol listening (v ∷ l) listening l [] []
  obeys : (v : ℕ) (l : List ℕ) → v ≢ 0 → v ≡ symbol → Move k symbol listening (v ∷ l) owning l [] []
  puts : (l : List ℕ) → Move k symbol owning l answering l [] (symbol ∷ [])
  answers : (l : List ℕ) → Move k symbol answering l listening l ((k, symbol) ∷ []) []
  fails : (g : Stage) (l : List ℕ) → may_fail symbol g ≡ true → Move k symbol g l failed l [] []

-- A step of main: itself, the messages for it, and the letters of all, before and after. What
-- msgsnd returns is not tested, so that a message may be lost.
pub data MainMove
    : Main → List (ℕ × ℕ) → (ℕ → List ℕ) → Main → List (ℕ × ℕ) → (ℕ → List ℕ) → Type 0 where
  receives :
      (from v : ℕ) (m : List (ℕ × ℕ)) (f : ℕ → List ℕ)
      → MainMove receiving ((from, v) ∷ m) f (sending from v 0) m f
  receive_fails : (m : List (ℕ × ℕ)) (f : ℕ → List ℕ) → MainMove receiving m f over m f
  skips :
      (from v i : ℕ) (m : List (ℕ × ℕ)) (f : ℕ → List ℕ)
      → i < bogatirs_num
      → i ≡ from
      → MainMove (sending from v i) m f (sending from v (i + 1)) m f
  sends :
      (from v i : ℕ) (m : List (ℕ × ℕ)) (f : ℕ → List ℕ)
      → i < bogatirs_num
      → i ≢ from
      → MainMove (sending from v i) m f (sending from v (i + 1)) m (update f i (f i ++ (v ∷ [])))
  loses :
      (from v i : ℕ) (m : List (ℕ × ℕ)) (f : ℕ → List ℕ)
      → i < bogatirs_num
      → i ≢ from
      → MainMove (sending from v i) m f (sending from v (i + 1)) m f
  goes_on :
      (from v i : ℕ) (m : List (ℕ × ℕ)) (f : ℕ → List ℕ)
      → bogatirs_num ≤ i
      → v ≢ 0
      → MainMove (sending from v i) m f receiving m f
  breaks :
      (from v i : ℕ) (m : List (ℕ × ℕ)) (f : ℕ → List ℕ)
      → bogatirs_num ≤ i
      → v ≡ 0
      → MainMove (sending from v i) m f over m f

-- For the ranks that the drawing has given, and the string to print.
module _ (my_id : ℕ → ℕ) (string : List ℕ) where
  -- All have their ranks, and nothing waits in the queue.
  abbrev pub start : Room
  start = record {
    stage = λ k. if my_id k == 0 then leading string else listening;
    letters = λ k. [];
    to_main = [];
    main = receiving;
    printed = [];
  }

  pub data Step (s : Room) : Room → Type 0 where
    bogatir_moves :
        (k : ℕ) {g : Stage} {l : List ℕ} {sent : List (ℕ × ℕ)} {out : List ℕ}
        → k < bogatirs_num
        → Move k (symbol_of (my_id k)) (s.stage k) (s.letters k) g l sent out
        → Step s (record s {
          stage = update s.stage k g;
          letters = update s.letters k l;
          to_main = s.to_main ++ sent;
          printed = s.printed ++ out;
        })
    main_moves :
        {main : Main} {to_main : List (ℕ × ℕ)} {letters : ℕ → List ℕ}
        → MainMove s.main s.to_main s.letters main to_main letters
        → Step s (record s { main = main; to_main = to_main; letters = letters })

  pub data Reach : Room → Type 0 where
    here : Reach start
    later : {s t : Room} → Reach s → Step s t → Reach t
