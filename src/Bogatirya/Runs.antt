-- ===== src/Bogatirya/Runs.antt =====
-- Runs of processes whose ranks are their numbers.
use seminars.Base.{ℕ, ◌-◌, ◌<◌, ◌≡◌, ◌≢◌, ◌⊎◌, refl, List, [], ◌∷◌, ◌++◌, codes, arith}
use seminars.Bogatirya.{bogatirs_num, first_symbol}
use seminars.Bogatirya.Completes.{string_is_printed}
use seminars.Bogatirya.Printing.{
  finished, receives, skips, sends, commands, obeys, puts, Room, bogatir_moves, main_moves, Reach,
  here, later,
}
use seminars.Bogatirya.Turns.{Printable, symbol}
use seminars.Bogatirya.Song.{printed-IsFront}

abbrev my_id : ℕ → ℕ
my_id k = k

abbrev owner : ℕ → ℕ
owner c = c - 32

ids : (k : ℕ) → k < bogatirs_num → owner (symbol my_id owner k) ≡ k
ids k lt = omega arith

owned : (c : ℕ) → Printable c → (owner c < bogatirs_num) × (symbol my_id owner (owner c) ≡ c)
owned c p = omega arith

-- The leader asks for an exclamation mark, and its owner prints it while main is still busy.
mark : (s : Room) × Reach my_id (codes "! ") s × (s.printed ≡ codes "!")
mark = (
  _,
  later
      (later
        (later
          (later
            (later
              (later here (bogatir_moves 0 (omega arith) (commands 33 (32 ∷ []) [] (omega arith))))
              (main_moves (receives 0 33 [] _)))
            (main_moves (skips 0 33 0 [] _ (omega arith) refl)))
          (main_moves (sends 0 33 1 [] _ (omega arith) (omega arith))))
        (bogatir_moves 1 (omega arith) (obeys 33 [] (omega arith) refl)))
      (bogatir_moves 1 (omega arith) (puts [])),
  refl,
)

printed-IsFront_example :
    ((mark.0.stage 0 ≢ finished)
      × ((rest : List ℕ) × (mark.0.printed ++ rest ≡ codes "! " ++ (10 ∷ []))))
    ⊎ ((mark.0.stage 0 ≡ finished) × (mark.0.printed ≡ codes "! " ++ (10 ∷ [])))
printed-IsFront_example =
    printed-IsFront my_id owner ids owned (codes "! ") mark.0 (omega arith) mark.1

string_is_printed_example :
    (s : Room) × Reach my_id (codes "Hi, all!") s
    × (s.stage (owner first_symbol) ≡ finished)
    × (s.printed ≡ codes "Hi, all!" ++ (10 ∷ []))
string_is_printed_example = string_is_printed my_id owner ids owned (codes "Hi, all!") (omega arith)
