-- ===== src/Bogatirya/Completes.antt =====
-- A run that prints the whole string.
use seminars.Base.{
  ℕ, ◌+◌, ◌<◌, ◌≡◌, ◌≢◌, inl, inr, refl, sym, ap, List, [], ◌∷◌, ◌++◌, All, append-nil,
  append_assoc, ◌==◌, if◌then◌else◌, update, arith, ℕ_discrete,
}
use mathlib.Core.Path.{subst, fun_ext}
use seminars.Bogatirya.{first_symbol, bogatirs_num}
use seminars.Bogatirya.Printing.{
  Stage, leading, awaiting, closing, listening, owning, answering, finished, receiving, sending,
  receives, sends, goes_on, puts_own, commands, hears_answer, ends_line, closes, obeys, puts,
  answers, Room, start, main_moves, Reach, here, later,
}
use seminars.Bogatirya.Turns.{Printable, symbol, leader}
use seminars.Bogatirya.Followers.{owner_facts}
use seminars.Bogatirya.Schedule.{room, none, acts, Passes, pass_to}

module _ (my_id owner : ℕ → ℕ) (ids : (k : ℕ) → k < bogatirs_num → owner (symbol my_id owner k) ≡ k)
    (owned : (c : ℕ) → Printable c → (owner c < bogatirs_num) × (symbol my_id owner (owner c) ≡ c))
    (string : List ℕ) where
  abbrev R : Room → Type 0
  R = Reach my_id string

  -- All but the leader are where they start.
  abbrev lead_stage : Stage → ℕ → Stage
  lead_stage g k = if k == leader my_id owner then g else (start my_id string).stage k

  listens :
      (k : ℕ) → k < bogatirs_num → k ≢ leader my_id owner → (start my_id string).stage k ≡ listening
  listens k lt nl = ground (arith, ids k lt)

  module _ (c : ℕ) (pos out : List ℕ) (clean : Printable c) (other : c ≢ 32) where
    facts :
        (owner c < bogatirs_num)
        × (symbol my_id owner (owner c) ≡ c)
        × (leader my_id owner < bogatirs_num)
        × (symbol my_id owner (leader my_id owner) ≡ 32)
        × (owner c ≢ leader my_id owner)
    facts = owner_facts my_id owner ids owned c clean other

    abbrev waits : ℕ → Stage
    waits = lead_stage (awaiting (c ∷ pos))

    -- Everybody but the owner passes over the command.
    command-Passes :
        (k : ℕ)
        → k < bogatirs_num
        → k ≢ owner c
        → Passes my_id string waits (leader my_id owner) c k
    command-Passes k lt ne = elim (ℕ_discrete k (leader my_id owner)) [
      | yes e ↦ inl e
      | no nl ↦ inr (nl, ground (arith, listens k lt nl), ground (arith, ids k lt))
    ]

    -- And everybody but the leader passes over the answer.
    answer-Passes :
        (g : Stage) (k : ℕ)
        → k < bogatirs_num
        → k ≢ leader my_id owner
        → Passes my_id string (lead_stage g) (owner c) c k
    answer-Passes g k lt nl = elim (ℕ_discrete k (owner c)) [
      | yes e ↦ inl e
      | no ne ↦ inr (ne, ground (arith, listens k lt nl), ground (arith, ids k lt))
    ]

    -- The command goes round, and its owner prints the byte.
    command_round :
        R (room waits none [] (sending (leader my_id owner) c 0) out)
        → R (
            room waits none
              ((owner c, c) ∷ [])
              (sending (leader my_id owner) c bogatirs_num)
              (out ++ (c ∷ [])))
    command_round r =
        let j = owner c in
        let main = sending (leader my_id owner) c (j + 1) in
        let at_owner =
          pass_to my_id string 0 j waits [] out (leader my_id owner) c (ground arith) (omega arith)
            (omega (arith, facts))
            (λ k lo hi. command-Passes k (omega (arith, facts)) (omega arith)) r in
        let sent =
          later at_owner (main_moves (sends (leader my_id owner) c j [] none facts.0 facts.4)) in
        let obeyed =
          acts my_id string j waits (update waits j owning) (update none j (c ∷ [])) none [] [] main
            out out facts.0 (obeys c [] (ground arith) (ground (arith, facts)))
            (ground (arith, facts, listens j facts.0 facts.4)) (ground arith) (λ x. refl)
            (λ x. ground arith) refl (append-nil out) sent in
        let put =
          acts my_id string j (update waits j owning) (update waits j answering) none none [] []
            main out (out ++ (c ∷ [])) facts.0 (puts []) (ground arith) refl (λ x. ground arith)
            (λ x. ground arith) refl (ap (λ b. out ++ (b ∷ [])) facts.1) obeyed in
        let answered =
          acts my_id string j (update waits j answering) waits none none [] ((j, c) ∷ []) main
            (out ++ (c ∷ [])) (out ++ (c ∷ [])) facts.0 (answers []) (ground arith) refl
            (λ x. ground (arith, facts, listens j facts.0 facts.4)) (λ x. ground arith)
            (ap (λ b. (j, b) ∷ []) facts.1) (append-nil (out ++ (c ∷ []))) put in
        pass_to my_id string (j + 1) bogatirs_num waits ((j, c) ∷ []) (out ++ (c ∷ []))
          (leader my_id owner) c (ground arith) (omega (arith, facts)) (omega arith)
          (λ k lo hi. command-Passes k hi (omega arith)) answered

    -- The answer goes round, and the leader goes on.
    answer_round :
        (put : List ℕ)
        → R (room waits none [] (sending (owner c) c 0) put)
        → R (room (lead_stage (leading pos)) none [] (sending (owner c) c bogatirs_num) put)
    answer_round put r =
        let l = leader my_id owner in
        let main = sending (owner c) c (l + 1) in
        let at_leader =
          pass_to my_id string 0 l waits [] put (owner c) c (ground arith) (omega arith)
            (omega (arith, facts))
            (λ k lo hi. answer-Passes (awaiting (c ∷ pos)) k (omega (arith, facts)) (omega arith))
            r in
        let sent =
          later at_leader
            (main_moves (sends (owner c) c l [] none facts.2 (λ e. facts.4 (sym e)))) in
        let heard =
          acts my_id string l waits (lead_stage (leading pos)) (update none l (c ∷ [])) none [] []
            main put put facts.2 (hears_answer c c pos []) (ground arith) (ground arith)
            (λ x. ground arith) (λ x. ground arith) refl (append-nil put) sent in
        pass_to my_id string (l + 1) bogatirs_num (lead_stage (leading pos)) [] put (owner c) c
          (ground arith) (omega (arith, facts)) (omega arith)
          (λ k lo hi. answer-Passes (leading pos) k hi (omega arith)) heard

    -- One byte that is not the leader's.
    one_turn :
        R (room (lead_stage (leading (c ∷ pos))) none [] receiving out)
        → R (room (lead_stage (leading pos)) none [] receiving (out ++ (c ∷ [])))
    one_turn r =
        let l = leader my_id owner in
        let asked =
          acts my_id string l (lead_stage (leading (c ∷ pos))) waits none none [] ((l, c) ∷ [])
            receiving out out facts.2 (commands c pos [] (ground (arith, facts))) (ground arith)
            refl (λ x. ground arith) (λ x. ground arith) refl (append-nil out) r in
        let told = command_round (later asked (main_moves (receives l c [] none))) in
        let again = later told (
          main_moves
            (goes_on l c bogatirs_num ((owner c, c) ∷ []) none (omega arith) (ground arith))) in
        let heard =
          answer_round (out ++ (c ∷ []))
            (later again (main_moves (receives (owner c) c [] none))) in
        later heard
          (main_moves (goes_on (owner c) c bogatirs_num [] none (omega arith) (ground arith)))

  -- The bytes one after the other.
  every_turn :
      (pos out : List ℕ)
      → All Printable pos
      → R (room (lead_stage (leading pos)) none [] receiving out)
      → R (room (lead_stage (leading [])) none [] receiving (out ++ pos))
  every_turn [] out clean r =
      subst (λ p. R (room (lead_stage (leading [])) none [] receiving p)) (sym (append-nil out)) r
  every_turn (c ∷ pos) out (one, clean) r =
      let first = owned 32 (omega arith) in
      subst (λ p. R (room (lead_stage (leading [])) none [] receiving p))
        (append_assoc out (c ∷ []) pos)
        (every_turn pos (out ++ (c ∷ [])) clean (elim (ℕ_discrete c 32) [
          | no ne ↦ one_turn c pos out one ne r
          | yes e ↦
              acts my_id string (leader my_id owner) (lead_stage (leading (c ∷ pos)))
                (lead_stage (leading pos)) none none [] [] receiving out (out ++ (c ∷ [])) first.0
                (puts_own c pos [] (ground (arith, first))) (ground arith) refl (λ x. ground arith)
                (λ x. ground arith) refl (ap (λ b. out ++ (b ∷ [])) (ground (arith, first))) r
        ]))

  -- For every string of printable characters there is a run at whose end the leader has finished,
  -- and the string and the end of the line have been printed. The ranks are different and give every
  -- printable character an owner.
  pub string_is_printed :
      All Printable string
      → (s : Room) × Reach my_id string s
        × (s.stage (owner first_symbol) ≡ finished)
        × (s.printed ≡ string ++ (10 ∷ []))
  string_is_printed clean =
      let l = leader my_id owner in
      let first = owned 32 (omega arith) in
      let same : (start my_id string).stage ≡ lead_stage (leading string) =
        fun_ext (λ k. ground (arith, first)) in
      let begun = subst (λ (f : ℕ → Stage). R (room f none [] receiving [])) same here in
      let sung = every_turn string [] clean begun in
      let ended =
        acts my_id string l (lead_stage (leading [])) (lead_stage closing) none none [] [] receiving
          string (string ++ (10 ∷ [])) first.0 (ends_line []) (ground arith) refl
          (λ x. ground arith) (λ x. ground arith) refl refl sung in
      let closed =
        acts my_id string l (lead_stage closing) (lead_stage finished) none none [] ((l, 0) ∷ [])
          receiving (string ++ (10 ∷ [])) (string ++ (10 ∷ [])) first.0 (closes []) (ground arith)
          refl (λ x. ground arith) (λ x. ground arith) refl (append-nil (string ++ (10 ∷ [])))
          ended in
      (_, closed, ground arith, refl)
