-- ===== src/Bogatirya/Song.antt =====
-- What the processes print together.
use mathlib.Core.Path.{subst}
use seminars.Base.{
  ℕ, ◌+◌, ◌<◌, ◌≡◌, ◌≢◌, ◌⊎◌, inl, inr, refl, sym, ap, ◌∙◌, true, false, List, [], ◌∷◌, ◌++◌, All,
  if◌then◌else◌, arith, ℕ_discrete,
}
use seminars.Bogatirya.{first_symbol, bogatirs_num}
use seminars.Bogatirya.Printing.{
  Stage, leading, awaiting, closing, listening, answering, finished, failed, Main, receiving, over,
  sending, MainMove, receives, receive_fails, skips, sends, loses, goes_on, breaks, Move, puts_own,
  commands, hears_answer, ends_line, closes, hears_end, ignores, obeys, puts, answers, fails, Room,
  start, Step, bogatir_moves, main_moves, Reach, here, later,
}
use seminars.Bogatirya.Turns.{
  Printable, Turn, symbol, leader, before, after, LeaderIs, from_leader, Playing,
}
use seminars.Bogatirya.Followers.{
  moved, rests-Playing, obeys-Playing, puts-Playing, answers-Playing,
}
use seminars.Bogatirya.Leader.{
  puts_own-Playing, ends_line-Playing, fails-Playing, hears_answer-Playing, commands-Playing,
}
use seminars.Bogatirya.Broadcast.{told, receives-Playing, passes-Playing, sends-Playing}
use seminars.Bogatirya.Broadcast
use seminars.Bogatirya.Ending.{Over, closes-Over, Move-Over, tells-Over, sends-Over}

-- The ranks of the processes, the process that has each symbol, and a string of printable bytes.
module _ (my_id owner : ℕ → ℕ) (ids : (k : ℕ) → k < bogatirs_num → owner (symbol my_id owner k) ≡ k)
    (owned : (c : ℕ) → Printable c → (owner c < bogatirs_num) × (symbol my_id owner (owner c) ≡ c))
    (string : List ℕ) where
  -- While the leader is at work, and afterwards.
  abbrev Inv : Room → Type 0
  Inv s = ((t : Turn) × Playing my_id owner string t s) ⊎ Over my_id owner string s

  module _ (s : Room) (t : Turn) (p : Playing my_id owner string t s) where
    abbrev total : ℕ
    total = before my_id owner t s + after my_id owner t s + from_leader my_id owner s.main

    -- A move of the leader.
    lead-Inv :
        {g g' : Stage} {l l' : List ℕ} {sent : List (ℕ × ℕ)} {out : List ℕ}
        → s.stage (leader my_id owner) ≡ g
        → s.letters (leader my_id owner) ≡ l
        → Move (leader my_id owner) (symbol my_id owner (leader my_id owner)) g l g' l' sent out
        → Inv (moved s (leader my_id owner) g' l' sent out)
    lead-Inv st le (puts_own c pos l e) =
        subst
          (λ l. Inv (
            moved s (leader my_id owner) (leading pos) l []
              (symbol my_id owner (leader my_id owner) ∷ [])))
          le
          (inl (
            record t { rest = pos ++ (10 ∷ []) },
            puts_own-Playing my_id owner ids owned string t s p c pos st e,
          ))
    lead-Inv st le (commands c pos l ne) =
        subst
          (λ l.
            Inv (
              moved s (leader my_id owner) (awaiting (c ∷ pos)) l ((leader my_id owner, c) ∷ [])
                []))
          le
          (inl (
            record { byte = c; put = false; rest = pos ++ (10 ∷ []) },
            commands-Playing my_id owner ids owned string t s p c pos st ne,
          ))
    lead-Inv st le (hears_answer c v pos l) =
        inl (t, hears_answer-Playing my_id owner ids owned string t s p c v pos l st le)
    lead-Inv st le (ends_line l) =
        subst (λ l. Inv (moved s (leader my_id owner) closing l [] (10 ∷ []))) le
          (inl (record t { rest = [] }, ends_line-Playing my_id owner ids owned string t s p st))
    lead-Inv st le (closes l) =
        subst (λ l. Inv (moved s (leader my_id owner) finished l ((leader my_id owner, 0) ∷ []) []))
          le (inr (closes-Over my_id owner ids owned string s t p st))
    lead-Inv st le (fails g l may) =
        subst (λ l. Inv (moved s (leader my_id owner) failed l [] [])) le
          (inl (t, fails-Playing my_id owner ids owned string t s p))
    lead-Inv st le (hears_end v l e) = absurd (subst (LeaderIs my_id owner t total) st p.lead)
    lead-Inv st le (ignores v l nz ne) = absurd (subst (LeaderIs my_id owner t total) st p.lead)
    lead-Inv st le (obeys v l nz e) = absurd (subst (LeaderIs my_id owner t total) st p.lead)
    lead-Inv st le (puts l) = absurd (subst (LeaderIs my_id owner t total) st p.lead)
    lead-Inv st le (answers l) = absurd (subst (LeaderIs my_id owner t total) st p.lead)

    -- A move of another.
    follow-Inv :
        (k : ℕ) {g g' : Stage} {l l' : List ℕ} {sent : List (ℕ × ℕ)} {out : List ℕ}
        → k < bogatirs_num
        → k ≢ leader my_id owner
        → s.stage k ≡ g
        → s.letters k ≡ l
        → Move k (symbol my_id owner k) g l g' l' sent out
        → Inv (moved s k g' l' sent out)
    follow-Inv k lt nl st le (puts_own c pos l e) = absurd (ground (arith, p.follow k lt nl))
    follow-Inv k lt nl st le (commands c pos l ne) = absurd (ground (arith, p.follow k lt nl))
    follow-Inv k lt nl st le (hears_answer c v pos l) = absurd (ground (arith, p.follow k lt nl))
    follow-Inv k lt nl st le (ends_line l) = absurd (ground (arith, p.follow k lt nl))
    follow-Inv k lt nl st le (closes l) = absurd (ground (arith, p.follow k lt nl))
    follow-Inv k lt nl st le (hears_end v l e) = inl (
      t,
      rests-Playing my_id owner ids owned string t s k lt p finished l nl refl refl (ground arith),
    )
    follow-Inv k lt nl st le (ignores v l nz ne) = inl (
      t,
      rests-Playing my_id owner ids owned string t s k lt p listening l nl refl refl (ground arith),
    )
    follow-Inv k lt nl st le (obeys v l nz e) =
        inl (
          t,
          obeys-Playing my_id owner ids owned string t s k lt p l nl st (le ∙ ap (λ w. w ∷ l) e),
        )
    follow-Inv k lt nl st le (puts l) =
        subst (λ l. Inv (moved s k answering l [] (symbol my_id owner k ∷ []))) le
          (inl
            (record t { put = true }, puts-Playing my_id owner ids owned string t s k lt p nl st))
    follow-Inv k lt nl st le (answers l) =
        subst (λ l. Inv (moved s k listening l ((k, symbol my_id owner k) ∷ []) [])) le
          (inl (t, answers-Playing my_id owner ids owned string t s k lt p nl st))
    follow-Inv k lt nl st le (fails g l may) = inl (
      t,
      rests-Playing my_id owner ids owned string t s k lt p failed l nl refl refl (ground arith),
    )

  -- A step of main.
  main-Inv :
      (s : Room) {main main' : Main} {mail mail' : List (ℕ × ℕ)} {f f' : ℕ → List ℕ}
      → MainMove main mail f main' mail' f'
      → Inv (told s main mail f)
      → Inv (told s main' mail' f')
  main-Inv s (receives from v m f) (inl (t, p)) = inl (
    t,
    receives-Playing my_id owner ids owned string t (told s receiving ((from, v) ∷ m) f) p from v m
        refl refl,
  )
  main-Inv s (receives from v m f) (inr o) = inr (
      tells-Over my_id owner ids owned string (told s receiving ((from, v) ∷ m) f) o
        (sending from v 0) m o.mail.1 (inl o.mail.0))
  main-Inv s (receive_fails m f) (inl (t, p)) = inl (
    t,
    Broadcast.rests-Playing my_id owner ids owned string t (told s receiving m f) p over refl refl
        refl tt,
  )
  main-Inv s (receive_fails m f) (inr o) =
      inr (tells-Over my_id owner ids owned string (told s receiving m f) o over m o.mail tt)
  main-Inv s (skips from v i m f lt e) (inl (t, p)) = inl (
    t,
    passes-Playing my_id owner ids owned string t (told s (sending from v i) m f) p from v i refl,
  )
  main-Inv s (skips from v i m f lt e) (inr o) = inr (
      tells-Over my_id owner ids owned string (told s (sending from v i) m f) o
        (sending from v (i + 1)) m o.mail o.broadcast)
  main-Inv s (sends from v i m f lt ne) (inl (t, p)) = inl (
    t,
    sends-Playing my_id owner ids owned string t (told s (sending from v i) m f) p from v i lt ne
        refl,
  )
  main-Inv s (sends from v i m f lt ne) (inr o) =
      inr
        (sends-Over my_id owner ids owned string (told s (sending from v i) m f) o from v i ne refl)
  main-Inv s (loses from v i m f lt ne) (inl (t, p)) = inl (
    t,
    passes-Playing my_id owner ids owned string t (told s (sending from v i) m f) p from v i refl,
  )
  main-Inv s (loses from v i m f lt ne) (inr o) = inr (
      tells-Over my_id owner ids owned string (told s (sending from v i) m f) o
        (sending from v (i + 1)) m o.mail o.broadcast)
  main-Inv s (goes_on from v i m f ge nz) (inl (t, p)) = inl (
    t,
    Broadcast.rests-Playing my_id owner ids owned string t (told s (sending from v i) m f) p
        receiving refl refl refl tt,
  )
  main-Inv s (goes_on from v i m f ge nz) (inr o) = inr (
      tells-Over my_id owner ids owned string (told s (sending from v i) m f) o receiving m o.mail
        tt)
  main-Inv s (breaks from v i m f ge z) (inl (t, p)) = inl (
    t,
    Broadcast.rests-Playing my_id owner ids owned string t (told s (sending from v i) m f) p over
        refl refl refl tt,
  )
  main-Inv s (breaks from v i m f ge z) (inr o) =
      inr
        (tells-Over my_id owner ids owned string (told s (sending from v i) m f) o over m o.mail tt)

  Step-Inv : {s s' : Room} → Step my_id string s s' → Inv s → Inv s'
  Step-Inv {s} (bogatir_moves k {g} {l} {sent} {out} lt mv) (inl (t, p)) =
      elim (ℕ_discrete k (leader my_id owner)) [
        | yes e ↦
            subst
              (λ k.
                Move k (symbol my_id owner k) (s.stage k) (s.letters k) g l sent out
                → Inv (moved s k g l sent out))
              (sym e) (λ mv'. lead-Inv s t p refl refl mv') mv
        | no ne ↦ follow-Inv s t p k lt ne refl refl mv
      ]
  Step-Inv {s} (bogatir_moves k lt mv) (inr o) =
      inr (Move-Over my_id owner ids owned string s o k lt refl refl mv)
  Step-Inv {s} (main_moves mv) inv = main-Inv s mv inv

  start-Inv : All Printable string → Inv (start my_id string)
  start-Inv clean =
      let first = owned 32 (omega arith) in
      let second = owned 33 (omega arith) in
      let here : leading string ≡ (start my_id string).stage (leader my_id owner) = ground arith in
      let t : Turn = record { byte = 33; put = true; rest = string ++ (10 ∷ []) } in
      let none_out : before my_id owner t (start my_id string)
            + after my_id owner t (start my_id string)
            + from_leader my_id owner receiving
          ≡ 0 =
        ground arith in
      inl (
        t,
        record {
          byte_lem = (omega arith, omega arith);
          quiet = λ k lt kl ko. ground (arith);
          before_le = omega (arith, none_out);
          after_le = omega (arith, none_out);
          text = refl;
          lead =
              subst
                (LeaderIs my_id owner t (
                  before my_id owner t (start my_id string)
                  + after my_id owner t (start my_id string)
                  + from_leader my_id owner receiving))
                here (refl, refl, none_out, clean);
          follow = λ k lt kl. ground (arith, ids k lt);
          mail = tt;
          broadcast = tt;
        },
      )

  Reach-Inv : {s : Room} → All Printable string → Reach my_id string s → Inv s
  Reach-Inv clean here = start-Inv clean
  Reach-Inv clean (later r st) = Step-Inv st (Reach-Inv clean r)

  -- At all times, whichever processes move, whatever calls fail and whatever messages are lost: as
  -- long as the leader has not finished, what has been printed is a front part of the string and the
  -- end of the line; and when he has, it is all of that and nothing else. The ranks are different and
  -- give every printable character an owner, and the string consists of such characters.
  pub printed-IsFront :
      (s : Room)
      → All Printable string
      → Reach my_id string s
      → ((s.stage (owner first_symbol) ≢ finished)
          × ((rest : List ℕ) × (s.printed ++ rest ≡ string ++ (10 ∷ []))))
        ⊎ ((s.stage (owner first_symbol) ≡ finished) × (s.printed ≡ string ++ (10 ∷ [])))
  printed-IsFront s clean r = elim (Reach-Inv clean r) [
    | inl (t, p) ↦ inl (
      (λ done.
          subst
            (LeaderIs my_id owner t
              (before my_id owner t s + after my_id owner t s + from_leader my_id owner s.main))
            done p.lead),
      (if t.put then t.rest else t.byte ∷ t.rest, p.text),
    )
    | inr o ↦ inr (o.lead, o.text)
  ]
