-- ===== src/Bogatirya/Ending.antt =====
-- What holds once the leader has finished: nobody prints any more.
use mathlib.Core.Path.{subst}
use seminars.Base.{
  ℕ, ◌+◌, ◌<◌, ◌≡◌, ◌≢◌, ◌⊎◌, inl, inr, refl, sym, true, List, [], ◌∷◌, ◌++◌, All, append-nil,
  update, arith,
}
use seminars.Bogatirya.{bogatirs_num}
use seminars.Bogatirya.Printing.{
  Stage, leading, awaiting, closing, listening, owning, answering, finished, failed, Main,
  receiving, over, sending, Move, puts_own, commands, hears_answer, ends_line, closes, hears_end,
  ignores, obeys, puts, answers, fails, Room,
}
use seminars.Bogatirya.Turns.{
  own, is_owning, is_answering, is_follower, Printable, Turn, symbol, leader, before, after,
  LeaderIs, MainIs, from_leader, Playing,
}
use seminars.Bogatirya.Followers.{moved}
use seminars.Bogatirya.Leader.{no_mail, all_calm}
use seminars.Bogatirya.Broadcast.{told, own-append}

module _ (my_id owner : ℕ → ℕ) where
  -- Main hands out the end, or an answer.
  abbrev pub LastMain : Main → Type 0
  LastMain (sending from v i) = (v ≡ 0) ⊎ ((from < bogatirs_num) × (v ≡ symbol my_id owner from))
  LastMain _ = Unit

  pub record Over (string : List ℕ) (s : Room) : Type 0 where
    pub text : s.printed ≡ string ++ (10 ∷ [])
    pub calm :
        (k : ℕ)
        → k < bogatirs_num
        → k ≢ leader my_id owner
        → own (symbol my_id owner k) (s.letters k)
            + is_owning (s.stage k)
            + is_answering (s.stage k)
          ≡ 0
    pub lead : s.stage (leader my_id owner) ≡ finished
    pub follow :
        (k : ℕ) → k < bogatirs_num → k ≢ leader my_id owner → is_follower (s.stage k) ≡ true
    pub mail : All (λ m. m.1 ≡ 0) s.to_main
    pub broadcast : LastMain s.main

  last_main :
      (t : Turn) (l : List ℕ) (main : Main)
      → from_leader my_id owner main ≡ 0
      → MainIs my_id owner t l main
      → LastMain main
  last_main t l receiving e h = tt
  last_main t l over e h = tt
  last_main t l (sending from v i) e (inl (mine, byte, alone)) = absurd (ground arith)
  last_main t l (sending from v i) e (inr (his, fits, answer)) = inr (fits, answer)

  module _ (ids : (k : ℕ) → k < bogatirs_num → owner (symbol my_id owner k) ≡ k)
      (owned : (c : ℕ)
        → Printable c
        → (owner c < bogatirs_num) × (symbol my_id owner (owner c) ≡ c))
      (string : List ℕ) (s : Room) where
    -- The leader's last message.
    pub closes-Over :
        (t : Turn)
        → Playing my_id owner string t s
        → s.stage (leader my_id owner) ≡ closing
        → Over string (
            moved s
              (leader my_id owner)
              finished
              (s.letters (leader my_id owner))
              ((leader my_id owner, 0) ∷ [])
              [])
    closes-Over t p st =
        let (put, rest, nothing) =
          subst
            (LeaderIs my_id owner t
              (before my_id owner t s + after my_id owner t s + from_leader my_id owner s.main))
            st p.lead in
        let calm = all_calm my_id owner ids owned string t s p (omega (arith, nothing)) in
        let empty = no_mail (leader my_id owner) s.to_main (omega (arith, nothing)) in
        record {
          text = ground (arith, p.text, append-nil s.printed);
          calm = λ x xlt xl. ground (arith, calm x xlt xl);
          lead = ground arith;
          follow = λ x xlt xl. ground (arith, p.follow x xlt xl);
          mail =
              subst (λ mail. All (λ m. m.1 ≡ 0) (mail ++ ((leader my_id owner, 0) ∷ [])))
                (sym empty) (refl, tt);
          broadcast =
              last_main t (s.letters (leader my_id owner)) s.main (omega (arith, nothing))
                p.broadcast;
        }

    module _ (o : Over string s) where
      rests-Over :
          (k : ℕ) (g : Stage) (l : List ℕ)
          → k < bogatirs_num
          → k ≢ leader my_id owner
          → is_follower g ≡ true
          → own (symbol my_id owner k) l + is_owning g + is_answering g ≡ 0
          → Over string (moved s k g l [] [])
      rests-Over k g l lt nl fol nothing = record {
        text = ground (arith, o.text, append-nil s.printed);
        calm = λ x xlt xl. ground (arith, o.calm x xlt xl);
        lead = ground (arith, o.lead);
        follow = λ x xlt xl. ground (arith, o.follow x xlt xl);
        mail = subst (All (λ m. m.1 ≡ 0)) (sym (append-nil s.to_main)) o.mail;
        broadcast = o.broadcast;
      }

      not_leader : (k : ℕ) (g : Stage) → s.stage k ≡ g → g ≢ finished → k ≢ leader my_id owner
      not_leader k g st ne = ground (arith, o.lead)

      follower :
          (k : ℕ) (g : Stage)
          → k < bogatirs_num
          → s.stage k ≡ g
          → g ≢ finished
          → is_follower g ≡ true
      follower k g lt st ne = ground (arith, o.follow k lt (not_leader k g st ne))

      -- Whoever moves, nobody prints.
      pub Move-Over :
          (k : ℕ) {g g' : Stage} {l l' : List ℕ} {sent : List (ℕ × ℕ)} {out : List ℕ}
          → k < bogatirs_num
          → s.stage k ≡ g
          → s.letters k ≡ l
          → Move k (symbol my_id owner k) g l g' l' sent out
          → Over string (moved s k g' l' sent out)
      Move-Over k lt st le (puts_own c pos l e) =
          absurd (ground (arith, follower k (leading (c ∷ pos)) lt st (cc)))
      Move-Over k lt st le (commands c pos l ne) =
          absurd (ground (arith, follower k (leading (c ∷ pos)) lt st (cc)))
      Move-Over k lt st le (hears_answer c v pos l) =
          absurd (ground (arith, follower k (awaiting (c ∷ pos)) lt st (cc)))
      Move-Over k lt st le (ends_line l) =
          absurd (ground (arith, follower k (leading []) lt st (cc)))
      Move-Over k lt st le (closes l) = absurd (ground (arith, follower k (closing) lt st (cc)))
      Move-Over k lt st le (hears_end v l e) =
          let nl = not_leader k listening st (cc) in
          rests-Over k finished l lt nl refl (ground (arith, o.calm k lt nl))
      Move-Over k lt st le (ignores v l nz ne) =
          let nl = not_leader k listening st (cc) in
          rests-Over k listening l lt nl refl (ground (arith, o.calm k lt nl))
      Move-Over k lt st le (obeys v l nz e) =
          absurd (ground (arith, o.calm k lt (not_leader k listening st (cc))))
      Move-Over k lt st le (puts l) =
          absurd (ground (arith, o.calm k lt (not_leader k owning st (cc))))
      Move-Over k lt st le (answers l) =
          absurd (ground (arith, o.calm k lt (not_leader k answering st (cc))))
      Move-Over k lt st le (fails g l may) =
          let ne : g ≢ finished = ground arith in
          let nl = not_leader k g st ne in
          rests-Over k failed l lt nl refl (ground (arith, o.calm k lt nl))

      pub tells-Over :
          (main : Main) (mail : List (ℕ × ℕ))
          → All (λ m. m.1 ≡ 0) mail
          → LastMain main
          → Over string (told s main mail s.letters)
      tells-Over main mail mails last = record {
        text = o.text;
        calm = o.calm;
        lead = o.lead;
        follow = o.follow;
        mail = mails;
        broadcast = last;
      }

      pub sends-Over :
          (from v i : ℕ)
          → i ≢ from
          → s.main ≡ sending from v i
          → Over string (
              told s
                (sending from v (i + 1))
                s.to_main
                (update s.letters i (s.letters i ++ (v ∷ []))))
      sends-Over from v i other at =
          let last = subst LastMain at o.broadcast in
          record {
            text = o.text;
            calm = λ x xlt xl. elim last [
              | inl ended ↦
                  ground (arith, o.calm x xlt xl, own-append (symbol my_id owner x) v (s.letters i))
              | inr (fits, answer) ↦ ground (
                arith,
                o.calm x xlt xl,
                ids from fits,
                ids x xlt,
                own-append (symbol my_id owner x) v (s.letters i),
              )
            ];
            lead = o.lead;
            follow = o.follow;
            mail = o.mail;
            broadcast = last;
          }
