-- ===== src/Bogatirya/Followers.antt =====
-- What the moves of those who are not the leader do to the turn.
use mathlib.Core.Path.{subst}
use seminars.Base.{
  ℕ, ◌+◌, ◌<◌, ◌≤◌, ◌≡◌, ◌≢◌, inr, refl, sym, ◌∙◌, true, false, List, [], ◌∷◌, ◌++◌, All,
  append-nil, append_assoc, ◌==◌, if◌then◌else◌, update, arith, ℕ_discrete,
}
use seminars.Bogatirya.{bogatirs_num}
use seminars.Bogatirya.Printing.{
  Stage, leading, awaiting, closing, listening, owning, answering, finished, failed, Room,
}
use seminars.Bogatirya.Turns.{
  own, is_owning, is_answering, is_follower, Printable, commands_in, answers_in, Turn, symbol,
  leader, before, after, LeaderIs, from_leader, MailIs, Playing,
}

-- The room after a move.
abbrev pub moved : Room → ℕ → Stage → List ℕ → List (ℕ × ℕ) → List ℕ → Room
moved s k g l sent out = record s {
  stage = update s.stage k g;
  letters = update s.letters k l;
  to_main = s.to_main ++ sent;
  printed = s.printed ++ out;
}

pub commands_in-append :
    (leader : ℕ) (mail : List (ℕ × ℕ)) (m : ℕ × ℕ)
    → commands_in leader (mail ++ (m ∷ []))
      ≡ commands_in leader mail + (if m.0 == leader then 1 else 0)
commands_in-append leader [] m = omega arith
commands_in-append leader (x ∷ mail) m = omega (arith, commands_in-append leader mail m)

pub answers_in-append :
    (leader : ℕ) (mail : List (ℕ × ℕ)) (m : ℕ × ℕ)
    → answers_in leader (mail ++ (m ∷ []))
      ≡ answers_in leader mail + (if m.0 == leader then 0 else 1)
answers_in-append leader [] m = omega arith
answers_in-append leader (x ∷ mail) m = omega (arith, answers_in-append leader mail m)

pub All-append_one :
    (P : ℕ × ℕ → Type 0) (mail : List (ℕ × ℕ)) (m : ℕ × ℕ)
    → All P mail
    → P m
    → All P (mail ++ (m ∷ []))
All-append_one P [] m h one = (one, tt)
All-append_one P (x ∷ mail) m (h, hs) one = (h, All-append_one P mail m hs one)

module _ (my_id owner : ℕ → ℕ) (ids : (k : ℕ) → k < bogatirs_num → owner (symbol my_id owner k) ≡ k)
    (owned : (c : ℕ)
      → Printable c
      → (owner c < bogatirs_num) × (symbol my_id owner (owner c) ≡ c)) where
  pub owner_facts :
      (c : ℕ)
      → Printable c
      → c ≢ 32
      → (owner c < bogatirs_num)
        × (symbol my_id owner (owner c) ≡ c)
        × (leader my_id owner < bogatirs_num)
        × (symbol my_id owner (leader my_id owner) ≡ 32)
        × (owner c ≢ leader my_id owner)
  owner_facts c p ne = ground (arith, owned c p, owned 32 (omega arith))

  -- While the turn is under way the leader is not at the head of his loop.
  pub LeaderIs-busy :
      (t u : Turn) (n m : ℕ) (g : Stage)
      → 0 < n
      → u.rest ≡ t.rest
      → LeaderIs my_id owner t n g
      → LeaderIs my_id owner u m g
  LeaderIs-busy t u n m (leading pos) some_turn e (put, rest, zero_n, clean) = absurd (omega arith)
  LeaderIs-busy t u n m (awaiting []) some_turn e h = h
  LeaderIs-busy t u n m (awaiting (c ∷ pos)) some_turn e (rest, clean) = (e ∙ rest, clean)
  LeaderIs-busy t u n m closing some_turn e (put, rest, zero_n) = absurd (omega arith)
  LeaderIs-busy t u n m failed some_turn e h = h
  LeaderIs-busy t u n m listening some_turn e h = h
  LeaderIs-busy t u n m owning some_turn e h = h
  LeaderIs-busy t u n m answering some_turn e h = h
  LeaderIs-busy t u n m finished some_turn e h = h

  pub LeaderIs-le :
      (t : Turn) (n m : ℕ) (g : Stage)
      → m ≤ n
      → LeaderIs my_id owner t n g
      → LeaderIs my_id owner t m g
  LeaderIs-le t n m (leading pos) le (put, rest, zero_n, clean) = (put, rest, omega arith, clean)
  LeaderIs-le t n m (awaiting []) le h = h
  LeaderIs-le t n m (awaiting (c ∷ pos)) le h = h
  LeaderIs-le t n m closing le (put, rest, zero_n) = (put, rest, omega arith)
  LeaderIs-le t n m failed le h = h
  LeaderIs-le t n m listening le h = h
  LeaderIs-le t n m owning le h = h
  LeaderIs-le t n m answering le h = h
  LeaderIs-le t n m finished le h = h

  module _ (string : List ℕ) (t : Turn) (s : Room) (k : ℕ) (lt : k < bogatirs_num)
      (p : Playing my_id owner string t s) where
    facts :
        (owner t.byte < bogatirs_num)
        × (symbol my_id owner (owner t.byte) ≡ t.byte)
        × (leader my_id owner < bogatirs_num)
        × (symbol my_id owner (leader my_id owner) ≡ 32)
        × (owner t.byte ≢ leader my_id owner)
    facts = owner_facts t.byte p.byte_lem.0 p.byte_lem.1

    -- A process that neither prints nor has printed, and has no more letters of its own than before.
    pub rests-Playing :
        (g : Stage) (l : List ℕ)
        → k ≢ leader my_id owner
        → is_follower g ≡ true
        → is_owning g + is_answering g ≡ 0
        → own (symbol my_id owner k) l ≤ own (symbol my_id owner k) (s.letters k)
        → Playing my_id owner string t (moved s k g l [] [])
    rests-Playing g l nl fol calm less =
        let same : s.stage (leader my_id owner) ≡ update s.stage k g (leader my_id owner) =
          ground arith in
        let fewer : before my_id owner t (moved s k g l [] [])
              + after my_id owner t (moved s k g l [] [])
              + from_leader my_id owner s.main
            ≤ before my_id owner t s + after my_id owner t s + from_leader my_id owner s.main =
          ground (arith, facts, append-nil s.to_main) in
        record {
          byte_lem = p.byte_lem;
          quiet = λ x xlt xl xo. ground (arith, p.quiet x xlt xl xo);
          before_le = ground (arith, p.before_le, facts, append-nil s.to_main);
          after_le = ground (arith, p.after_le, append-nil s.to_main);
          text = ground (arith, p.text, append-nil s.printed);
          lead =
              subst (LeaderIs my_id owner t _) same
                (LeaderIs-le t _ _ (s.stage (leader my_id owner)) fewer p.lead);
          follow = λ x xlt xl. ground (arith, p.follow x xlt xl);
          mail = ground (arith, p.mail, append-nil s.to_main);
          broadcast = ground (arith, p.broadcast);
        }

    -- A letter of its own makes a process the one whose turn it is, and the turn is before the byte.
    pub obeys-Playing :
        (l : List ℕ)
        → k ≢ leader my_id owner
        → s.stage k ≡ listening
        → s.letters k ≡ symbol my_id owner k ∷ l
        → Playing my_id owner string t (moved s k owning l [] [])
    obeys-Playing l nl st le =
        let mine : k ≡ owner t.byte = elim (ℕ_discrete k (owner t.byte)) [
          | yes e ↦ e
          | no ne ↦ absurd (ground (arith, p.quiet k lt nl ne))
        ] in
        let next = moved s k owning l [] [] in
        let same : s.stage (leader my_id owner) ≡ update s.stage k owning (leader my_id owner) =
          ground arith in
        let kept : before my_id owner t next ≡ before my_id owner t s =
          ground (arith, facts, append-nil s.to_main) in
        let kept' : after my_id owner t next ≡ after my_id owner t s =
          ground (arith, facts, append-nil s.to_main) in
        record {
          byte_lem = p.byte_lem;
          quiet = λ x xlt xl xo. ground (arith, p.quiet x xlt xl xo);
          before_le = omega (arith, p.before_le, kept);
          after_le = omega (arith, p.after_le, kept');
          text = ground (arith, p.text, append-nil s.printed);
          lead = subst (LeaderIs my_id owner t _) same (
              LeaderIs-le t _ _ (s.stage (leader my_id owner)) (omega (arith, kept, kept')) p.lead);
          follow = λ x xlt xl. ground (arith, p.follow x xlt xl);
          mail = ground (arith, p.mail, append-nil s.to_main);
          broadcast = ground (arith, p.broadcast);
        }

    -- The byte whose turn it is is printed.
    pub puts-Playing :
        k ≢ leader my_id owner
        → s.stage k ≡ owning
        → Playing my_id owner string
            (record t { put = true })
            (moved s k answering (s.letters k) [] (symbol my_id owner k ∷ []))
    puts-Playing nl st =
        let mine : k ≡ owner t.byte = elim (ℕ_discrete k (owner t.byte)) [
          | yes e ↦ e
          | no ne ↦ absurd (ground (arith, p.quiet k lt nl ne))
        ] in
        let u = record t { put = true } in
        let next = moved s k answering (s.letters k) [] (symbol my_id owner k ∷ []) in
        let same : s.stage (leader my_id owner) ≡ update s.stage k answering (leader my_id owner) =
          ground arith in
        let fewer : before my_id owner u next + 1 ≡ before my_id owner t s =
          ground (arith, facts, append-nil s.to_main) in
        let more : after my_id owner u next ≡ after my_id owner t s + 1 =
          ground (arith, facts, append-nil s.to_main) in
        let unput : t.put ≡ false = ground (arith, p.before_le, fewer) in
        record {
          byte_lem = p.byte_lem;
          quiet = λ x xlt xl xo. ground (arith, p.quiet x xlt xl xo);
          before_le = ground (arith, p.before_le, fewer);
          after_le = ground (arith, p.after_le, more);
          text =
              ground
                (arith, p.text, facts, append_assoc s.printed (symbol my_id owner k ∷ []) t.rest);
          lead = subst (LeaderIs my_id owner u _) same (
              LeaderIs-busy t u _ _ (s.stage (leader my_id owner)) (omega (arith, fewer)) refl
                p.lead);
          follow = λ x xlt xl. ground (arith, p.follow x xlt xl);
          mail = subst (All (MailIs my_id owner t)) (sym (append-nil s.to_main)) p.mail;
          broadcast = ground (arith, p.broadcast);
        }

    -- The owner tells main.
    pub answers-Playing :
        k ≢ leader my_id owner
        → s.stage k ≡ answering
        → Playing my_id owner string t
            (moved s k listening (s.letters k) ((k, symbol my_id owner k) ∷ []) [])
    answers-Playing nl st =
        let mine : k ≡ owner t.byte = elim (ℕ_discrete k (owner t.byte)) [
          | yes e ↦ e
          | no ne ↦ absurd (ground (arith, p.quiet k lt nl ne))
        ] in
        let m : ℕ × ℕ = (k, symbol my_id owner k) in
        let next = moved s k listening (s.letters k) (m ∷ []) [] in
        let same : s.stage (leader my_id owner) ≡ update s.stage k listening (leader my_id owner) =
          ground arith in
        let kept : before my_id owner t next ≡ before my_id owner t s =
          ground (arith, facts, commands_in-append (leader my_id owner) s.to_main m) in
        let kept' : after my_id owner t next ≡ after my_id owner t s =
          ground (arith, facts, answers_in-append (leader my_id owner) s.to_main m) in
        record {
          byte_lem = p.byte_lem;
          quiet = λ x xlt xl xo. ground (arith, p.quiet x xlt xl xo);
          before_le = omega (arith, p.before_le, kept);
          after_le = omega (arith, p.after_le, kept');
          text = ground (arith, p.text, append-nil s.printed);
          lead = subst (LeaderIs my_id owner t _) same (
              LeaderIs-le t _ _ (s.stage (leader my_id owner)) (omega (arith, kept, kept')) p.lead);
          follow = λ x xlt xl. ground (arith, p.follow x xlt xl);
          mail =
              All-append_one (MailIs my_id owner t) s.to_main m p.mail
                (inr mine, ground (arith, facts));
          broadcast = ground (arith, p.broadcast);
        }
