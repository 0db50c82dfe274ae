-- ===== src/Bogatirya/Broadcast.antt =====
-- What the broadcast of main does to the turn.
use mathlib.Core.Path.{subst}
use seminars.Base.{
  ℕ, ◌+◌, ◌<◌, ◌≤◌, ◌≡◌, ◌≢◌, ◌⊎◌, inl, inr, refl, List, [], ◌∷◌, ◌++◌, All, length, length-append,
  ◌==◌, if◌then◌else◌, update, arith, ℕ_discrete,
}
use seminars.Bogatirya.{bogatirs_num}
use seminars.Bogatirya.Printing.{Main, receiving, sending, Room}
use seminars.Bogatirya.Turns.{
  own, Printable, command_due, answer_due, Turn, symbol, leader, before, after, MainIs, from_leader,
  MailIs, Playing,
}
use seminars.Bogatirya.Followers.{owner_facts, LeaderIs-le, LeaderIs-busy}

-- The room after a step of main.
abbrev pub told : Room → Main → List (ℕ × ℕ) → (ℕ → List ℕ) → Room
told s main to_main letters = record s { main = main; to_main = to_main; letters = letters }

pub own-append :
    (v w : ℕ) (l : List ℕ) → own v (l ++ (w ∷ [])) ≡ own v l + (if w == v then 1 else 0)
own-append v w [] = omega arith
own-append v w (x ∷ l) = omega (arith, own-append v w l)

module _ (my_id owner : ℕ → ℕ) (ids : (k : ℕ) → k < bogatirs_num → owner (symbol my_id owner k) ≡ k)
    (owned : (c : ℕ) → Printable c → (owner c < bogatirs_num) × (symbol my_id owner (owner c) ≡ c))
    (string : List ℕ) (t : Turn) (s : Room) (p : Playing my_id owner string t s) where
  facts :
      (owner t.byte < bogatirs_num)
      × (symbol my_id owner (owner t.byte) ≡ t.byte)
      × (leader my_id owner < bogatirs_num)
      × (symbol my_id owner (leader my_id owner) ≡ 32)
      × (owner t.byte ≢ leader my_id owner)
  facts = owner_facts my_id owner ids owned t.byte p.byte_lem.0 p.byte_lem.1

  abbrev total : Room → ℕ
  total r = before my_id owner t r + after my_id owner t r + from_leader my_id owner r.main

  -- Steps that hand out nothing, and after which the turn is no further than before.
  turns-Playing :
      (main : Main) (mail : List (ℕ × ℕ))
      → before my_id owner t (told s main mail s.letters) ≤ before my_id owner t s
      → after my_id owner t (told s main mail s.letters) ≤ after my_id owner t s
      → (total (told s main mail s.letters) ≤ total s) ⊎ (0 < total s)
      → All (MailIs my_id owner t) mail
      → MainIs my_id owner t (s.letters (leader my_id owner)) main
      → Playing my_id owner string t (told s main mail s.letters)
  turns-Playing main mail less less' where_is mails main_is = record {
    byte_lem = p.byte_lem;
    quiet = p.quiet;
    before_le = omega (arith, less, p.before_le);
    after_le = omega (arith, less', p.after_le);
    text = p.text;
    lead = elim where_is [
      | inl fewer ↦
          LeaderIs-le my_id owner ids owned t (total s) (total (told s main mail s.letters))
            (s.stage (leader my_id owner)) fewer p.lead
      | inr some_turn ↦
          LeaderIs-busy my_id owner ids owned t t (total s) (total (told s main mail s.letters))
            (s.stage (leader my_id owner)) some_turn refl p.lead
    ];
    follow = p.follow;
    mail = mails;
    broadcast = main_is;
  }

  nothing_in : (l : List ℕ) → length l ≡ 0 → l ≡ []
  nothing_in [] e = refl
  nothing_in (x ∷ l) e = absurd (omega arith)

  -- Main receives a message.
  pub receives-Playing :
      (from v : ℕ) (mail : List (ℕ × ℕ))
      → s.main ≡ receiving
      → s.to_main ≡ (from, v) ∷ mail
      → Playing my_id owner string t (told s (sending from v 0) mail s.letters)
  receives-Playing from v mail at got =
      let (one, mails) = subst (All (MailIs my_id owner t)) got p.mail in
      elim (ℕ_discrete from (leader my_id owner)) [
        | yes e ↦
            let alone : s.letters (leader my_id owner) ≡ [] =
              nothing_in (s.letters (leader my_id owner))
                (ground (arith, p.before_le, p.after_le)) in
            turns-Playing (sending from v 0) mail (ground (arith, facts)) (ground (arith, facts))
              (inr (ground arith)) mails (inl (e, one.1, alone))
        | no ne ↦
            turns-Playing (sending from v 0) mail (ground (arith, facts)) (ground (arith, facts))
              (inr (ground arith)) mails (inr (ne, ground (arith, facts), ground (arith, facts)))
      ]

  -- Main is done with a message, or stops.
  pub rests-Playing :
      (main : Main)
      → command_due (leader my_id owner) (owner t.byte) main ≡ 0
      → answer_due (leader my_id owner) main ≡ 0
      → from_leader my_id owner main ≡ 0
      → MainIs my_id owner t (s.letters (leader my_id owner)) main
      → Playing my_id owner string t (told s main s.to_main s.letters)
  rests-Playing main no_command no_answer nobody main_is =
      turns-Playing main s.to_main (omega arith) (omega arith) (inl (omega arith)) p.mail main_is

  -- Main passes one process over, or what it sends is lost.
  pub passes-Playing :
      (from v i : ℕ)
      → s.main ≡ sending from v i
      → Playing my_id owner string t (told s (sending from v (i + 1)) s.to_main s.letters)
  passes-Playing from v i at =
      turns-Playing (sending from v (i + 1)) s.to_main (ground arith) (ground arith)
        (inl (ground arith)) p.mail
        (subst (MainIs my_id owner t (s.letters (leader my_id owner))) at p.broadcast)

  module _ (from v i : ℕ) (lt : i < bogatirs_num) (other : i ≢ from)
      (at : s.main ≡ sending from v i) where
    abbrev handed : Room
    handed =
        told s (sending from v (i + 1)) s.to_main (update s.letters i (s.letters i ++ (v ∷ [])))

    -- The message gets to one process.
    sends_as :
        before my_id owner t handed ≤ before my_id owner t s
        → after my_id owner t handed ≤ after my_id owner t s
        → ((x : ℕ)
            → x < bogatirs_num
            → x ≢ leader my_id owner
            → x ≢ owner t.byte
            → own (symbol my_id owner x) (handed.letters x)
              ≡ own (symbol my_id owner x) (s.letters x))
        → MainIs my_id owner t (handed.letters (leader my_id owner)) (sending from v (i + 1))
        → Playing my_id owner string t handed
    sends_as less less' strange main_is = record {
      byte_lem = p.byte_lem;
      quiet = λ x xlt xl xo. omega (arith, strange x xlt xl xo, p.quiet x xlt xl xo);
      before_le = omega (arith, less, p.before_le);
      after_le = omega (arith, less', p.after_le);
      text = p.text;
      lead =
          LeaderIs-le my_id owner ids owned t (total s) (total handed)
            (s.stage (leader my_id owner)) (ground (arith, less, less')) p.lead;
      follow = p.follow;
      mail = p.mail;
      broadcast = main_is;
    }

    command-Playing :
        from ≡ leader my_id owner
        → v ≡ t.byte
        → s.letters (leader my_id owner) ≡ []
        → Playing my_id owner string t handed
    command-Playing mine byte alone =
        sends_as (ground (arith, facts, own-append t.byte v (s.letters i))) (ground (arith, facts))
          (λ x xlt xl xo.
            ground (arith, facts, ids x xlt, own-append (symbol my_id owner x) v (s.letters i)))
          (inl (mine, byte, ground (arith, facts)))

    answer-Playing :
        from ≢ leader my_id owner
        → from < bogatirs_num
        → v ≡ symbol my_id owner from
        → Playing my_id owner string t handed
    answer-Playing his fits answer =
        sends_as (ground (arith, facts, ids from fits, own-append t.byte v (s.letters i)))
          (ground (arith, facts, length-append (s.letters i) (v ∷ [])))
          (λ x xlt xl xo.
            ground
              (arith, ids x xlt, ids from fits, own-append (symbol my_id owner x) v (s.letters i)))
          (inr (his, fits, answer))

    pub sends-Playing : Playing my_id owner string t handed
    sends-Playing =
        elim (subst (MainIs my_id owner t (s.letters (leader my_id owner))) at p.broadcast) [
          | inl (mine, byte, alone) ↦ command-Playing mine byte alone
          | inr (his, fits, answer) ↦ answer-Playing his fits answer
        ]
