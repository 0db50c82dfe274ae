-- ===== src/Bogatirya/Leader.antt =====
-- What the leader's moves do to the turn.
use mathlib.Core.Path.{subst}
use seminars.Base.{
  ℕ, ◌+◌, ◌<◌, ◌≤◌, ◌≡◌, ◌≢◌, inl, inr, refl, sym, true, false, List, [], ◌∷◌, ◌++◌, All,
  append-nil, append_assoc, length, if◌then◌else◌, update, arith, ℕ_discrete,
}
use seminars.Bogatirya.{bogatirs_num}
use seminars.Bogatirya.Printing.{
  Stage, leading, awaiting, closing, failed, Main, receiving, over, sending, Room,
}
use seminars.Bogatirya.Turns.{
  own, is_owning, is_answering, Printable, commands_in, answers_in, command_due, Turn, symbol,
  leader, before, after, LeaderIs, MainIs, from_leader, MailIs, Playing,
}
use seminars.Bogatirya.Followers.{moved, owner_facts, commands_in-append, answers_in-append}

pub no_mail :
    (leader : ℕ) (mail : List (ℕ × ℕ))
    → commands_in leader mail + answers_in leader mail ≡ 0
    → mail ≡ []
no_mail leader [] e = refl
no_mail leader (m ∷ mail) e = absurd (ground arith)

-- Where the leader has a letter, main hands out no command.
heard :
    (my_id owner : ℕ → ℕ) (t : Turn) (main : Main) (v : ℕ) (l : List ℕ)
    → MainIs my_id owner t (v ∷ l) main
    → (from_leader my_id owner main ≡ 0) × MainIs my_id owner t l main
heard my_id owner t receiving v l h = (refl, tt)
heard my_id owner t over v l h = (refl, tt)
heard my_id owner t (sending from w i) v l (inl (e, byte, none)) = absurd (ground arith)
heard my_id owner t (sending from w i) v l (inr (ne, lt, own)) = (ground arith, inr (ne, lt, own))

no_command :
    (my_id owner : ℕ → ℕ) (main : Main) (j : ℕ)
    → from_leader my_id owner main ≡ 0
    → command_due (leader my_id owner) j main ≡ 0
no_command my_id owner receiving j e = refl
no_command my_id owner over j e = refl
no_command my_id owner (sending from w i) j e = ground arith

-- An answer is handed out as well in the next turn.
next_main :
    (my_id owner : ℕ → ℕ) (t u : Turn) (main : Main) (l : List ℕ)
    → from_leader my_id owner main ≡ 0
    → MainIs my_id owner t l main
    → MainIs my_id owner u l main
next_main my_id owner t u receiving l e h = tt
next_main my_id owner t u over l e h = tt
next_main my_id owner t u (sending from w i) l e (inl (e', byte, none)) = absurd (ground arith)
next_main my_id owner t u (sending from w i) l e (inr h) = inr h

module _ (my_id owner : ℕ → ℕ) (ids : (k : ℕ) → k < bogatirs_num → owner (symbol my_id owner k) ≡ k)
    (owned : (c : ℕ) → Printable c → (owner c < bogatirs_num) × (symbol my_id owner (owner c) ≡ c))
    (string : List ℕ) (t : Turn) (s : Room) (p : Playing my_id owner string t s) where
  facts :
      (owner t.byte < bogatirs_num)
      × (symbol my_id owner (owner t.byte) ≡ t.byte)
      × (leader my_id owner < bogatirs_num)
      × (symbol my_id owner (leader my_id owner) ≡ 32)
      × (owner t.byte ≢ leader my_id owner)
  facts = owner_facts my_id owner ids owned t.byte p.byte_lem.0 p.byte_lem.1

  -- The whereabouts of the turn.
  abbrev total : Turn → Room → ℕ
  total u r = before my_id owner u r + after my_id owner u r + from_leader my_id owner r.main

  -- A move that sends nothing, and leaves the turn where it is: at the leader's, or nowhere.
  stays-Playing :
      (rest : List ℕ) (g : Stage) (l out : List ℕ)
      → length l ≤ length (s.letters (leader my_id owner))
      → MainIs my_id owner t l s.main
      → (s.printed ++ out) ++ (if t.put then rest else t.byte ∷ rest) ≡ string ++ (10 ∷ [])
      → is_owning g + is_answering g ≡ 0
      → ((n : ℕ)
          → n + length (s.letters (leader my_id owner)) ≤ total t s + length l
          → LeaderIs my_id owner (record t { rest = rest }) n g)
      → Playing my_id owner string
          (record t { rest = rest })
          (moved s (leader my_id owner) g l [] out)
  stays-Playing rest g l out fewer main text calm lead =
      let next = moved s (leader my_id owner) g l [] out in
      let mine : g ≡ update s.stage (leader my_id owner) g (leader my_id owner) = ground arith in
      let letters : l ≡ update s.letters (leader my_id owner) l (leader my_id owner) =
        ground arith in
      record {
        byte_lem = p.byte_lem;
        quiet = λ x xlt xl xo. ground (arith, p.quiet x xlt xl);
        before_le = ground (arith, p.before_le, facts, append-nil s.to_main);
        after_le = ground (arith, p.after_le, facts, append-nil s.to_main);
        text = text;
        lead =
            subst
              (LeaderIs my_id owner (record t { rest = rest })
                (total (record t { rest = rest }) next))
              mine
              (lead (total (record t { rest = rest }) next)
                (ground (arith, facts, append-nil s.to_main)));
        follow = λ x xlt xl. ground (arith, p.follow x xlt xl);
        mail = subst (All (MailIs my_id owner t)) (sym (append-nil s.to_main)) p.mail;
        broadcast = subst (λ m. MainIs my_id owner t m s.main) letters main;
      }

  -- The leader prints a byte of his own.
  pub puts_own-Playing :
      (c : ℕ) (pos : List ℕ)
      → s.stage (leader my_id owner) ≡ leading (c ∷ pos)
      → c ≡ symbol my_id owner (leader my_id owner)
      → Playing my_id owner string
          (record t { rest = pos ++ (10 ∷ []) })
          (moved s
            (leader my_id owner)
            (leading pos)
            (s.letters (leader my_id owner))
            []
            (symbol my_id owner (leader my_id owner) ∷ []))
  puts_own-Playing c pos st e =
      let (put, rest, nothing, clean) = subst (LeaderIs my_id owner t (total t s)) st p.lead in
      stays-Playing (pos ++ (10 ∷ [])) (leading pos) (s.letters (leader my_id owner))
        (symbol my_id owner (leader my_id owner) ∷ []) (omega arith) p.broadcast
        (ground (arith, p.text, append_assoc s.printed (c ∷ []) (pos ++ (10 ∷ [])))) refl
        (λ n le. (put, refl, omega arith, clean.1))

  -- He prints the end of the line.
  pub ends_line-Playing :
      s.stage (leader my_id owner) ≡ leading []
      → Playing my_id owner string
          (record t { rest = [] })
          (moved s (leader my_id owner) closing (s.letters (leader my_id owner)) [] (10 ∷ []))
  ends_line-Playing st =
      let (put, rest, nothing, clean) = subst (LeaderIs my_id owner t (total t s)) st p.lead in
      stays-Playing [] closing (s.letters (leader my_id owner)) (10 ∷ []) (omega arith) p.broadcast
        (ground (arith, p.text, append-nil (s.printed ++ (10 ∷ [])))) refl
        (λ n le. (put, refl, omega arith))

  -- One of his calls fails.
  pub fails-Playing :
      Playing my_id owner string t
        (moved s (leader my_id owner) failed (s.letters (leader my_id owner)) [] [])
  fails-Playing =
      stays-Playing t.rest failed (s.letters (leader my_id owner)) [] (omega arith) p.broadcast
        (ground (arith, p.text, append-nil s.printed)) refl (λ n le. tt)

  -- He hears an answer, and goes on behind his byte.
  pub hears_answer-Playing :
      (c v : ℕ) (pos l : List ℕ)
      → s.stage (leader my_id owner) ≡ awaiting (c ∷ pos)
      → s.letters (leader my_id owner) ≡ v ∷ l
      → Playing my_id owner string t (moved s (leader my_id owner) (leading pos) l [] [])
  hears_answer-Playing c v pos l st le =
      let (rest, clean) = subst (LeaderIs my_id owner t (total t s)) st p.lead in
      let put : t.put ≡ true = ground (arith, p.after_le) in
      let (nobody, main) =
        heard my_id owner t s.main v l
          (subst (λ m. MainIs my_id owner t m s.main) le p.broadcast) in
      stays-Playing t.rest (leading pos) l [] (ground arith) main
        (ground (arith, p.text, append-nil s.printed)) refl
        (λ n few. (put, rest, ground (arith, p.before_le, p.after_le), clean))

  -- Where the turn is at the leader's, nothing of anybody else is under way.
  pub all_calm :
      before my_id owner t s + after my_id owner t s ≡ 0
      → (x : ℕ) → x < bogatirs_num
      → x ≢ leader my_id owner
      → own (symbol my_id owner x) (s.letters x) + is_owning (s.stage x) + is_answering (s.stage x)
        ≡ 0
  all_calm nothing x xlt xl = elim (ℕ_discrete x (owner t.byte)) [
    | yes e ↦ ground (arith, facts, nothing)
    | no other_one ↦ p.quiet x xlt xl other_one
  ]

  -- He asks for a byte that is not his own: the turn of its owner begins.
  pub commands-Playing :
      (c : ℕ) (pos : List ℕ)
      → s.stage (leader my_id owner) ≡ leading (c ∷ pos)
      → c ≢ symbol my_id owner (leader my_id owner)
      → Playing my_id owner string
          (record { byte = c; put = false; rest = pos ++ (10 ∷ []) })
          (moved s
            (leader my_id owner)
            (awaiting (c ∷ pos))
            (s.letters (leader my_id owner))
            ((leader my_id owner, c) ∷ [])
            [])
  commands-Playing c pos st ne =
      let (put, rest, nothing, clean) = subst (LeaderIs my_id owner t (total t s)) st p.lead in
      let u : Turn = record { byte = c; put = false; rest = pos ++ (10 ∷ []) } in
      let m : ℕ × ℕ = (leader my_id owner, c) in
      let other : c ≢ 32 = ground (arith, facts) in
      let facts' = owner_facts my_id owner ids owned c clean.0 other in
      let empty = no_mail (leader my_id owner) s.to_main (omega (arith, nothing)) in
      let next =
        moved s (leader my_id owner) (awaiting (c ∷ pos)) (s.letters (leader my_id owner)) (m ∷ [])
          [] in
      let mine : awaiting (c ∷ pos) ≡ next.stage (leader my_id owner) = ground arith in
      let letters : s.letters (leader my_id owner) ≡ next.letters (leader my_id owner) =
        ground arith in
      let nobody : from_leader my_id owner s.main ≡ 0 = omega (arith, nothing) in
      let due = no_command my_id owner s.main (owner c) nobody in
      let calm = all_calm (omega (arith, nothing)) in
      record {
        byte_lem = (clean.0, other);
        quiet = λ x xlt xl xo. ground (arith, calm x xlt xl);
        before_le = ground (
          arith,
          due,
          calm (owner c) facts'.0 facts'.4,
          commands_in-append (leader my_id owner) s.to_main m,
        );
        after_le = ground (
          arith,
          nothing,
          calm (owner c) facts'.0 facts'.4,
          answers_in-append (leader my_id owner) s.to_main m,
        );
        text = ground (arith, p.text, append-nil s.printed);
        lead = subst (LeaderIs my_id owner u (total u next)) mine (refl, clean.1);
        follow = λ x xlt xl. ground (arith, p.follow x xlt xl);
        mail =
            subst (λ mail. All (MailIs my_id owner u) (mail ++ (m ∷ []))) (sym empty)
              ((inl refl, refl), tt);
        broadcast =
            subst (λ l. MainIs my_id owner u l s.main) letters
              (next_main my_id owner t u s.main (s.letters (leader my_id owner)) nobody
                p.broadcast);
      }
