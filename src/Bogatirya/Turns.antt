-- ===== src/Bogatirya/Turns.antt =====
-- Whose turn it is to print: true at the start, and kept by every step.
use seminars.Base.{
  ℕ, ◌+◌, ◌<◌, ◌≤◌, ◌≡◌, ◌≢◌, ◌⊎◌, Bool, true, false, List, [], ◌∷◌, ◌++◌, All, length, ltb, ◌==◌,
  if◌then◌else◌,
}
use seminars.Bogatirya.{bogatirs_num, symbol_of, count_if}
use seminars.Bogatirya.Printing.{
  Stage, leading, awaiting, closing, listening, owning, answering, finished, failed, Main, sending,
  Room,
}

-- How often a value lies among letters.
abbrev pub own : ℕ → List ℕ → ℕ
own v l = count_if (λ y. y == v) l

abbrev pub is_owning : Stage → ℕ
is_owning owning = 1
is_owning _ = 0

abbrev pub is_answering : Stage → ℕ
is_answering answering = 1
is_answering _ = 0

abbrev pub is_follower : Stage → Bool
is_follower listening = true
is_follower owning = true
is_follower answering = true
is_follower finished = true
is_follower failed = true
is_follower _ = false

-- A byte that has an owner.
abbrev pub Printable : ℕ → Type 0
Printable c = (32 ≤ c) × (c ≤ 126)

-- The messages from the leader, and from the others.
abbrev pub commands_in : ℕ → List (ℕ × ℕ) → ℕ
commands_in leader [] = 0
commands_in leader (m ∷ mail) = (if m.0 == leader then 1 else 0) + commands_in leader mail

abbrev pub answers_in : ℕ → List (ℕ × ℕ) → ℕ
answers_in leader [] = 0
answers_in leader (m ∷ mail) = (if m.0 == leader then 0 else 1) + answers_in leader mail

-- Whether the broadcast has still to reach the owner with a command, or the leader with an answer.
abbrev pub command_due : ℕ → ℕ → Main → ℕ
command_due leader j (sending from v i) = if from == leader then (if ltb j i then 0 else 1) else 0
command_due leader j _ = 0

abbrev pub answer_due : ℕ → Main → ℕ
answer_due leader (sending from v i) = if from == leader then 0 else (if ltb leader i then 0 else 1)
answer_due leader _ = 0

-- The byte whose turn it is, whether it has been printed, and what is to be printed after it.
pub record Turn : Type 0 where
  pub byte : ℕ
  pub put : Bool
  pub rest : List ℕ

-- The ranks, and the process that has each symbol.
module _ (my_id owner : ℕ → ℕ) where
  abbrev pub symbol : ℕ → ℕ
  symbol k = symbol_of (my_id k)

  abbrev pub leader : ℕ
  leader = owner 32

  -- Where the turn is, before the byte is printed and after.
  abbrev pub before : Turn → Room → ℕ
  before t s =
      commands_in leader s.to_main
      + command_due leader (owner t.byte) s.main
      + own t.byte (s.letters (owner t.byte))
      + is_owning (s.stage (owner t.byte))

  abbrev pub after : Turn → Room → ℕ
  after t s =
      is_answering (s.stage (owner t.byte))
      + answers_in leader s.to_main
      + answer_due leader s.main
      + length (s.letters leader)

  -- The leader's place, with all of the turn's whereabouts.
  abbrev pub LeaderIs : Turn → ℕ → Stage → Type 0
  LeaderIs t n (leading pos) =
      (t.put ≡ true) × (t.rest ≡ pos ++ (10 ∷ [])) × (n ≡ 0) × All Printable pos
  LeaderIs t n (awaiting []) = ⊥
  LeaderIs t n (awaiting (c ∷ pos)) = (t.rest ≡ pos ++ (10 ∷ [])) × All Printable pos
  LeaderIs t n closing = (t.put ≡ true) × (t.rest ≡ []) × (n ≡ 0)
  LeaderIs t n failed = Unit
  LeaderIs t n _ = ⊥

  -- What main hands out: the byte whose turn it is, from the leader, who has no letters; or the
  -- symbol of him who has answered.
  abbrev pub MainIs : Turn → List ℕ → Main → Type 0
  MainIs t l (sending from v i) =
      ((from ≡ leader) × (v ≡ t.byte) × (l ≡ []))
      ⊎ ((from ≢ leader) × (from < bogatirs_num) × (v ≡ symbol from))
  MainIs t l _ = Unit

  -- The broadcast of a command.
  abbrev pub from_leader : Main → ℕ
  from_leader (sending from v i) = if from == leader then 1 else 0
  from_leader _ = 0

  abbrev pub MailIs : Turn → ℕ × ℕ → Type 0
  MailIs t m = ((m.0 ≡ leader) ⊎ (m.0 ≡ owner t.byte)) × (m.1 ≡ t.byte)

  -- Nothing of a process but the owner's and the leader's is under way.
  abbrev pub QuietBut : Turn → Room → Type 0
  QuietBut t s =
      (k : ℕ)
      → k < bogatirs_num
      → k ≢ leader
      → k ≢ owner t.byte
      → own (symbol k) (s.letters k) + is_owning (s.stage k) + is_answering (s.stage k) ≡ 0

  pub record Playing (string : List ℕ) (t : Turn) (s : Room) : Type 0 where
    pub byte_lem : Printable t.byte × (t.byte ≢ 32)
    pub quiet : QuietBut t s
    pub before_le : before t s ≤ (if t.put then 0 else 1)
    pub after_le : after t s ≤ (if t.put then 1 else 0)
    pub text : s.printed ++ (if t.put then t.rest else t.byte ∷ t.rest) ≡ string ++ (10 ∷ [])
    pub lead : LeaderIs t (before t s + after t s + from_leader s.main) (s.stage leader)
    pub follow : (k : ℕ) → k < bogatirs_num → k ≢ leader → is_follower (s.stage k) ≡ true
    pub mail : All (MailIs t) s.to_main
    pub broadcast : MainIs t (s.letters leader) s.main
