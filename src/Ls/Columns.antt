-- ===== src/Ls/Columns.antt =====
-- The lines of a long listing: their columns and the time in them.
use seminars.Base.{
  ◌<◌, ◌^◌, ◌%◌, lt→ltb, Bool-cases, inl, inr, ℕ, zero, suc, ◌+◌, ◌-◌, ◌≤◌, ◌≡◌, ◌≢◌, refl, Bool,
  true, false, some, List, [], ◌∷◌, ◌++◌, All, length, length-append, length-replicate, replicate,
  ltb, if◌then◌else◌, arith, to_string,
}
use seminars.Ls.{Ent, Mode}
use seminars.Ls.Limits.{
  Limits, no_limits, Tm, sym_of, count_digits, is_hidden, get_limits, Fits, get_limits-FitsIfShown,
}
use seminars.Ls.Print.{int_text, pad, columns, month_name, day_text, time_text, place_time}

length-pad : (width : ℕ) (text : List ℕ) → length text ≤ width → length (pad width text) ≡ width
unfolding pad
length-pad width text h = omega (
  arith,
  length-append (replicate (width - length text) 32) text,
  length-replicate {A = ℕ} (width - length text) 32,
)

-- The width of the columns that the limits ask for.
abbrev pub width_of : Limits → ℕ
width_of l = l.max_sym_nlink + l.max_sym_uname + l.max_sym_gname + l.max_sym_size + 5

length-pad-next :
    (width : ℕ) (text rest : List ℕ)
    → length text ≤ width
    → length (pad width text ++ (32 ∷ rest)) ≡ width + 1 + length rest
length-pad-next width text rest h =
    omega (arith, length-append (pad width text) (32 ∷ rest), length-pad width text h)

-- A number that an int holds is printed in full.
int_text-to_string : (n : ℕ) → n < 2 ^ 31 → int_text n ≡ to_string n
unfolding int_text
int_text-to_string n h =
    let low : n % 2 ^ 32 ≡ n = omega arith in rw (low, lt→ltb n (2 ^ 31) h) refl

-- The numbers of an entry that an int holds.
abbrev pub HasInts : Ent → Type 0
HasInts ent = (ent.st.nlink < 2 ^ 31) × (ent.st.size < 2 ^ 31)

columns-width :
    (localtime : ℕ → Tm) (limits : Limits) (ent : Ent)
    → HasInts ent
    → Fits localtime limits ent
    → length (columns limits ent) ≡ width_of limits
unfolding columns
columns-width localtime limits ent (small_nlink, small_size) f =
    let nlink : length (int_text ent.st.nlink) ≤ limits.max_sym_nlink =
      rw (int_text-to_string ent.st.nlink small_nlink) f.nlink in
    let size : length (int_text ent.st.size) ≤ limits.max_sym_size =
      rw (int_text-to_string ent.st.size small_size) f.size in
    omega (
      arith,
      length-pad-next limits.max_sym_nlink (int_text ent.st.nlink) _ nlink,
      length-pad-next limits.max_sym_uname ent.user_name _ f.uname,
      length-pad-next limits.max_sym_gname ent.group_name _ f.gname,
      length-pad-next limits.max_sym_size (int_text ent.st.size) [] size,
    )

-- The name of a month has three letters.
record Month (name : List ℕ) : Type 0 where
  a : ℕ
  b : ℕ
  c : ℕ
  letters : name ≡ a ∷ b ∷ c ∷ []
  some_a : a ≢ 0
  some_b : b ≢ 0
  some_c : c ≢ 0

if-Month : {x y : List ℕ} (t : Bool) → Month x → Month y → Month (if t then x else y)
if-Month true m n = m
if-Month false m n = n

of_codes : (a b c : ℕ) → (a ≢ 0) × (b ≢ 0) × (c ≢ 0) → Month (a ∷ b ∷ c ∷ [])
of_codes a b c h = record {
  a = a;
  b = b;
  c = c;
  letters = refl;
  some_a = h.0;
  some_b = h.1;
  some_c = h.2;
}

month_name-Month : (mon : ℕ) → Month (month_name mon)
unfolding month_name
month_name-Month mon = if-Month _ (of_codes b'J' b'a' b'n' (omega arith)) (
    if-Month _ (of_codes b'F' b'e' b'b' (omega arith)) (
      if-Month _ (of_codes b'M' b'a' b'r' (omega arith)) (
        if-Month _ (of_codes b'A' b'p' b'r' (omega arith)) (
          if-Month _ (of_codes b'M' b'a' b'y' (omega arith)) (
            if-Month _ (of_codes b'J' b'u' b'n' (omega arith)) (
              if-Month _ (of_codes b'J' b'u' b'l' (omega arith)) (
                if-Month _ (of_codes b'A' b'u' b'g' (omega arith)) (
                  if-Month _ (of_codes b'S' b'e' b'p' (omega arith)) (
                    if-Month _ (of_codes b'O' b'c' b't' (omega arith)) (
                      if-Month _ (of_codes b'N' b'o' b'v' (omega arith))
                        (of_codes b'D' b'e' b'c' (omega arith))))))))))))

place_time-gap :
    (a b c : ℕ) (tm : Tm) (stack : List ℕ)
    → a ≢ 0
    → b ≢ 0
    → c ≢ 0
    → place_time (a ∷ b ∷ c ∷ 32 ∷ []) 1 tm stack
      ≡ some (a ∷ b ∷ c ∷ 32 ∷ 1 ∷ (day_text tm ++ (32 ∷ [])))
unfolding place_time
place_time-gap a b c tm stack ha hb hc = ground arith

place_time-no_gap :
    (a b c : ℕ) (tm : Tm) (stack : List ℕ)
    → a ≢ 0
    → b ≢ 0
    → c ≢ 0
    → place_time (a ∷ b ∷ c ∷ 32 ∷ []) 0 tm stack
      ≡ some (a ∷ b ∷ c ∷ 32 ∷ (day_text tm ++ (32 ∷ [])))
unfolding place_time
place_time-no_gap a b c tm stack ha hb hc = ground arith

-- The day of the month has one digit or two.
sym_of-mday : (n : ℕ) → n ≤ 31 → sym_of n ≡ (if ltb n 10 then 1 else 2)
unfolding sym_of count_digits
sym_of-mday zero h = refl
sym_of-mday (suc n) h = ground arith

-- The text that the time should be.
abbrev pub time_with : List ℕ → Tm → List ℕ
time_with gap tm = month_name tm.mon ++ (32 ∷ (gap ++ (day_text tm ++ (32 ∷ []))))

time_text-two :
    (tm : Tm) (stack : List ℕ)
    → tm.mday ≤ 31
    → time_text 2 tm stack ≡ some (time_with (if ltb tm.mday 10 then 1 ∷ [] else []) tm)
unfolding time_text
time_text-two tm stack hi =
    let m = month_name-Month tm.mon in
    let day = sym_of-mday tm.mday hi in
    rw (m.letters, day)
      (elim (Bool-cases (ltb tm.mday 10)) [
        | inl early ↦ rw early (place_time-gap m.a m.b m.c tm stack m.some_a m.some_b m.some_c)
        | inr late ↦ rw late (place_time-no_gap m.a m.b m.c tm stack m.some_a m.some_b m.some_c)
      ])

-- What a long listing prints of an entry that is shown.
pub record Printed (localtime : ℕ → Tm) (stack : List ℕ) (limits : Limits) (ent : Ent)
    : Type 0 where
  pub width : length (columns limits ent) ≡ width_of limits
  pub time :
      let tm = localtime ent.st.mtime in
      time_text limits.max_sym_day tm stack
      ≡ some (time_with (if ltb tm.mday 10 then 1 ∷ [] else []) tm)

All-map :
    {P Q R : Ent → Type 0} (ents : List Ent)
    → ((e : Ent) → P e → Q e → R e)
    → All P ents
    → All Q ents
    → All R ents
All-map [] f p q = tt
All-map (e ∷ ents) f (p, ps) (q, qs) = (f e p q, All-map ents f ps qs)

-- With the limits that get_limits finds for a long listing, for each entry that is shown: the
-- columns of links, owner, group and size take the same width as those of every other; and the time
-- is the month, a space, a byte of value 1 if the day is below 10, and the day and the hour,
-- where localtime gives days up to 31. The link counts and sizes are below 2 ^ 31: %d takes an int.
pub print_long-Printed :
    (localtime : ℕ → Tm) (stack : List ℕ) (mode : Mode) (ents : List Ent)
    → mode.flag_long ≡ true
    → ((t : ℕ) → (localtime t).mday ≤ 31)
    → All HasInts ents
    → All
        (λ ent.
          is_hidden mode ent ≡ false
          → Printed localtime stack (get_limits localtime mode ents no_limits) ent)
        ents
print_long-Printed localtime stack mode ents long days ints =
    let limits = get_limits localtime mode ents no_limits in
    All-map ents
      (λ ent small fits shown.
        let f = fits shown in
        record {
          width = columns-width localtime limits ent small f;
          time = rw f.day (time_text-two (localtime ent.st.mtime) stack (days ent.st.mtime));
        })
      ints (get_limits-FitsIfShown localtime mode ents long)
