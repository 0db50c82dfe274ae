-- ===== src/Ls/Limits.antt =====
-- ls/ls.c: get_limits, which finds the widths of the columns of a long listing.
use mathlib.Core.Path.{subst}
use seminars.Base.{
  ℕ, zero, suc, ◌+◌, ◌/◌, ◌%◌, ◌<◌, ◌≤◌, ◌≡◌, refl, Bool, true, false, not, ◌&&◌, List, [], ◌∷◌,
  length, length-append, ltb, ◌==◌, if◌then◌else◌, get_or, arith, digits, to_string, All, dec_lt,
}
use seminars.Ls.{Ent, Mode}

-- `ls_limit_t`
pub record Limits : Type 0 where
  pub max_sym_nlink : ℕ
  pub max_sym_uname : ℕ
  pub max_sym_gname : ℕ
  pub max_sym_size : ℕ
  pub max_sym_day : ℕ

abbrev pub no_limits : Limits
no_limits = record {
  max_sym_nlink = 0;
  max_sym_uname = 0;
  max_sym_gname = 0;
  max_sym_size = 0;
  max_sym_day = 0;
}

-- What the code reads of `struct tm`.
pub record Tm : Type 0 where
  pub mon : ℕ
  pub mday : ℕ
  pub hour : ℕ
  pub min : ℕ

-- strftime's %d, %H and %M
unfoldable pub two_digits : ℕ → List ℕ
two_digits n = (48 + n / 10) ∷ (48 + n % 10) ∷ []

-- `do { sym++; n /= 10; } while (n != 0)`; the number is fuel enough.
unfoldable pub count_digits : ℕ → ℕ → ℕ
count_digits zero n = 0
count_digits (suc fuel) n =
    let more = count_digits fuel (n / 10) in if n / 10 == 0 then 1 else 1 + more

unfoldable pub sym_of : ℕ → ℕ
unfolding count_digits
sym_of n = count_digits (suc n) n

-- `if (sym > max) max = sym`
abbrev pub raise : ℕ → ℕ → ℕ
raise sym max = if ltb max sym then sym else max

-- A name with a leading dot, which is shown only with the flag -a.
abbrev pub is_hidden : Mode → Ent → Bool
is_hidden mode ent = get_or ent.name 0 0 == b'.' && not mode.flag_all

-- The body of the loop for an entry that is shown.
unfoldable pub raise_all : (ℕ → Tm) → Ent → Limits → Limits
raise_all localtime ent limits = record {
  max_sym_nlink = raise (sym_of ent.st.nlink) limits.max_sym_nlink;
  max_sym_uname = raise (length ent.user_name) limits.max_sym_uname;
  max_sym_gname = raise (length ent.group_name) limits.max_sym_gname;
  max_sym_size = raise (sym_of ent.st.size) limits.max_sym_size;
  max_sym_day = raise (length (two_digits (localtime ent.st.mtime).mday)) limits.max_sym_day;
}

-- The loop over the entries.
unfoldable pub limits_of : (ℕ → Tm) → Mode → List Ent → Limits → Limits
unfolding raise_all
limits_of localtime mode [] limits = limits
limits_of localtime mode (ent ∷ ents) limits =
    limits_of localtime mode ents
      (if is_hidden mode ent then limits else raise_all localtime ent limits)

unfoldable pub get_limits : (ℕ → Tm) → Mode → List Ent → Limits → Limits
unfolding limits_of
get_limits localtime mode ents limits =
    if not mode.flag_long then limits else limits_of localtime mode ents limits

-- The loop counts the digits that the number is written with.
count_digits-digits : (fuel n : ℕ) → n < fuel → count_digits fuel n ≡ length (digits fuel n)
unfolding count_digits digits
count_digits-digits zero n h = absurd (omega arith)
count_digits-digits (suc fuel) n h = elim (dec_lt n 10) [
  | yes small ↦ ground arith
  | no big ↦
      let ih = count_digits-digits fuel (n / 10) (omega arith) in
      ground (arith, ih, length-append (digits fuel (n / 10)) ((48 + n % 10) ∷ []))
]

pub sym_of-to_string : (n : ℕ) → sym_of n ≡ length (to_string n)
unfolding sym_of to_string
sym_of-to_string n = count_digits-digits (suc n) n (omega arith)

-- No column of this entry is wider than the limits.
pub record Fits (localtime : ℕ → Tm) (limits : Limits) (ent : Ent) : Type 0 where
  pub nlink : length (to_string ent.st.nlink) ≤ limits.max_sym_nlink
  pub uname : length ent.user_name ≤ limits.max_sym_uname
  pub gname : length ent.group_name ≤ limits.max_sym_gname
  pub size : length (to_string ent.st.size) ≤ limits.max_sym_size
  pub day : limits.max_sym_day ≡ 2

-- The limits only grow; the days are written with two digits.
pub record Grows (limits limits' : Limits) : Type 0 where
  pub nlink : limits.max_sym_nlink ≤ limits'.max_sym_nlink
  pub uname : limits.max_sym_uname ≤ limits'.max_sym_uname
  pub gname : limits.max_sym_gname ≤ limits'.max_sym_gname
  pub size : limits.max_sym_size ≤ limits'.max_sym_size
  pub day : limits.max_sym_day ≤ limits'.max_sym_day
  pub day_le : limits.max_sym_day ≤ 2 → limits'.max_sym_day ≤ 2

Grows-trans : (a b c : Limits) → Grows a b → Grows b c → Grows a c
Grows-trans a b c g h = record {
  nlink = omega (arith, g.nlink, h.nlink);
  uname = omega (arith, g.uname, h.uname);
  gname = omega (arith, g.gname, h.gname);
  size = omega (arith, g.size, h.size);
  day = omega (arith, g.day, h.day);
  day_le = λ le. h.day_le (g.day_le le);
}

raise-le : (sym max : ℕ) → (max ≤ raise sym max) × (sym ≤ raise sym max)
raise-le sym max = ground arith

raise_all-Grows :
    (localtime : ℕ → Tm) (ent : Ent) (limits : Limits)
    → Grows limits (raise_all localtime ent limits)
unfolding raise_all two_digits
raise_all-Grows localtime ent limits = record {
  nlink = (raise-le (sym_of ent.st.nlink) limits.max_sym_nlink).0;
  uname = (raise-le (length ent.user_name) limits.max_sym_uname).0;
  gname = (raise-le (length ent.group_name) limits.max_sym_gname).0;
  size = (raise-le (sym_of ent.st.size) limits.max_sym_size).0;
  day = ground arith;
  day_le = λ le. ground arith;
}

raise_all-Fits :
    (localtime : ℕ → Tm) (ent : Ent) (limits : Limits)
    → limits.max_sym_day ≤ 2
    → Fits localtime (raise_all localtime ent limits) ent
unfolding raise_all two_digits
raise_all-Fits localtime ent limits le = record {
  nlink =
      omega
        (arith, raise-le (sym_of ent.st.nlink) limits.max_sym_nlink, sym_of-to_string ent.st.nlink);
  uname = (raise-le (length ent.user_name) limits.max_sym_uname).1;
  gname = (raise-le (length ent.group_name) limits.max_sym_gname).1;
  size =
      omega
        (arith, raise-le (sym_of ent.st.size) limits.max_sym_size, sym_of-to_string ent.st.size);
  day = ground arith;
}

Fits-Grows :
    (localtime : ℕ → Tm) (ent : Ent) (limits limits' : Limits)
    → Grows limits limits'
    → Fits localtime limits ent
    → Fits localtime limits' ent
Fits-Grows localtime ent limits limits' g f = record {
  nlink = omega (arith, g.nlink, f.nlink);
  uname = omega (arith, g.uname, f.uname);
  gname = omega (arith, g.gname, f.gname);
  size = omega (arith, g.size, f.size);
  day = omega (arith, g.day, g.day_le (omega (arith, f.day)), f.day);
}

-- An entry that is shown fits.
abbrev pub FitsIfShown : (ℕ → Tm) → Mode → Limits → Ent → Type 0
FitsIfShown localtime mode limits ent = is_hidden mode ent ≡ false → Fits localtime limits ent

limits_of-FitsIfShown :
    (localtime : ℕ → Tm) (mode : Mode) (ents : List Ent) (limits : Limits)
    → limits.max_sym_day ≤ 2
    → Grows limits (limits_of localtime mode ents limits)
      × All (FitsIfShown localtime mode (limits_of localtime mode ents limits)) ents
unfolding limits_of
limits_of-FitsIfShown localtime mode [] limits le = (
  record {
    nlink = omega arith;
    uname = omega arith;
    gname = omega arith;
    size = omega arith;
    day = omega arith;
    day_le = λ h. h;
  },
  tt,
)
limits_of-FitsIfShown localtime mode (ent ∷ ents) limits le =
    entry (is_hidden mode ent) refl (λ l h. limits_of-FitsIfShown localtime mode ents l h)
  where
    entry :
        (hidden : Bool)
        → is_hidden mode ent ≡ hidden
        → ((l : Limits)
            → l.max_sym_day ≤ 2
            → Grows l (limits_of localtime mode ents l)
              × All (FitsIfShown localtime mode (limits_of localtime mode ents l)) ents)
        → let last =
            limits_of localtime mode ents
              (if hidden then limits else raise_all localtime ent limits) in
          Grows limits last
          × (FitsIfShown localtime mode last ent × All (FitsIfShown localtime mode last) ents)
    entry true e rest = let (grows, fit) = rest limits le in (grows, ((λ shown. cc), fit))
    entry false e rest =
        let raised = raise_all localtime ent limits in
        let one = raise_all-Grows localtime ent limits in
        let (grows, fit) = rest raised (one.day_le le) in
        let last = limits_of localtime mode ents raised in
        (
          Grows-trans limits raised last one grows,
          (
            (λ shown.
                Fits-Grows localtime ent raised last grows
                  (raise_all-Fits localtime ent limits le)),
            fit,
          ),
        )

pub get_limits-FitsIfShown :
    (localtime : ℕ → Tm) (mode : Mode) (ents : List Ent)
    → mode.flag_long ≡ true
    → All (FitsIfShown localtime mode (get_limits localtime mode ents no_limits)) ents
unfolding get_limits
get_limits-FitsIfShown localtime mode ents long =
    let same : limits_of localtime mode ents no_limits ≡ get_limits localtime mode ents no_limits =
      ground arith in
    subst (λ l. All (FitsIfShown localtime mode l) ents) same
      (limits_of-FitsIfShown localtime mode ents no_limits (omega arith)).1
