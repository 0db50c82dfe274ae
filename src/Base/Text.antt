-- ===== src/Base/Text.antt =====
-- Characters as bytes: the C library's `isspace` in the C locale, and the words of a text.
use Prim.Native.Nat.{ℕ}
use Prim.Native.Char.{code}
use Prim.Native.String.{String}
use mathlib.Core.Bool.{Bool, ◌&&◌, ◌||◌}
use mathlib.Core.List.{List, [], ◌∷◌}
use seminars.Base.Tests.{leb, ◌==◌, if◌then◌else◌}

-- Space, \t, \n, \v, \f and \r.
unfoldable pub is_space : ℕ → Bool
is_space c = c == 32 || (leb 9 c && leb c 13)

-- Put a byte in front of the first piece.
abbrev pub onto_first : ℕ → List (List ℕ) → List (List ℕ)
onto_first c [] = (c ∷ []) ∷ []
onto_first c (w ∷ ws) = (c ∷ w) ∷ ws

-- The pieces between bytes that pass the test, empty ones too: one more than there are such bytes.
unfoldable pub split_on : (ℕ → Bool) → List ℕ → List (List ℕ)
split_on sep [] = [] ∷ []
split_on sep (c ∷ cs) = let rest = split_on sep cs in if sep c then [] ∷ rest else onto_first c rest

unfoldable pub drop_empty : List (List ℕ) → List (List ℕ)
drop_empty [] = []
drop_empty ([] ∷ ws) = drop_empty ws
drop_empty ((c ∷ w) ∷ ws) = (c ∷ w) ∷ drop_empty ws

-- The words of a text: the longest pieces without white space.
unfoldable pub words : List ℕ → List (List ℕ)
unfolding split_on drop_empty
words text = drop_empty (split_on is_space text)

-- The bytes of an ASCII text.
abbrev pub codes : String → List ℕ
codes String.[] = []
codes (String.◌∷◌ c s) = code c ∷ codes s

-- The string that begins a block of bytes: up to the first NUL.
abbrev pub c_string : List ℕ → List ℕ
c_string [] = []
c_string (c ∷ bytes) = let rest = c_string bytes in if c == 0 then [] else c ∷ rest
