-- ===== src/Protobuf/Text.antt =====
-- The methods of Python's `str` that src/karapace/core/protobuf calls. A character is given by its code
-- point.
use Prim.Native.Char.{Char, code}
use Prim.Native.String.{String, [], ◌∷◌, ◌++◌, len, slice}
use karapace.Prelude.{
  ℕ, zero, suc, ◌-◌, Bool, true, false, ◌&&◌, ◌||◌, Option, none, some, nat_eq, string_eq, ◌==◌,
  leb, if◌then◌else◌,
}

abbrev pub dot : ℕ
dot = 46

abbrev pub comma : ℕ
comma = 44

abbrev pub hash_sign : ℕ
hash_sign = 35

abbrev pub append : String → String → String
append s t = s ++ t

-- `len(s)`
abbrev pub chars : String → ℕ
chars [] = 0
chars (c ∷ s) = suc (chars s)

abbrev pub starts_with : String → String → Bool
starts_with t s = slice s 0 (len t) == t

abbrev pub ends_with : String → String → Bool
ends_with t s = leb (len t) (len s) && slice s (len s - len t) (len s) == t

-- `s[n:]` of characters, and `s[:-1]`
unfoldable pub drop_first : ℕ → String → String
drop_first zero s = s
drop_first (suc n) [] = []
drop_first (suc n) (c ∷ s) = drop_first n s

unfoldable pub drop_last : String → String
drop_last [] = []
drop_last (c ∷ []) = []
drop_last (c ∷ d ∷ s) = c ∷ drop_last (d ∷ s)

-- a split of a text with one more character, which may be the separator, in front
abbrev pub split_at : Bool → Char → String → Option (String × String) → Option (String × String)
split_at b c s (some (before, after)) = some (c ∷ before, after)
split_at true c s none = some ([], s)
split_at false c s none = none

-- `name[:i]` and `name[i + 1:]` where `i` is `name.rfind(c)`, if it is not -1
unfoldable pub split_last : ℕ → String → Option (String × String)
split_last k [] = none
split_last k (c ∷ s) = split_at (code c == k) c s (split_last k s)

-- `c.isspace()`
abbrev pub is_space : ℕ → Bool
is_space c =
    leb 9 c && leb c 13
    || leb 28 c && leb c 32
    || leb 8192 c && leb c 8202
    || c == 133
    || c == 160
    || c == 5760
    || c == 8232
    || c == 8233
    || c == 8239
    || c == 8287
    || c == 12288

unfoldable pub strip_left : String → String
strip_left [] = []
strip_left (c ∷ s) = let rest = strip_left s in if is_space (code c) then rest else c ∷ s

abbrev pub keep_unless_space : Bool → Char → String → String
keep_unless_space b c (d ∷ t) = c ∷ d ∷ t
keep_unless_space true c [] = []
keep_unless_space false c [] = c ∷ []

unfoldable pub strip_right : String → String
strip_right [] = []
strip_right (c ∷ s) = keep_unless_space (is_space (code c)) c (strip_right s)

-- `s.strip()`
unfoldable pub strip : String → String
unfolding strip_left strip_right
strip s = strip_left (strip_right s)

-- `".".join(names) + "." + last`
unfoldable pub dotted : String → String → String
dotted a b = a ++ "." ++ b
