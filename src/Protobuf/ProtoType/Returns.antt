-- ===== src/Protobuf/ProtoType/Returns.antt =====
-- The fuel of `get2` in src/karapace/core/protobuf/proto_type.py.
use Prim.Native.Char.{Char, code}
use Prim.Native.String.{String, [], ◌∷◌}
use karapace.Prelude.{
  ℕ, zero, suc, ◌<◌, ◌≤◌, inl, inr, Bool, true, false, Option, none, some, arith, nat_eq, string_eq,
  ◌==◌, Bool-cases, elem, is_some, if◌then◌else◌, ◌||◌, ◌&&◌,
}
use karapace.Outcome.{illegal_argument, Result, ok, err, ◌>>=◌, Returns}
use karapace.Protobuf.Text.{
  chars, keep_unless_space, split_at, split_last, strip, strip_left, strip_right, drop_first,
  drop_last, hash_sign, comma, starts_with, ends_with, is_space,
}
use karapace.Protobuf.ProtoType.{
  ProtoType, get2_from, get2, syntax_of, at_comma, Syntax, no_name, plain, no_comma, map_syntax,
  map_of, map_type, read_syntax, scalar_types,
}

strip_left-shrinks : (s : String) → chars (strip_left s) ≤ chars s
unfolding strip_left
strip_left-shrinks [] = omega arith
strip_left-shrinks (c ∷ s) = elim (Bool-cases (is_space (code c))) [
  | inl e ↦ rw (strip_left, e) (omega (arith, strip_left-shrinks s))
  | inr e ↦ rw (strip_left, e) (omega arith)
]

keep_unless_space-shrinks :
    (b : Bool) (c : Char) (s : String) → chars (keep_unless_space b c s) ≤ suc (chars s)
keep_unless_space-shrinks b c (d ∷ t) = omega arith
keep_unless_space-shrinks true c [] = omega arith
keep_unless_space-shrinks false c [] = omega arith

strip_right-shrinks : (s : String) → chars (strip_right s) ≤ chars s
unfolding strip_right
strip_right-shrinks [] = omega arith
strip_right-shrinks (c ∷ s) =
    omega (
      arith,
      strip_right-shrinks s,
      keep_unless_space-shrinks (is_space (code c)) c (strip_right s),
    )

strip-shrinks : (s : String) → chars (strip s) ≤ chars s
unfolding strip
strip-shrinks s = omega (arith, strip_left-shrinks (strip_right s), strip_right-shrinks s)

drop_first-shrinks : (n : ℕ) (s : String) → chars (drop_first n s) ≤ chars s
unfolding drop_first
drop_first-shrinks zero s = omega arith
drop_first-shrinks (suc n) [] = omega arith
drop_first-shrinks (suc n) (c ∷ s) = omega (arith, drop_first-shrinks n s)

drop_last-shrinks : (s : String) → chars (drop_last s) ≤ chars s
unfolding drop_last
drop_last-shrinks [] = omega arith
drop_last-shrinks (c ∷ []) = omega arith
drop_last-shrinks (c ∷ d ∷ s) = omega (arith, drop_last-shrinks (d ∷ s))

-- the parts before and after the last separator are shorter than the whole
abbrev Shorter : ℕ → Option (String × String) → Type 0
Shorter n none = Unit
Shorter n (some (a, b)) = (chars a < n) × (chars b < n)

split_at-Shorter :
    (b : Bool) (c : Char) (s : String) (o : Option (String × String))
    → Shorter (chars s) o
    → Shorter (suc (chars s)) (split_at b c s o)
split_at-Shorter b c s (some (before, after)) (h, g) = (omega (arith, h), omega (arith, g))
split_at-Shorter true c s none h = (omega arith, omega arith)
split_at-Shorter false c s none h = tt

split_last-Shorter : (k : ℕ) (s : String) → Shorter (chars s) (split_last k s)
unfolding split_last
split_last-Shorter k [] = tt
split_last-Shorter k (c ∷ s) =
    split_at-Shorter (code c == k) c s (split_last k s) (split_last-Shorter k s)

-- the names of a map's key and value are shorter than the map's
abbrev ShorterNames : ℕ → Syntax → Type 0
ShorterNames n (map_syntax key value) = (chars key < n) × (chars value < n)
ShorterNames n _ = Unit

at_comma-ShorterNames :
    (n : ℕ) (o : Option (String × String)) → Shorter n o → ShorterNames n (at_comma o)
at_comma-ShorterNames n none h = tt
at_comma-ShorterNames n (some (a, b)) (h, g) = (
  omega (arith, h, strip-shrinks (drop_first 4 a), drop_first-shrinks 4 a),
  omega (arith, g, strip-shrinks (drop_last b), drop_last-shrinks b),
)

syntax_of-ShorterNames : (name : String) → ShorterNames (chars name) (syntax_of name)
syntax_of-ShorterNames name =
    elim (Bool-cases (name == "" || is_some (split_last hash_sign name))) [
      | inl e ↦ rw e tt
      | inr e ↦ elim (Bool-cases (starts_with "map<" name && ends_with ">" name)) [
        | inl m ↦ rw e (
            rw m (
              at_comma-ShorterNames (chars name) (split_last comma name)
                (split_last-Shorter comma name)))
        | inr m ↦ rw e (rw m tt)
      ]
    ]

if_ok-Returns : {A : Type 0} (b : Bool) (a : A) → Returns (if b then ok a else err illegal_argument)
if_ok-Returns true a = tt
if_ok-Returns false a = tt

map_of-Returns : (name : String) (key value : ProtoType) → Returns (map_of name key value)
map_of-Returns name key value = if_ok-Returns _ (map_type name key value)

bind-Returns :
    {A B : Type 0} (m : Result A) (f : A → Result B)
    → Returns m
    → ((a : A) → Returns (f a))
    → Returns (m >>= f)
bind-Returns (ok a) f h g = g a
bind-Returns (err x) f h g = h

read_syntax-Returns :
    (get2 : String → Result ProtoType) (n : ℕ) (name : String) (x : Syntax)
    → ((part : String) → chars part < n → Returns (get2 part))
    → ShorterNames n x
    → Returns (read_syntax get2 name x)
read_syntax-Returns get2 n name no_name h g = tt
read_syntax-Returns get2 n name plain h g = tt
read_syntax-Returns get2 n name no_comma h g = tt
read_syntax-Returns get2 n name (map_syntax key value) h (k, v) =
    bind-Returns (get2 key) _ (h key k)
      λ key'. bind-Returns (get2 value) _ (h value v) λ value'. map_of-Returns name key' value'

get2_from-Returns : (fuel : ℕ) (name : String) → chars name < fuel → Returns (get2_from fuel name)
unfolding get2_from
get2_from-Returns zero name h = absurd (omega (arith, h))
get2_from-Returns (suc fuel) name h = elim (Bool-cases (elem name scalar_types)) [
  | inl e ↦ rw (get2_from, e) tt
  | inr e ↦
      rw (get2_from, e)
        (read_syntax-Returns (get2_from fuel) (chars name) name (syntax_of name)
          (λ part p. get2_from-Returns fuel part (omega (arith, p, h)))
          (syntax_of-ShorterNames name))
]

-- The fuel of `get2` is enough.
pub get2-Returns : (name : String) → Returns (get2 name)
get2-Returns name = get2_from-Returns (suc (chars name)) name (omega arith)
