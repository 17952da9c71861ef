-- ===== src/Version/Versioner.antt =====
-- `Versioner` of src/karapace/core/schema_models.py.
use Prim.Native.Char.{code}
use karapace.Prelude.{
  ℕ, zero, suc, ◌+◌, ◌*◌, ◌-◌, Bool, true, false, ◌&&◌, Option, none, some, String, ℤ, pos, negsuc,
  leb, eqb, ◌==◌, string_eq, map_option, if◌then◌else◌,
}
use karapace.Dict.{Dict, keys, contains}
use karapace.Version.{Version, latest, number, is_latest, version_eq, max_version, version_leb}
use karapace.Outcome.{
  value_error, invalid_version, version_not_found, Result, ok, err, ◌>>=◌, ◌>>◌, raise_if, or_raise,
}

-- `Version.__init__` on an integer
unfoldable pub init : ℤ → Result Version
init (pos n) = ok (number n)
init (negsuc zero) = ok latest
init (negsuc (suc n)) = err invalid_version

-- A tag is a text or an integer.
pub data VersionTag : Type 0 where
  text : String → VersionTag
  int : ℤ → VersionTag

abbrev digits_of : ℕ → String → Option ℕ
digits_of n String.[] = some n
digits_of n (String.◌∷◌ c s) =
    if leb b'0' (code c) && leb (code c) b'9' then digits_of (n * 10 + (code c - 48)) s else none

abbrev negate : ℕ → ℤ
negate zero = pos 0
negate (suc n) = negsuc n

number_of : String → Option ℕ
number_of String.[] = none
number_of (String.◌∷◌ c s) = digits_of 0 (String.◌∷◌ c s)

-- `int(s)` of an optional sign and decimal digits. (Python also skips surrounding spaces and single
-- underscores between digits.)
unfoldable pub int_of : String → Option ℤ
unfolding number_of
int_of String.[] = none
int_of (String.◌∷◌ c s) =
    if eqb (code c) b'-'
    then map_option negate (number_of s)
    else if eqb (code c) b'+'
    then map_option pos (number_of s)
    else map_option pos (number_of (String.◌∷◌ c s))

-- `Versioner.resolve_tag`
unfoldable pub resolve_tag : VersionTag → Result ℤ
resolve_tag (text s) = if s == "latest" then ok (negsuc 0) else or_raise (int_of s) value_error
resolve_tag (int n) = ok n

-- The test of `validate_tag`: below -1, or 0.
abbrev pub is_invalid_number : ℤ → Bool
is_invalid_number (pos zero) = true
is_invalid_number (pos (suc n)) = false
is_invalid_number (negsuc zero) = false
is_invalid_number (negsuc (suc n)) = true

-- The `except ValueError` of `validate_tag`, which spares the tag "latest".
abbrev on_value_error : VersionTag → Result (Unit {0})
on_value_error (text s) = if s == "latest" then ok tt else err invalid_version
on_value_error (int n) = err invalid_version

abbrev check_resolved : VersionTag → Result ℤ → Result (Unit {0})
check_resolved tag (ok n) = raise_if (is_invalid_number n) invalid_version
check_resolved tag (err value_error) = on_value_error tag
check_resolved tag (err x) = err x

-- `Versioner.validate_tag`
unfoldable pub validate_tag : VersionTag → Result (Unit {0})
unfolding resolve_tag
validate_tag tag = check_resolved tag (resolve_tag tag)

-- `Versioner.V`
unfoldable pub make : VersionTag → Result Version
unfolding validate_tag init
make tag = do validate_tag tag; n ← resolve_tag tag; init n

-- `Versioner.from_schema_versions`; `max` of no versions is a ValueError.
unfoldable pub from_schema_versions : {S : Type 0} → Dict Version S → Version → Result Version
from_schema_versions schema_versions version = do
  max_version' ← or_raise (max_version (keys schema_versions)) value_error
  if is_latest version
      then ok max_version'
      else if contains version schema_versions && version_leb version max_version'
      then ok version
      else err version_not_found
