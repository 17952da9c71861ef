-- ===== src/JsonSchema/Verdicts/Strings.antt =====
-- Texts that a writer's schema admits are admitted by a compatible reader's.
use karapace.Prelude.{ℕ, ◌≡◌, Bool, true, String, string_eq, pos, int_leb}
use karapace.JsonSchema.Json.{JsonValue, text, Members}
use karapace.JsonSchema.Types.{Keyword}
use karapace.JsonSchema.Utils.{keyword_at}
use karapace.JsonSchema.Scalars.{integer_of}
use karapace.JsonSchema.Verdicts.Numbers.{OfInteger}

-- a text that the pattern of a schema matches
abbrev pub OfPattern : (String → Bool) → JsonValue → Type 0
OfPattern matches (text pattern) = matches pattern ≡ true
OfPattern matches _ = Unit

-- the texts that the constraints of a schema of strings admit, by their length and by which patterns
-- match them
unfoldable pub AdmitsString : Members → ℕ → (String → Bool) → Type 0
AdmitsString m n matches =
    OfInteger (λ k. int_leb (pos n) k ≡ true) (integer_of (keyword_at Keyword.max_length m))
    × OfInteger (λ k. int_leb k (pos n) ≡ true) (integer_of (keyword_at Keyword.min_length m))
    × OfPattern matches (keyword_at Keyword.pattern m)
