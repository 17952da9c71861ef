-- ===== src/JsonSchema/Verdicts/Scalars.antt =====
-- Integers that a writer's schema admits are admitted by a compatible reader's.
use karapace.Prelude.{◌≡◌, true, false, ◌&&◌, string_eq, ℤ, int_leb}
use karapace.JsonSchema.Json.{Members}
use karapace.JsonSchema.Types.{Keyword, Instance, JsonschemaTypes, instance_type, same_type}
use karapace.JsonSchema.Utils.{keyword_at}
use karapace.JsonSchema.Scalars.{integer_of, magnitude}
use karapace.JsonSchema.Verdicts.Passes.{Passes}
use karapace.JsonSchema.Verdicts.Numbers.{OfInteger, IsMultipleOf}

-- the integers that the constraints of a schema of numbers admit
unfoldable pub AdmitsInteger : Members → ℤ → Type 0
AdmitsInteger m n =
    OfInteger (λ k. int_leb n k ≡ true) (integer_of (keyword_at Keyword.maximum m))
    × OfInteger (λ k. int_leb k n ≡ true) (integer_of (keyword_at Keyword.minimum m))
    × OfInteger (λ k. int_leb k n ≡ false) (integer_of (keyword_at Keyword.exclusive_maximum m))
    × OfInteger (λ k. int_leb n k ≡ false) (integer_of (keyword_at Keyword.exclusive_minimum m))
    × OfInteger (IsMultipleOf (magnitude n)) (integer_of (keyword_at Keyword.multiple m))

-- what an accepted check of numbers says
abbrev NumbersKept : JsonschemaTypes → JsonschemaTypes → Members → Members → Type 0
NumbersKept t u r w =
    ((same_type t (instance_type Instance.integer) && same_type u (instance_type Instance.number))
      ≡ false)
    × ((n : ℤ) → AdmitsInteger w n → AdmitsInteger r n)
