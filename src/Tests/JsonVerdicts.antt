-- ===== src/Tests/JsonVerdicts.antt =====
-- Verdicts on JSON Schemas.
use karapace.Prelude.{ℕ, ◌≡◌, refl, true, List, [], ◌∷◌, String, string_eq, pos, arith}
use mathlib.Core.List.{Memᴰ}
use karapace.Outcome.{Returns, ok}
use karapace.JsonSchema.Json.{JsonValue, bool, number, text, array, object, among, Members}
use karapace.JsonSchema.Types.{compatible}
use karapace.JsonSchema.Recursion.{compatibility_rec}
use karapace.JsonSchema.Terminates.Weight.{weight}
use karapace.JsonSchema.Terminates.Recursion.{compatibility_rec-Returns}
use karapace.JsonSchema.Verdicts.Options.{compatibility_rec-among}
use karapace.JsonSchema.Verdicts.Properties.{PropertiesKept, compatibility_rec-PropertiesKept}
use karapace.JsonSchema.Verdicts.Arrays.{ArraysKept, compatibility_rec-ArraysKept}
use karapace.JsonSchema.Arrays.{same_flag}
use karapace.JsonSchema.Constraints.{is_tuple}
use karapace.JsonSchema.Normalize.{Validator, compatibility}
use karapace.JsonSchema.Normalize.Plain.{IsPlain, compatibility-plain}
use karapace.JsonSchema.Utils.{keyword_at}
use karapace.Tests.JsonSchemas.{
  packages, members, schema, of_type, items, object_of, integer_to, combined_schema,
}

abbrev codes_to : ℕ → Members
codes_to n =
    members (("type", text "string") ∷ ("maxLength", number (pos n)) ∷ ("pattern", text "a*") ∷ [])

abbrev options : List JsonValue → Members
options vs = members (("enum", array (items vs)) ∷ [])

compatibility_rec-among_example :
    among (text "a") (text "b" ∷ number (pos 1) ∷ text "a" ∷ []) ≡ true
unfolding compatibility_rec
compatibility_rec-among_example =
    compatibility_rec-among packages 3 (options (text "b" ∷ number (pos 1) ∷ text "a" ∷ []))
      (options (text "a" ∷ bool true ∷ [])) (text "b" ∷ number (pos 1) ∷ text "a" ∷ [])
      (text "a" ∷ bool true ∷ []) [] compatible (text "a") refl refl refl refl refl refl
      (Memᴰ.head refl)

-- an order: the reader takes any name of other properties
abbrev order_of : List (String × JsonValue) → List (String × JsonValue) → Members
order_of properties rest =
    members (("type", text "object") ∷ ("properties", schema properties) ∷ rest)

compatibility_rec-PropertiesKept_example :
    PropertiesKept packages
      (compatibility_rec packages 5)
      []
      (object
        (order_of (("a", integer_to 9) ∷ []) (("additionalProperties", of_type "string") ∷ [])))
      (order_of (("a", integer_to 9) ∷ []) (("additionalProperties", of_type "string") ∷ []))
      (members (("a", integer_to 9) ∷ []))
      (members (("a", integer_to 7) ∷ ("b", of_type "string") ∷ []))
unfolding compatibility_rec
compatibility_rec-PropertiesKept_example =
    compatibility_rec-PropertiesKept packages (λ r s. refl) 5
      (order_of (("a", integer_to 9) ∷ []) (("additionalProperties", of_type "string") ∷ []))
      (order_of (("a", integer_to 7) ∷ ("b", of_type "string") ∷ [])
        (("additionalProperties", of_type "string") ∷ []))
      (members (("a", integer_to 9) ∷ []))
      (members (("a", integer_to 7) ∷ ("b", of_type "string") ∷ [])) [] compatible refl refl refl
      refl refl refl

-- a tuple that is open: the writer's has one more position
abbrev tuple_of : List JsonValue → Members
tuple_of vs = members (("type", text "array") ∷ ("items", array (items vs)) ∷ [])

compatibility_rec-ArraysKept_example :
    (same_flag
        (is_tuple (object (tuple_of (integer_to 9 ∷ []))))
        (is_tuple (object (tuple_of (integer_to 7 ∷ of_type "string" ∷ []))))
      ≡ true)
    × ArraysKept
        (compatibility_rec packages 5)
        []
        (object (tuple_of (integer_to 9 ∷ [])))
        (object (tuple_of (integer_to 7 ∷ of_type "string" ∷ [])))
        (tuple_of (integer_to 9 ∷ []))
        (tuple_of (integer_to 7 ∷ of_type "string" ∷ []))
unfolding compatibility_rec
compatibility_rec-ArraysKept_example =
    compatibility_rec-ArraysKept packages (λ r s. refl) 5 (tuple_of (integer_to 9 ∷ []))
      (tuple_of (integer_to 7 ∷ of_type "string" ∷ [])) [] compatible refl refl refl refl

compatibility_rec-Returns_example : Returns (
    compatibility_rec packages 9
      (object_of (("a", integer_to 9) ∷ ("b", bool true) ∷ []) [])
      (combined_schema "oneOf" (of_type "string" ∷ of_type "null" ∷ []))
      [])
unfolding weight
compatibility_rec-Returns_example =
    compatibility_rec-Returns packages 9
      (object_of (("a", integer_to 9) ∷ ("b", bool true) ∷ []) [])
      (combined_schema "oneOf" (of_type "string" ∷ of_type "null" ∷ [])) [] (λ pattern name. tt)
      (omega arith)

abbrev validator_of : JsonValue → Validator
validator_of v = record {
  schema = v;
  scopes = [];
  id_of = λ m. "";
  push_scope = λ scope scopes. scope ∷ scopes;
  resolve_ref = λ scopes ref. ok (ref, v);
}

compatibility-plain_example :
    compatibility packages 9 5 (validator_of (integer_to 5)) (validator_of (integer_to 7))
    ≡ compatibility_rec packages 5 (integer_to 5) (integer_to 7) []
unfolding IsPlain weight keyword_at
compatibility-plain_example =
    compatibility-plain packages 9 5 (validator_of (integer_to 5)) (validator_of (integer_to 7))
      (refl, (tt, (tt, tt))) (refl, (tt, (tt, tt))) (omega arith) (omega arith)
