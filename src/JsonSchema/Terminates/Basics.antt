-- ===== src/JsonSchema/Terminates/Basics.antt =====
-- The functions on values and types of schemas end.
use karapace.Prelude.{
  true, false, Option, none, some, List, String, string_eq, ℕ, suc, ◌≤◌, ◌≡◌, refl, ap, ◌∙◌, subst,
  inl, inr, arith,
}
use karapace.Outcome.{Returns, Result-cases, ok, err}
use karapace.JsonSchema.Json.{
  JsonValue, bool, number, text, array, object, Items, no_items, item, Members, no_members, member,
  members_of, json_eq, greater, set_of, joined, text_in, is_len_zero,
}
use karapace.JsonSchema.Types.{Keyword, Packages}
use karapace.JsonSchema.Utils.{keyword_at, keyword_or}
use karapace.JsonSchema.Constraints.{
  gt, lt, ne, is_object_content_model_open, matching_schema, found_or,
  schema_from_partially_open_content_model,
}
use karapace.JsonSchema.Terminates.Weight.{
  weight, weight_members, keyword_at-weight, keyword_or-weight,
}
use karapace.JsonSchema.Terminates.Runs.{if-Returns}

mutual
  unfolding greater

  pub greater-Returns : (a b : JsonValue) → Returns (greater a b)
  greater-Returns (bool a) (bool b) = tt
  greater-Returns (bool a) (number n) = tt
  greater-Returns (number n) (bool b) = tt
  greater-Returns (number a) (number b) = tt
  greater-Returns (text s) (text t) = tt
  greater-Returns (array vs) (array ws) = items_gt-Returns vs ws
  greater-Returns _ _ = tt

  items_gt-Returns : (vs ws : Items) → Returns (greater (array vs) (array ws))
  items_gt-Returns no_items ws = tt
  items_gt-Returns (item v vs) no_items = tt
  items_gt-Returns (item v vs) (item w ws) =
      if-Returns (json_eq v w) _ _ (items_gt-Returns vs ws) (greater-Returns v w)

pub gt-Returns : (a b : JsonValue) → Returns (gt a b)
unfolding gt
gt-Returns a b = if-Returns _ (ok false) (greater a b) tt (greater-Returns a b)

pub lt-Returns : (a b : JsonValue) → Returns (lt a b)
unfolding lt
lt-Returns a b = gt-Returns b a

pub ne-Returns : (a b : JsonValue) → Returns (ne a b)
unfolding ne
ne-Returns a b = tt

pub members_of-Returns : (v : JsonValue) → Returns (members_of v)
members_of-Returns (object m) = tt
members_of-Returns _ = tt

pub set_of-Returns : (v : JsonValue) → Returns (set_of v)
unfolding set_of
set_of-Returns (array vs) = if-Returns _ (ok _) (err _) tt tt
set_of-Returns _ = tt

pub joined-Returns : (vs : List JsonValue) → Returns (joined vs)
joined-Returns vs = if-Returns _ (ok tt) (err _) tt tt

pub text_in-Returns : (s : String) (v : JsonValue) → Returns (text_in s v)
unfolding text_in
text_in-Returns s (array vs) = tt
text_in-Returns s (text t) = tt
text_in-Returns s (object m) = tt
text_in-Returns s _ = tt

pub is_len_zero-Returns : (v : JsonValue) → Returns (is_len_zero v)
unfolding is_len_zero
is_len_zero-Returns (array vs) = tt
is_len_zero-Returns (text s) = tt
is_len_zero-Returns (object m) = tt
is_len_zero-Returns _ = tt

pub is_object_content_model_open-Returns :
    (v : JsonValue) → Returns (is_object_content_model_open v)
unfolding is_object_content_model_open
is_object_content_model_open-Returns (object m) =
    ground
      (arith, is_len_zero-Returns (keyword_or Keyword.pattern_properties (array Items.no_items) m))
is_object_content_model_open-Returns _ = tt

-- a pattern's schema is a part of the patterns
matching_schema-weight :
    (p : Packages) (name : String) (m : Members) (schema : JsonValue)
    → matching_schema p name m ≡ ok (some schema)
    → weight schema ≤ weight_members m
unfolding matching_schema weight
matching_schema-weight p name no_members schema h = absurd (ground (arith, h))
matching_schema-weight p name (member pattern v m) schema h =
    elim (Result-cases (p.re_match pattern name)) [
      | inr (x, e) ↦ absurd (ground (arith, h, e))
      | inl (true, e) ↦ ground (arith, h, e)
      | inl (false, e) ↦ ground (arith, h, e, matching_schema-weight p name m schema)
    ]

module _ (p : Packages) (matches : (s t : String) → Returns (p.re_match s t)) where
  matching_schema-Returns : (name : String) (m : Members) → Returns (matching_schema p name m)
  unfolding matching_schema
  matching_schema-Returns name no_members = tt
  matching_schema-Returns name (member pattern v m) =
      ground (arith, matches pattern name, matching_schema-Returns name m)

  pub schema_from_partially_open_content_model-Returns :
      (m : Members) (name : String) → Returns (schema_from_partially_open_content_model p m name)
  unfolding schema_from_partially_open_content_model
  schema_from_partially_open_content_model-Returns m name =
      elim (Result-cases
        (members_of (keyword_or Keyword.pattern_properties (object no_members) m))) [
          | inl (patterns, e) ↦ rw e (ground (arith, matching_schema-Returns name patterns))
          | inr (x, e) ↦ ground (
            arith,
            e,
            members_of-Returns (keyword_or Keyword.pattern_properties (object no_members) m),
          )
        ]

found_or-weight :
    (o : Option JsonValue) (d : JsonValue) (n : ℕ)
    → ((v : JsonValue) → o ≡ some v → weight v ≤ n)
    → weight d ≤ n
    → weight (found_or o d) ≤ n
found_or-weight none d n h k = k
found_or-weight (some v) d n h k = h v refl

-- the dict of a keyword is a part of the schema
pub dict-weight :
    (k : Keyword) (m patterns : Members)
    → members_of (keyword_or k (object no_members) m) ≡ ok patterns
    → weight_members patterns ≤ weight_members m
unfolding weight
dict-weight k m patterns h =
    members_of-weight (keyword_or k (object no_members) m) h
      (omega (arith, keyword_or-weight k (object no_members) m))
  where
    members_of-weight :
        (v : JsonValue)
        → members_of v ≡ ok patterns
        → weight v ≤ suc (weight_members m)
        → weight_members patterns ≤ weight_members m
    members_of-weight (object n) e b = ground (arith, e, b)
    members_of-weight _ e b = absurd (ground (arith, e))

-- the schema for a name is a part of the schema
pub schema_from_partially_open_content_model-weight :
    (p : Packages) (m : Members) (name : String) (schema : JsonValue)
    → schema_from_partially_open_content_model p m name ≡ ok schema
    → weight schema ≤ weight_members m
unfolding schema_from_partially_open_content_model
schema_from_partially_open_content_model-weight p m name schema h =
    elim (Result-cases (members_of (keyword_or Keyword.pattern_properties (object no_members) m))) [
      | inr (x, e) ↦ absurd (ground (arith, h, e))
      | inl (patterns, e) ↦ elim (Result-cases (matching_schema p name patterns)) [
        | inr (x, f) ↦ absurd (ground (arith, h, e, f))
        | inl (o, f) ↦
            subst (λ v. weight v ≤ weight_members m) (ground (arith, h, e, f))
              (found_or-weight o (keyword_at Keyword.additional_properties m) (weight_members m)
                (λ v g. omega (
                  arith,
                  matching_schema-weight p name patterns v (f ∙ ap ok g),
                  dict-weight Keyword.pattern_properties m patterns e,
                ))
                (keyword_at-weight Keyword.additional_properties m))
      ]
    ]
