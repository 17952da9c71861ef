-- ===== src/JsonSchema/Verdicts/Numbers.antt =====
-- Numbers that the constraints of a writer admit are admitted by those of a compatible reader.
use karapace.Prelude.{
  ℕ, zero, suc, ◌*◌, ◌/◌, ◌≡◌, refl, ap, ◌∙◌, inl, inr, Bool, true, false, Option, none, some, ℤ,
  int_leb, int_beq, int_beq_iff, arith, Bool-cases,
}
use karapace.Outcome.{ok}
use karapace.JsonSchema.Json.{
  JsonValue, null, bool, number, number_of_bool, is_null, greater, json_eq,
}
use karapace.JsonSchema.Types.{Location}
use karapace.JsonSchema.Constraints.{gt, lt, ne, introduced_constraint}
use karapace.JsonSchema.Scalars.{
  integer_of, magnitude, has_remainder, is_no_multiple, check_multiple,
}
use native.Mathlib.Omega.{div_fact}
use native.Mathlib.Nat.{mul_assoc}
use karapace.JsonSchema.Verdicts.Passes.{
  Passes, weaker-Passes, add-Passes, then-Passes, when-Passes, if-Passes, with_value-Passes,
}

-- a condition on the integer of a keyword, if it has one
abbrev pub OfInteger : (ℤ → Type 0) → Option ℤ → Type 0
OfInteger R none = Unit
OfInteger R (some k) = R k

module _ (R : ℤ → Type 0) where
  -- an upper bound that the reader does not lower
  pub upper_bound-kept :
      (new old : JsonValue)
      → ((j k : ℤ) → int_leb j k ≡ true → R j → R k)
      → introduced_constraint new old ≡ false
      → lt new old ≡ ok false
      → OfInteger R (integer_of old)
      → OfInteger R (integer_of new)
  unfolding introduced_constraint lt greater
  upper_bound-kept (bool a) (bool b) mono i c h = mono _ _ (ground (arith, c)) h
  upper_bound-kept (bool a) (number k) mono i c h = mono _ _ (ground (arith, c)) h
  upper_bound-kept (number j) (bool b) mono i c h = mono _ _ (ground (arith, c)) h
  upper_bound-kept (number j) (number k) mono i c h = mono _ _ (ground (arith, c)) h
  upper_bound-kept (bool a) old mono i c h = absurd (ground (arith, i, c))
  upper_bound-kept (number j) old mono i c h = absurd (ground (arith, i, c))
  upper_bound-kept _ old mono i c h = tt

  -- a lower bound that the reader does not raise
  pub lower_bound-kept :
      (new old : JsonValue)
      → ((j k : ℤ) → int_leb k j ≡ true → R j → R k)
      → introduced_constraint new old ≡ false
      → gt new old ≡ ok false
      → OfInteger R (integer_of old)
      → OfInteger R (integer_of new)
  unfolding introduced_constraint gt greater
  lower_bound-kept (bool a) (bool b) mono i c h = mono _ _ (ground (arith, c)) h
  lower_bound-kept (bool a) (number k) mono i c h = mono _ _ (ground (arith, c)) h
  lower_bound-kept (number j) (bool b) mono i c h = mono _ _ (ground (arith, c)) h
  lower_bound-kept (number j) (number k) mono i c h = mono _ _ (ground (arith, c)) h
  lower_bound-kept (bool a) old mono i c h = absurd (ground (arith, i, c))
  lower_bound-kept (number j) old mono i c h = absurd (ground (arith, i, c))
  lower_bound-kept _ old mono i c h = tt

-- an integer whose magnitude is a multiple of that of another
abbrev pub IsMultipleOf : ℕ → ℤ → Type 0
IsMultipleOf n k = (q : ℕ) × (n ≡ magnitude k * q)

-- what an accepted check of `multiple` says
abbrev pub MultipleKept : JsonValue → JsonValue → Type 0
MultipleKept new old =
    (introduced_constraint new old ≡ false)
    × (json_eq old new ≡ false
        → is_null new ≡ false
        → is_null old ≡ false
        → (greater new old ≡ ok false) × (is_no_multiple old new ≡ ok false))

module _ (n : ℕ) where
  has_remainder-divides :
      (a b q : ℕ) → has_remainder a b ≡ ok false → n ≡ a * q → (d : ℕ) × (n ≡ b * d)
  has_remainder-divides a zero q h e = absurd (ground (arith, h))
  has_remainder-divides a (suc b) q h e =
      (a / suc b * q, e ∙ ap (λ m. m * q) exact ∙ mul_assoc (suc b) (a / suc b) q)
    where
      exact : a ≡ suc b * (a / suc b)
      exact = ground (arith, h, div_fact a b)

  pub multiple-kept :
      (new old : JsonValue)
      → MultipleKept new old
      → OfInteger (IsMultipleOf n) (integer_of old)
      → OfInteger (IsMultipleOf n) (integer_of new)
  unfolding introduced_constraint is_no_multiple json_eq greater
  multiple-kept (number k) (number j) (i, c) (q, e) = elim (Bool-cases (int_beq j k)) [
    | inl same ↦ (q, e ∙ ap (λ m. magnitude m * q) ((int_beq_iff j k).0 same))
    | inr other ↦ has_remainder-divides (magnitude j) (magnitude k) q (c other refl refl).1 e
  ]
  multiple-kept (number k) (bool b) (i, c) (q, e) =
      elim (Bool-cases (int_beq (number_of_bool b) k)) [
        | inl same ↦ (q, e ∙ ap (λ m. magnitude m * q) ((int_beq_iff (number_of_bool b) k).0 same))
        | inr other ↦
            has_remainder-divides (magnitude (number_of_bool b)) (magnitude k) q
              (c other refl refl).1 e
      ]
  multiple-kept (bool a) (number j) (i, c) (q, e) =
      elim (Bool-cases (int_beq j (number_of_bool a))) [
        | inl same ↦ (q, e ∙ ap (λ m. magnitude m * q) ((int_beq_iff j (number_of_bool a)).0 same))
        | inr other ↦
            has_remainder-divides (magnitude j) (magnitude (number_of_bool a)) q
              (c other refl refl).1 e
      ]
  multiple-kept (bool a) (bool b) (i, c) (q, e) =
      elim (Bool-cases (int_beq (number_of_bool b) (number_of_bool a))) [
        | inl same ↦ (
          q,
          e
              ∙ ap (λ m. magnitude m * q)
                  ((int_beq_iff (number_of_bool b) (number_of_bool a)).0 same),
        )
        | inr other ↦
            has_remainder-divides (magnitude (number_of_bool b)) (magnitude (number_of_bool a)) q
              (c other refl refl).1 e
      ]
  multiple-kept (number k) null (i, c) h = absurd (ground (arith, i))
  multiple-kept (bool a) null (i, c) h = absurd (ground (arith, i))
  multiple-kept (number k) old (i, c) h = absurd (ground (arith, (c refl refl refl).0))
  multiple-kept (bool a) old (i, c) h = absurd (ground (arith, (c refl refl refl).0))
  multiple-kept _ old k h = tt

-- a check of `multiple` that leaves the result compatible
pub check_multiple-Passes :
    (new old : JsonValue) (location : Location)
    → Passes (check_multiple new old location) (MultipleKept new old)
unfolding check_multiple ne
check_multiple-Passes new old location =
    weaker-Passes _ _ _
      (then-Passes _ _ _ _ (when-Passes ⊥ _ _ (add-Passes _ _)) (
        with_value-Passes _ (ne new old) _ (λ changed. when-Passes _ _ _ (
          with_value-Passes _ (greater new old) _ (λ larger. if-Passes ⊥ _ _ _ _ (add-Passes _ _) (
            with_value-Passes _ (is_no_multiple old new) _
              (λ b. when-Passes ⊥ _ _ (add-Passes _ _))))))))
      (λ both. (is_false both.0, λ j a b. passed (both.1.2 (changed both.1.0 both.1.1 j a b))))
  where
    is_false : {b : Bool} → (b ≡ true → ⊥) → b ≡ false
    is_false h = ground (arith, h)

    changed :
        (x : Bool)
        → ne new old ≡ ok x
        → json_eq old new ≡ false
        → is_null new ≡ false
        → is_null old ≡ false
        → x ≡ true
    changed x e j a b = ground (arith, e, j, a, b)

    passed :
        (x : Bool) × (greater new old ≡ ok x)
          × ((x ≡ true → ⊥)
              × (x ≡ false → (y : Bool) × (is_no_multiple old new ≡ ok y) × (y ≡ true → ⊥)))
        → (greater new old ≡ ok false) × (is_no_multiple old new ≡ ok false)
    passed (x, e, (up, down)) =
        let rest = down (is_false up) in (e ∙ ap ok (is_false up), rest.1 ∙ ap ok (is_false rest.2))
