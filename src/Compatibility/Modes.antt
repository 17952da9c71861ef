-- ===== src/Compatibility/Modes.antt =====
-- What each compatibility mode asks for, and the texts of the modes.
use karapace.Prelude.{◌≡◌, ◌≢◌, ◌↔◌, refl, false, ◌||◌, some, arith}
use karapace.Schema.{type_eq}
use karapace.Compatibility.{
  CompatibilityMode, backward, forward, full, no_check, mode_of, mode_value,
  SchemaCompatibilityResult, is_incompatible, ParsedTypedSchema, Checkers, check_compatibility,
}

-- A mode read from its own text is the mode.
pub mode_of-mode_value : (m : CompatibilityMode) → mode_of (mode_value m) ≡ some m
unfolding mode_of mode_value
mode_of-mode_value backward = refl
mode_of-mode_value _ = refl

module _ {S : Type 0} (c : Checkers S) (old new : ParsedTypedSchema S) where
  -- A change is forward compatible exactly when the reverse change is backward compatible.
  forward-eq-backward_reversed :
      is_incompatible (check_compatibility c old new forward)
      ≡ is_incompatible (check_compatibility c new old backward)
  unfolding check_compatibility
  forward-eq-backward_reversed = ground (
    arith,
    type_eq.beq_iff old.typed.schema_type new.typed.schema_type,
    type_eq.beq_iff new.typed.schema_type old.typed.schema_type,
  )

  -- If `merge` joins verdicts, full compatibility fails exactly when backward or forward compatibility
  -- does.
  pub full-eq-both :
      ((a b : SchemaCompatibilityResult)
        → is_incompatible (c.merge a b) ≡ (is_incompatible a || is_incompatible b))
      → is_incompatible (check_compatibility c old new full) ≡ (
          is_incompatible (check_compatibility c old new backward)
          || is_incompatible (check_compatibility c old new forward))
  unfolding check_compatibility
  full-eq-both joins = grind (arith, joins)

  -- Schemas of different types are incompatible in every mode but NONE, and NONE accepts any two.
  type_mismatch-incompatible :
      (m : CompatibilityMode)
      → old.typed.schema_type ≢ new.typed.schema_type
      → (is_incompatible (check_compatibility c old new m) ≡ false) ↔ (m ≡ no_check)
  unfolding check_compatibility
  type_mismatch-incompatible no_check differ = ground arith
  type_mismatch-incompatible _ differ =
      ground (arith, type_eq.beq_iff old.typed.schema_type new.typed.schema_type)
