-- ===== src/Protobuf/Terminates/Elements.antt =====
-- Steps of the comparison of two type elements of src/karapace/core/protobuf.
use karapace.Prelude.{
  sym, ℕ, zero, suc, ◌≡◌, refl, ap, ◌∙◌, inl, inr, true, false, List, [], ◌∷◌, ◌++◌, arith,
  string_eq, int_eq, Bool-cases,
}
use karapace.Outcome.{Result, ok, err}
use karapace.Protobuf.Elements.{
  FieldElement, OneOfElement, Header, TypeElement, TypeElements, message_element, enum_element,
}
use karapace.Protobuf.Locks.{Within, inner}
use karapace.Protobuf.Comparison.{compatible_result, Comparison, Compare, done, ◌>>◌, type_alter}
use karapace.Protobuf.Safe.{compatible-before, Inside, Ends, Safe, Any, add_modification-Safe}
use karapace.Protobuf.Messages.{compare_parts, compare_message_element, compare_element}
use karapace.Protobuf.Terminates.Types.{compare_parts-Safe}
use karapace.Protobuf.Locks.{is_locked-append, without_first-lock, unlocked-lock, element_beq_refl}
use karapace.Protobuf.TypeStorage.{is_locked, without_first, lock_message, unlock_message}
use karapace.Protobuf.Check.Verdicts.{compare_enum-Harmless}

-- a message that was locked is unlocked at the end, and the locks are as before
unlock-Ends :
    (us : List TypeElement) (self : TypeElement) (c c' : Comparison)
    (out : Result (Unit {0}) × Comparison)
    → is_locked self c.locked_messages ≡ false
    → c'.locked_messages ≡ c.locked_messages ++ self ∷ []
    → c'.result ≡ c.result
    → Ends us Any c' out
    → Ends us Any c (((λ (d : Comparison). out) >> unlock_message self >> done) c')
unfolding unlock_message
unlock-Ends us self c c' (err x, d) free locked recorded e = e
unlock-Ends us self c c' (ok u, d) free locked recorded (p, inside, same, kept) =
    let now : d.locked_messages ≡ c.locked_messages ++ self ∷ [] = same ∙ locked in
    let held : is_locked self d.locked_messages ≡ true =
      ap (is_locked self) now
      ∙ is_locked-append self self c.locked_messages
      ∙ ground (arith, element_beq_refl self) in
    rw held (
      tt,
      inside,
      ap (without_first self) now ∙ without_first-lock self c.locked_messages free,
      λ r. ap compatible_result (sym recorded) ∙ kept r,
    )

module _ (us : List TypeElement) where
  message-Ends :
      (h h' : Header) (fields : List FieldElement) (one_ofs : List OneOfElement)
      (nested : TypeElements) (other_fields : List FieldElement) (other_one_ofs : List OneOfElement)
      (other_nested : TypeElements) (visit : TypeElement → TypeElement → Compare (Unit {0}))
      (c : Comparison)
      → (let self = message_element h fields one_ofs nested in
          let c' = record c { locked_messages = c.locked_messages ++ self ∷ [] } in
          (is_locked self c.locked_messages ≡ false
            → Ends us Any c' (
                compare_parts visit fields one_ofs nested other_fields other_one_ofs other_nested
                  c'))
          → Inside us c.self_types
          → Ends us Any c (
              compare_message_element visit h fields one_ofs nested
                (message_element h' other_fields other_one_ofs other_nested)
                c))
  unfolding compare_message_element lock_message
  message-Ends h h' fields one_ofs nested other_fields other_one_ofs other_nested visit c parts
        inside =
      let self = message_element h fields one_ofs nested in
      let locked = record c { locked_messages = c.locked_messages ++ self ∷ [] } in
      elim (Bool-cases (is_locked self c.locked_messages)) [
        | inl e ↦ rw e (tt, inside, refl, λ r. r)
        | inr e ↦ rw e (unlock-Ends us self c locked _ e refl refl (parts e))
      ]

  pub compare_element-Safe :
      (k : ℕ) (t u : TypeElement) → Within us t → Safe us k Any (compare_element (suc k) t u)
  unfolding compare_element inner
  compare_element-Safe k (enum_element h constants) u w c inside g =
      let (new, e, harmless) = compare_enum-Harmless constants u c in
      rw e (tt, inside, refl, compatible-before c.result new)
  compare_element-Safe k (message_element h fields one_ofs nested) (enum_element h' constants) w c
        inside g =
      add_modification-Safe us k type_alter c inside g
  compare_element-Safe zero (message_element h fields one_ofs nested)
        (message_element h' other_fields other_one_ofs other_nested) (w, ws) c inside g =
      message-Ends h h' fields one_ofs nested other_fields other_one_ofs other_nested _ c
        (λ free. absurd (omega (arith, g, unlocked-lock c.locked_messages w free))) inside
  compare_element-Safe (suc k) (message_element h fields one_ofs nested)
        (message_element h' other_fields other_one_ofs other_nested) (w, ws) c inside g =
      message-Ends h h' fields one_ofs nested other_fields other_one_ofs other_nested _ c
        (λ free.
          compare_parts-Safe us k (compare_element (suc k)) (compare_element-Safe k) fields one_ofs
            nested other_fields other_one_ofs other_nested ws _ inside
            (omega (arith, g, unlocked-lock c.locked_messages w free)))
        inside
