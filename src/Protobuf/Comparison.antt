-- ===== src/Protobuf/Comparison.antt =====
-- src/karapace/core/protobuf/compare_result.py, and the state of a comparison: the fields of
-- `CompareResult`, and those of the `CompareTypes` of compare_type_storage.py that goes with it.
use karapace.Prelude.{Bool, true, false, Option, List, [], ◌∷◌, ◌++◌, String, all_of}
use karapace.Dict.{Dict}
use karapace.Outcome.{Error, Result, ok, err}
use karapace.Protobuf.Text.{dotted}
use karapace.Protobuf.Elements.{TypeElement}

pub data Modification : Type 0 where
  package_alter syntax_alter message_add message_drop message_move : Modification
  enum_constant_add enum_constant_alter enum_constant_drop enum_add enum_drop : Modification
  type_alter field_add field_drop field_move field_label_alter : Modification
  field_name_alter field_kind_alter field_type_alter field_tag_alter : Modification
  one_of_add one_of_drop one_of_move one_of_field_add one_of_field_drop : Modification
  one_of_field_move few_fields_converted_to_one_of : Modification

-- `Modification.is_compatible`
abbrev pub compatible_modification : Modification → Bool
compatible_modification message_move = false
compatible_modification message_drop = false
compatible_modification field_label_alter = false
compatible_modification field_kind_alter = false
compatible_modification field_type_alter = false
compatible_modification field_tag_alter = false
compatible_modification one_of_field_drop = false
compatible_modification few_fields_converted_to_one_of = false
compatible_modification _ = true

-- `ModificationRecord`; its message says whether the modification is compatible, and names it
pub record ModificationRecord : Type 0 where
  pub modification : Modification
  pub path : String

-- `TypeRecord`
pub record TypeRecord : Type 0 where
  pub package_name : Option String
  pub type_element : TypeElement

-- `CompareResult` (the first three fields) and `CompareTypes`
pub record Comparison : Type 0 where
  pub result : List ModificationRecord
  pub path : List String
  pub canonical_name : List String
  pub self_package_name : String
  pub other_package_name : String
  pub self_types : Dict String TypeRecord
  pub other_types : Dict String TypeRecord
  pub locked_messages : List TypeElement

-- what reads and changes a comparison, and may raise; the changes made before stay
abbrev pub Compare : Type 0 → Type 0
Compare A = Comparison → Result A × Comparison

abbrev pub done : Compare (Unit {0})
done c = (ok tt, c)

abbrev pub fail : {A : Type 0} → Error → Compare A
fail x c = (err x, c)

abbrev pub attempt : {A : Type 0} → Result A → Compare A
attempt m c = (m, c)

abbrev pub look : {A : Type 0} → (Comparison → Result A) → Compare A
look f c = (f c, c)

abbrev go_on : {A B : Type 0} → Result A → (A → Compare B) → Compare B
go_on (ok a) f = f a
go_on (err x) f = fail x

infixl 5 ◌>>=◌ ◌>>◌
abbrev pub ◌>>=◌ : {A B : Type 0} → Compare A → (A → Compare B) → Compare B
◌>>=◌ m f c = let out = m c in go_on out.0 f out.1

abbrev pub ◌>>◌ : {A B : Type 0} → Compare A → Compare B → Compare B
m >> k = m >>= λ _. k

-- a loop over a list
abbrev pub for_each : {A : Type 0} → List A → (A → Compare (Unit {0})) → Compare (Unit {0})
for_each [] f = done
for_each (a ∷ rest) f = f a >> for_each rest f

-- all but the last, `list.pop()`; no list is popped that was not pushed to
abbrev pub but_last : {A : Type 0} → List A → List A
but_last [] = []
but_last (a ∷ []) = []
but_last (a ∷ b ∷ rest) = a ∷ but_last (b ∷ rest)

-- `push_path` and `pop_path`, of a path and of a canonical name
abbrev pub push_path : String → Compare (Unit {0})
push_path name c = (ok tt, record c { path = c.path ++ name ∷ [] })

abbrev pub push_canonical : String → Compare (Unit {0})
push_canonical name c =
    (ok tt, record c { path = c.path ++ name ∷ []; canonical_name = c.canonical_name ++ name ∷ [] })

abbrev pub pop_path : Compare (Unit {0})
pop_path c = (ok tt, record c { path = but_last c.path })

abbrev pub pop_canonical : Compare (Unit {0})
pop_canonical c =
    (ok tt, record c { path = but_last c.path; canonical_name = but_last c.canonical_name })

-- `".".join(names)`
unfoldable pub join : List String → String
unfolding dotted
join [] = ""
join (a ∷ []) = a
join (a ∷ b ∷ names) = dotted a (join (b ∷ names))

-- `add_modification`
unfoldable pub add_modification : Modification → Compare (Unit {0})
unfolding join
add_modification m c =
    (ok tt, record c { result = c.result ++ record { modification = m; path = join c.path } ∷ [] })

-- `add_modification` under a condition
abbrev pub add_when : Bool → Modification → Compare (Unit {0})
add_when true m = add_modification m
add_when false m = done

-- `CompareResult.is_compatible`
abbrev pub compatible_result : List ModificationRecord → Bool
compatible_result = all_of (λ r. compatible_modification r.modification)
