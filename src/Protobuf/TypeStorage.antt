-- ===== src/Protobuf/TypeStorage.antt =====
-- src/karapace/core/protobuf/compare_type_storage.py: the types by their full names, how the name of a
-- field's type is found among them, and the locks. `TypeRecordMap` is left out: it is made only where the
-- text "map_entry" is one of the options, which are no texts.
use karapace.Prelude.{
  ℕ, zero, suc, ◌+◌, Bool, true, false, Option, none, some, List, [], ◌∷◌, ◌++◌, String, string_eq,
  ◌==◌, any_of, length, if◌then◌else◌,
}
use karapace.Dict.{Dict, get, set, contains}
use karapace.Outcome.{illegal_argument, Result, ok, err}
use karapace.Protobuf.Text.{chars, dotted, starts_with, drop_first}
use karapace.Protobuf.Elements.{
  TypeElement, TypeElements, message_element, enum_element, nil, cons, element_beq,
}
use karapace.Protobuf.Comparison.{TypeRecord, Comparison, Compare, but_last, join}

-- the loop of `compute_name`: from the innermost scope outwards. A round takes one name off, so there
-- are as many rounds as names.
unfoldable pub search_scopes : ℕ → String → List String → Dict String TypeRecord → Option String
unfolding get join dotted
search_scopes zero string scope types = none
search_scopes (suc n) string scope types =
    let pretender = dotted (join scope) string in
    let outer = search_scopes n string (but_last scope) types in
    if contains pretender types then some pretender else outer

abbrev pub or_plain : Option String → String → Dict String TypeRecord → Option String
or_plain (some name) string types = some name
or_plain none string types = if contains string types then some string else none

-- `compute_name`
unfoldable pub compute_name : String → List String → String → Dict String TypeRecord → Option String
unfolding search_scopes
compute_name string result_path package_name types =
    if starts_with "." string
    then (if contains (drop_first 1 string) types then some (drop_first 1 string) else none)
    else (let scope = if package_name == "" then result_path else package_name ∷ result_path in
        or_plain (search_scopes (length scope) string scope types) string types)

-- the name of a type below a prefix, if that is not empty
abbrev pub prefixed : Option String → String → String
prefixed none name = name
prefixed (some prefix) name = if prefix == "" then name else dotted prefix name

-- `add_a_type`, and its loop over the nested types
unfoldable mutual
  unfolding set

  pub add_a_type :
      Option String → Option String → TypeElement → Dict String TypeRecord → Dict String TypeRecord
  add_a_type prefix package_name (message_element h fields one_ofs nested) types =
      let name = prefixed prefix h.name in
      add_types (some name) package_name nested (
        set name
          (record {
            package_name = package_name;
            type_element = message_element h fields one_ofs nested;
          })
          types)
  add_a_type prefix package_name (enum_element h constants) types =
      set (prefixed prefix h.name)
        (record { package_name = package_name; type_element = enum_element h constants }) types

  pub add_types :
      Option String → Option String → TypeElements → Dict String TypeRecord → Dict String TypeRecord
  add_types prefix package_name nil types = types
  add_types prefix package_name (cons t ts) types =
      add_types prefix package_name ts (add_a_type prefix package_name t types)

-- `add_self_type`, `add_other_type`
abbrev pub add_self_type : Option String → TypeElement → Comparison → Comparison
add_self_type package_name t c = record c {
  self_types = add_a_type package_name package_name t c.self_types;
}

abbrev pub add_other_type : Option String → TypeElement → Comparison → Comparison
add_other_type package_name t c = record c {
  other_types = add_a_type package_name package_name t c.other_types;
}

abbrev pub record_at : Option String → Dict String TypeRecord → Option TypeRecord
record_at none types = none
record_at (some name) types = get name types

-- `get_self_type`, `get_other_type`
unfoldable pub get_self_type : String → Comparison → Option TypeRecord
unfolding compute_name get
get_self_type string c =
    record_at (compute_name string c.path c.self_package_name c.self_types) c.self_types

unfoldable pub get_other_type : String → Comparison → Option TypeRecord
unfolding compute_name get
get_other_type string c =
    record_at (compute_name string c.path c.other_package_name c.other_types) c.other_types

-- a full name without its package
abbrev pub without_package : String → Option String → String
without_package name none = name
without_package name (some package_name) =
    if starts_with package_name name then drop_first (chars package_name + 1) name else name

abbrev package_of : Option TypeRecord → Option String
package_of none = none
package_of (some r) = r.package_name

-- `self_type_short_name` and `other_type_short_name`, of the computed name
unfoldable pub short_name : Option String → Dict String TypeRecord → Result String
unfolding get
short_name none types = err illegal_argument
short_name (some name) types = ok (without_package name (package_of (get name types)))

abbrev pub self_type_short_name : String → Comparison → Result String
self_type_short_name string c =
    short_name (compute_name string c.path c.self_package_name c.self_types) c.self_types

abbrev pub other_type_short_name : String → Comparison → Result String
other_type_short_name string c =
    short_name (compute_name string c.path c.other_package_name c.other_types) c.other_types

abbrev pub is_locked : TypeElement → List TypeElement → Bool
is_locked message = any_of (λ t. element_beq t message)

abbrev pub without_first : TypeElement → List TypeElement → List TypeElement
without_first message [] = []
without_first message (t ∷ ts) =
    let rest = without_first message ts in if element_beq t message then ts else t ∷ rest

-- `lock_message`
unfoldable pub lock_message : TypeElement → Compare Bool
unfolding element_beq
lock_message message c =
    if is_locked message c.locked_messages
    then (ok false, c)
    else (ok true, record c { locked_messages = c.locked_messages ++ message ∷ [] })

-- `unlock_message`
unfoldable pub unlock_message : TypeElement → Compare Bool
unfolding element_beq
unlock_message message c =
    if is_locked message c.locked_messages
    then (ok true, record c { locked_messages = without_first message c.locked_messages })
    else (ok false, c)
