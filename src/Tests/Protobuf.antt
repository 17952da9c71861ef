-- ===== src/Tests/Protobuf.antt =====
-- Protobuf schemas and varints.
use karapace.Prelude.{ℕ, ◌≡◌, refl, false, none, some, List, [], ◌∷◌, ◌++◌, pos, arith, String}
use karapace.Outcome.{Returns, ok, err, type_error}
use karapace.Protobuf.Varint.{read_varint, read_indexes, varint_bytes, write_varint}
use karapace.Protobuf.Varint.RoundTrip.{indexes_bytes, read_indexes-indexes_bytes}
use karapace.Protobuf.Varint.Bounds.{ReadsBelow, read_varint-ReadsBelow}
use karapace.Protobuf.Elements.{
  FieldElement, Header, TypeElement, message_element, enum_element, nil, cons, TypeElements,
}
use karapace.Protobuf.Comparison.{ModificationRecord, field_kind_alter, message_drop, field_add}
use karapace.Protobuf.Check.{ProtobufSchema, check_protobuf_schema_compatibility}
use karapace.Protobuf.Terminates.Files.{
  Refuses, check_protobuf_schema_compatibility-Returns, check_protobuf_schema_compatibility-Refuses,
}

abbrev field : String → String → ℕ → FieldElement
field element_type name tag = record {
  label = none;
  element_type = element_type;
  name = name;
  tag = pos tag;
}

abbrev header_of : ℕ → String → Header
header_of location name = record {
  location = location;
  name = name;
  documentation = "";
  options = [];
}

abbrev color : TypeElement
color = enum_element (header_of 1 "Color") (record { name = "RED"; tag = pos 0 } ∷ [])

-- a message that holds itself, an enum and a map
abbrev tree_with : String → TypeElement
tree_with amount =
    message_element (header_of 2 "Tree")
      (field "Tree" "left" 1
        ∷ field "Color" "color" 2
        ∷ field amount "amount" 3
        ∷ field "map<string, Tree>" "trees" 4
        ∷ [])
      [] nil

abbrev schema_of : TypeElements → ProtobufSchema
schema_of types = record {
  proto_file_element = record { package_name = some "shop"; syntax = some "proto3"; types = types };
  dependencies = none;
}

abbrev writer : ProtobufSchema
writer = schema_of (cons color (cons (tree_with "int32") nil))

abbrev reader : ProtobufSchema
reader = schema_of (cons (tree_with "string") nil)

check_protobuf_schema_compatibility-Returns_example :
    Returns (check_protobuf_schema_compatibility 3 reader writer)
unfolding karapace.Protobuf.Locks.inner_all
check_protobuf_schema_compatibility-Returns_example =
    check_protobuf_schema_compatibility-Returns 3 reader writer (omega arith)

-- the reader has no `Color`, and another type of `amount`
tree_incompatible :
    check_protobuf_schema_compatibility 3 reader writer
    ≡ ok (record {
      is_compatible = false;
      incompatibilities = field_kind_alter ∷ field_kind_alter ∷ [];
      locations = "Tree.2" ∷ "Tree.3" ∷ [];
    })
unfolding check_protobuf_schema_compatibility karapace.Protobuf.Text.drop_first
    karapace.Protobuf.Text.strip karapace.Protobuf.Text.drop_last
tree_incompatible = refl

abbrev some_records : List ModificationRecord
some_records =
    record { modification = field_add; path = "Tree.5" }
    ∷ record { modification = field_kind_alter; path = "Tree.3" }
    ∷ record { modification = message_drop; path = "Color" }
    ∷ []

read_indexes-indexes_bytes_example :
    read_indexes (varint_bytes 1 2 ++ (indexes_bytes 1 (0 ∷ 300 ∷ []) ++ 7 ∷ []))
    ≡ (ok (0 ∷ 300 ∷ []), 7 ∷ [])
read_indexes-indexes_bytes_example =
    read_indexes-indexes_bytes 1 (0 ∷ 300 ∷ []) (7 ∷ []) (omega arith)
      (omega arith, (omega arith, tt))

read_varint-ReadsBelow_example : ReadsBelow 0 (172 ∷ 2 ∷ 9 ∷ []) (read_varint (172 ∷ 2 ∷ 9 ∷ []))
read_varint-ReadsBelow_example = read_varint-ReadsBelow (172 ∷ 2 ∷ 9 ∷ [])

three_hundred : read_varint (172 ∷ 2 ∷ 9 ∷ []) ≡ (ok 300, 9 ∷ [])
unfolding karapace.Protobuf.Varint.read_varint_from
three_hundred = refl

no_one : write_varint [] (pos 1) ≡ (err type_error, [])
unfolding write_varint
no_one = refl

-- a reader with the enum alone
abbrev colors_only : ProtobufSchema
colors_only = schema_of (cons color nil)

check_protobuf_schema_compatibility-Refuses_example :
    Refuses (check_protobuf_schema_compatibility 3 colors_only writer)
unfolding karapace.Protobuf.Locks.inner_all karapace.Dict.get karapace.Dict.set
check_protobuf_schema_compatibility-Refuses_example =
    check_protobuf_schema_compatibility-Refuses 3 colors_only writer "Tree" (omega arith) refl refl
