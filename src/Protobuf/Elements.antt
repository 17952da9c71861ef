-- ===== src/Protobuf/Elements.antt =====
-- The elements of a parsed Protobuf file, of src/karapace/core/protobuf/*_element.py, with the fields
-- that a comparison reads. Two `Location`s, or two `OptionElement`s, are equal if they are one object:
-- they stand as numbers that tell the objects apart.
use karapace.Prelude.{
  ℕ, Bool, true, false, ◌&&◌, Option, List, String, ℤ, nat_eq, string_eq, int_eq, list_eq, ◌==◌,
}

-- `Field.Label`
pub data Label : Type 0 where
  optional required repeated one_of : Label

pub record FieldElement : Type 0 where
  pub label : Option Label
  pub element_type : String
  pub name : String
  pub tag : ℤ

pub record OneOfElement : Type 0 where
  pub name : String
  pub fields : List FieldElement

pub record EnumConstantElement : Type 0 where
  pub name : String
  pub tag : ℤ

-- the fields that `TypeElement` gives to messages and enums, less the nested types
pub record Header : Type 0 where
  pub location : ℕ
  pub name : String
  pub documentation : String
  pub options : List ℕ

mutual
  -- `MessageElement` and `EnumElement`
  pub data TypeElement : Type 0 where
    message_element : Header → List FieldElement → List OneOfElement → TypeElements → TypeElement
    enum_element : Header → List EnumConstantElement → TypeElement

  pub data TypeElements : Type 0 where
    nil : TypeElements
    cons : TypeElement → TypeElements → TypeElements

abbrev pub header : TypeElement → Header
header (message_element h fields one_ofs nested) = h
header (enum_element h constants) = h

-- An enum has no nested types.
abbrev pub nested_types : TypeElement → TypeElements
nested_types (message_element h fields one_ofs nested) = nested
nested_types (enum_element h constants) = nil

abbrev pub is_enum_element : TypeElement → Bool
is_enum_element (message_element h fields one_ofs nested) = false
is_enum_element (enum_element h constants) = true

abbrev pub header_beq : Header → Header → Bool
header_beq a b =
    a.location == b.location
    && a.name == b.name
    && a.documentation == b.documentation
    && a.options == b.options

-- `==` of two type elements, which the data class `TypeElement` defines for messages and enums: it reads
-- neither the fields nor the constants
unfoldable mutual
  pub element_beq : TypeElement → TypeElement → Bool
  element_beq (message_element h fields one_ofs nested)
        (message_element h' fields' one_ofs' nested') =
      header_beq h h' && elements_beq nested nested'
  element_beq (enum_element h constants) (enum_element h' constants') = header_beq h h'
  element_beq (message_element h fields one_ofs nested) (enum_element h' constants') = false
  element_beq (enum_element h constants) (message_element h' fields' one_ofs' nested') = false

  pub elements_beq : TypeElements → TypeElements → Bool
  elements_beq nil nil = true
  elements_beq nil (cons u us) = false
  elements_beq (cons t ts) nil = false
  elements_beq (cons t ts) (cons u us) = element_beq t u && elements_beq ts us

-- the fields of `ProtoFileElement` that a comparison reads
pub record ProtoFileElement : Type 0 where
  pub package_name : Option String
  pub syntax : Option String
  pub types : TypeElements

-- `dep.schema.schema` of the values of the dependencies: a file, and its own dependencies unless they
-- are `None`
mutual
  pub data ProtobufDependency : Type 0 where
    without_dependencies : ProtoFileElement → ProtobufDependency
    with_dependencies : ProtoFileElement → ProtobufDependencies → ProtobufDependency

  pub data ProtobufDependencies : Type 0 where
    no_more : ProtobufDependencies
    one_more : ProtobufDependency → ProtobufDependencies → ProtobufDependencies
