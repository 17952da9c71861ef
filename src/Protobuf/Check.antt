-- ===== src/Protobuf/Check.antt =====
-- The comparison of two Protobuf files: `ProtoFileElement.compare` with the types of the dependencies, of
-- src/karapace/core/protobuf/proto_file_element.py, `ProtobufSchema.compare` of schema.py, and
-- `check_protobuf_schema_compatibility` of src/karapace/core/compatibility/protobuf/checks.py.
pub mod Verdicts
use karapace.Prelude.{
  ℕ, Bool, true, false, not, Option, none, some, get_or, if◌then◌else◌, List, [], ◌∷◌, ◌++◌, map,
  String, string_eq, option_eq, ◌==◌, elem, select,
}
use karapace.Outcome.{Result, ok, err}
use karapace.Protobuf.Elements.{
  TypeElement, TypeElements, ProtoFileElement, ProtobufDependency, ProtobufDependencies,
  with_dependencies, without_dependencies, no_more, one_more,
}
use karapace.Protobuf.Comparison.{
  Modification, package_alter, syntax_alter, compatible_modification, ModificationRecord,
  Comparison, Compare, done, fail, ◌>>=◌, ◌>>◌, for_each, add_modification, add_when,
  compatible_result,
}
use karapace.Protobuf.TypeStorage.{add_self_type, add_other_type}
use karapace.Protobuf.Messages.{elements, compare_type_lists, compare_element}

-- `ProtobufSchema`: a parsed file, and its dependencies unless they are `None`
pub record ProtobufSchema : Type 0 where
  pub proto_file_element : ProtoFileElement
  pub dependencies : Option ProtobufDependencies

abbrev pub add_all : Bool → Option String → List TypeElement → Comparison → Comparison
add_all is_self package_name [] c = c
add_all true package_name (t ∷ types) c =
    add_all true package_name types (add_self_type package_name t c)
add_all false package_name (t ∷ types) c =
    add_all false package_name types (add_other_type package_name t c)

abbrev pub add_file : Bool → ProtoFileElement → Comparison → Comparison
add_file is_self file = add_all is_self file.package_name (elements file.types)

-- `_collect_dependencies_types`. A file without dependencies ends the loop.
unfoldable mutual
  unfolding karapace.Protobuf.TypeStorage.add_a_type

  pub collect : Bool → ProtobufDependencies → Comparison → Comparison
  collect is_self no_more c = c
  collect is_self (one_more d rest) c = collect_one is_self d (collect is_self rest) c

  pub collect_one : Bool → ProtobufDependency → (Comparison → Comparison) → Comparison → Comparison
  collect_one is_self (without_dependencies file) go_on c = add_file is_self file c
  collect_one is_self (with_dependencies file deps) go_on c =
      go_on (collect is_self deps (add_file is_self file c))

abbrev pub collect_if_any : Bool → Option ProtobufDependencies → Comparison → Comparison
collect_if_any is_self none c = c
collect_if_any is_self (some deps) c = collect is_self deps c

-- `CompareTypes.__init__` with the result so far, and then the dependencies
abbrev pub compare_types : ProtobufSchema → ProtobufSchema → List ModificationRecord → Comparison
compare_types self other result = collect_if_any false other.dependencies (
    collect_if_any true self.dependencies (record {
      result = result;
      path = [];
      canonical_name = [];
      self_package_name = get_or self.proto_file_element.package_name "";
      other_package_name = get_or other.proto_file_element.package_name "";
      self_types = [];
      other_types = [];
      locked_messages = [];
    }))

-- the two tests at the start of `ProtoFileElement.compare`
abbrev pub file_modifications : ProtoFileElement → ProtoFileElement → List ModificationRecord
file_modifications self other =
    map (λ (m : Modification). record { modification = m; path = "" })
      ((if self.package_name == other.package_name then [] else package_alter ∷ [])
        ++ (if self.syntax == other.syntax then [] else syntax_alter ∷ []))

-- `ProtobufSchema.compare`, on a new `CompareResult`
unfoldable pub compare_schema : ℕ → ProtobufSchema → ProtobufSchema → Result (Unit {0}) × Comparison
unfolding collect compare_element
compare_schema fuel self other =
    let file = self.proto_file_element in
    let other_file = other.proto_file_element in
    compare_type_lists (compare_element fuel) file.types other_file.types
      (compare_types self other (file_modifications file other_file))

-- the verdict of `check_protobuf_schema_compatibility`, with the incompatible modifications and the set of
-- their places; a message says which modification it is
pub record Verdict : Type 0 where
  pub is_compatible : Bool
  pub incompatibilities : List Modification
  pub locations : List String

abbrev pub add_location : String → List String → List String
add_location path locations = if elem path locations then locations else locations ++ path ∷ []

-- the loop over the records
unfoldable pub gather : List ModificationRecord → List Modification → List String → Verdict
gather [] found locations = record {
  is_compatible = false;
  incompatibilities = found;
  locations = locations;
}
gather (r ∷ records) found locations =
    if compatible_modification r.modification
    then gather records found locations
    else gather records (found ++ r.modification ∷ []) (add_location r.path locations)

unfoldable pub verdict_of : List ModificationRecord → Verdict
unfolding gather
verdict_of result =
    if compatible_result result
    then record { is_compatible = true; incompatibilities = []; locations = [] }
    else gather result [] []

-- `check_protobuf_schema_compatibility`: the writer is compared with the reader.
unfoldable pub check_protobuf_schema_compatibility :
    ℕ → ProtobufSchema → ProtobufSchema → Result Verdict
unfolding compare_schema verdict_of
check_protobuf_schema_compatibility fuel reader writer =
    let out = compare_schema fuel writer reader in
    elim out.0 [ ok u ↦ ok (verdict_of out.1.result) | err x ↦ err x ]
