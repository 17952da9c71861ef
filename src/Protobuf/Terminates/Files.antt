-- ===== src/Protobuf/Terminates/Files.antt =====
-- The comparison of two Protobuf files of src/karapace/core/protobuf, and the check of
-- src/karapace/core/compatibility/protobuf/checks.py.
use karapace.Prelude.{
  ◌≡◌, ◌∙◌, ap, String, ℕ, zero, suc, ◌<◌, ◌≤◌, sym, subst, true, false, Option, none, some, List,
  [], ◌∷◌, arith, string_eq, int_eq, All, length,
}
use mathlib.Core.List.{Memᴰ}
use karapace.Dict.{get}
use karapace.Outcome.{Finishes, Returns, Result, ok, err}
use karapace.Protobuf.Elements.{
  ProtobufDependencies, Header, FieldElement, OneOfElement, TypeElement, TypeElements,
  message_element,
}
use karapace.Protobuf.Locks.{unlocked, inner_all, AllWithin}
use karapace.Protobuf.Comparison.{Comparison}
use karapace.Protobuf.Check.{
  Verdict, verdict_of, check_protobuf_schema_compatibility, ProtobufSchema, collect, collect_if_any,
  compare_types, file_modifications, compare_schema,
}
use karapace.Protobuf.Safe.{Inside, Ends, Any}
use karapace.Protobuf.Messages.{compare_element}
use karapace.Protobuf.Terminates.Types.{All-left, All-right, compare_type_lists-Safe}
use karapace.Protobuf.Check.Verdicts.{compatible-none, verdict_of-incompatible_records}
use karapace.Protobuf.Terminates.Drops.{SpoilEnds, type_at, compare_type_lists-drops}
use karapace.Protobuf.Terminates.Elements.{compare_element-Safe}
use karapace.Protobuf.Terminates.Dependencies.{
  all_types, types_if_any, All-Memᴰ, collect-Inside, collect-self_types,
}

unlocked-length : (us locked : List TypeElement) → unlocked us locked ≤ length us
unlocked-length [] locked = omega arith
unlocked-length (u ∷ us) locked = ground (arith, unlocked-length us locked)

collect_if_any-Inside :
    (us : List TypeElement) (deps other_deps : Option ProtobufDependencies) (c : Comparison)
    → All (λ u. Memᴰ u us) (types_if_any deps)
    → Inside us c.self_types
    → Inside us (collect_if_any false other_deps (collect_if_any true deps c)).self_types
collect_if_any-Inside us none none c ws inside = inside
collect_if_any-Inside us (some deps) none c ws inside = collect-Inside us deps c ws inside
collect_if_any-Inside us none (some others) c ws inside =
    subst (Inside us) (sym (collect-self_types others c)) inside
collect_if_any-Inside us (some deps) (some others) c ws inside =
    subst (Inside us) (sym (collect-self_types others (collect true deps c)))
      (collect-Inside us deps c ws inside)

Ends-Returns :
    (us : List TypeElement) (c : Comparison) (out : Result (Unit {0}) × Comparison)
    → Ends us Any c out
    → Returns out.0
Ends-Returns us c (ok u, d) e = tt
Ends-Returns us c (err x, d) e = e

-- the state in which the lists of types of two schemas are compared
abbrev start_of : ProtobufSchema → ProtobufSchema → Comparison
start_of self other =
    compare_types self other (file_modifications self.proto_file_element other.proto_file_element)

start_of-Inside :
    (self other : ProtobufSchema) → Inside (all_types self) (start_of self other).self_types
unfolding get
start_of-Inside self other =
    let us = all_types self in
    let types = inner_all self.proto_file_element.types in
    collect_if_any-Inside us self.dependencies other.dependencies _
      (All-right (λ u. Memᴰ u us) types (types_if_any self.dependencies) (All-Memᴰ us))
      λ name r e. absurd (ground (arith, e))

types-Within : (self : ProtobufSchema) → AllWithin (all_types self) self.proto_file_element.types
types-Within self =
    let us = all_types self in
    All-left (λ u. Memᴰ u us) (inner_all self.proto_file_element.types)
      (types_if_any self.dependencies) (All-Memᴰ us)

-- the same of the comparison of two schemas
compare_schema-Returns :
    (fuel : ℕ) (self other : ProtobufSchema)
    → length (all_types self) < fuel
    → Returns (compare_schema fuel self other).0
unfolding compare_schema
compare_schema-Returns zero self other h = absurd (omega (arith, h))
compare_schema-Returns (suc k) self other h =
    let us = all_types self in
    let start = start_of self other in
    Ends-Returns us start _ (
      compare_type_lists-Safe us k (compare_element (suc k)) (compare_element-Safe us k)
        self.proto_file_element.types other.proto_file_element.types (types-Within self) start
        (start_of-Inside self other) (omega (arith, h, unlocked-length us start.locked_messages)))

-- The check of a reader against a writer comes to a verdict, or raises an error of the code's, if there is
-- more fuel than types in the writer's file and in the files that it depends on.
pub check_protobuf_schema_compatibility-Returns :
    (fuel : ℕ) (reader writer : ProtobufSchema)
    → length (all_types writer) < fuel
    → Returns (check_protobuf_schema_compatibility fuel reader writer)
unfolding check_protobuf_schema_compatibility
check_protobuf_schema_compatibility-Returns fuel reader writer h =
    let out = compare_schema fuel writer reader in
    returned out.0 out.1 (compare_schema-Returns fuel writer reader h)
  where
    returned :
        (m : Result (Unit {0})) (c : Comparison)
        → Returns m
        → Returns {A = Verdict} (elim m [ ok u ↦ ok (verdict_of c.result) | err x ↦ err x ])
    returned (ok u) c h = tt
    returned (err x) c h = h

-- a check that finds the schemas incompatible, if no error of the code's stops it
abbrev pub Refuses : Result Verdict → Type 0
Refuses (ok v) = v.is_compatible ≡ false
Refuses (err x) = Finishes x

SpoilEnds-Refuses :
    (us : List TypeElement) (k : ℕ) (out : Result (Unit {0}) × Comparison)
    → SpoilEnds us k out
    → Refuses (elim out.0 [ ok u ↦ ok (verdict_of out.1.result) | err x ↦ err x ])
SpoilEnds-Refuses us k (err x, c) h = h
SpoilEnds-Refuses us k (ok u, c) (inside, h, spoiled) =
    ap (λ v. v.is_compatible) (verdict_of-incompatible_records c.result)
    ∙ sym (compatible-none c.result)
    ∙ spoiled

-- If the writer's file has a message of a name, the last type of it, and the reader's file has no type of
-- that name, then the check finds them incompatible or raises an error of the code's, given more fuel than
-- types in the writer's file and in the files that it depends on.
pub check_protobuf_schema_compatibility-Refuses :
    (fuel : ℕ) (reader writer : ProtobufSchema) (name : String) {h : Header}
    {fields : List FieldElement} {one_ofs : List OneOfElement} {nested : TypeElements}
    → length (all_types writer) < fuel
    → type_at name writer.proto_file_element.types ≡ some (message_element h fields one_ofs nested)
    → type_at name reader.proto_file_element.types ≡ none
    → Refuses (check_protobuf_schema_compatibility fuel reader writer)
unfolding check_protobuf_schema_compatibility compare_schema
check_protobuf_schema_compatibility-Refuses zero reader writer name g here gone =
    absurd (omega (arith, g))
check_protobuf_schema_compatibility-Refuses (suc k) reader writer name g here gone =
    let us = all_types writer in
    let start = start_of writer reader in
    SpoilEnds-Refuses us k _ (
      compare_type_lists-drops us k (compare_element (suc k)) (compare_element-Safe us k)
        writer.proto_file_element.types reader.proto_file_element.types name (types-Within writer)
        here gone start (start_of-Inside writer reader)
        (omega (arith, g, unlocked-length us start.locked_messages)))
