-- ===== src/Protobuf/Terminates/Dependencies.antt =====
-- The types that `_collect_dependencies_types` of src/karapace/core/protobuf/proto_file_element.py collects.
use karapace.Prelude.{
  ◌≡◌, refl, ◌∙◌, Bool, true, false, Option, none, some, List, [], ◌∷◌, ◌++◌, String, string_eq,
  int_eq, All,
}
use mathlib.Core.List.{Memᴰ}
use karapace.Protobuf.Elements.{
  ProtoFileElement, ProtobufDependency, ProtobufDependencies, with_dependencies,
  without_dependencies, no_more, one_more, TypeElement,
}
use karapace.Protobuf.Locks.{Within, AllWithin, inner, inner_all}
use karapace.Protobuf.Comparison.{Comparison}
use karapace.Protobuf.TypeStorage.{add_other_type}
use karapace.Protobuf.Check.{ProtobufSchema, add_all, add_file, collect, collect_one}
use karapace.Protobuf.Safe.{Inside}
use karapace.Protobuf.Messages.{elements}
use karapace.Protobuf.Terminates.Types.{
  All-left, All-right, All-map, elements-Within, add_a_type-Inside,
}

-- the types of the files of some dependencies, and all types in them
unfoldable mutual
  unfolding inner

  pub dependency_types : ProtobufDependencies → List TypeElement
  dependency_types no_more = []
  dependency_types (one_more d rest) = types_of d ++ dependency_types rest

  pub types_of : ProtobufDependency → List TypeElement
  types_of (without_dependencies file) = inner_all file.types
  types_of (with_dependencies file deps) = inner_all file.types ++ dependency_types deps

abbrev pub types_if_any : Option ProtobufDependencies → List TypeElement
types_if_any none = []
types_if_any (some deps) = dependency_types deps

-- all types that a schema can come to
abbrev pub all_types : ProtobufSchema → List TypeElement
all_types schema = inner_all schema.proto_file_element.types ++ types_if_any schema.dependencies

pub All-Memᴰ : {A : Type 0} (xs : List A) → All (λ x. Memᴰ x xs) xs
All-Memᴰ [] = tt
All-Memᴰ (x ∷ xs) = (
  Memᴰ.head refl,
  All-map (λ y. Memᴰ y xs) (λ y. Memᴰ y (x ∷ xs)) (λ y m. Memᴰ.tail m) xs (All-Memᴰ xs),
)

module _ (us : List TypeElement) where
  add_all-Inside :
      (is_self : Bool) (package_name : Option String) (types : List TypeElement) (c : Comparison)
      → All (Within us) types
      → Inside us c.self_types
      → Inside us (add_all is_self package_name types c).self_types
  add_all-Inside is_self package_name [] c ws inside = inside
  add_all-Inside true package_name (t ∷ types) c (w, ws) inside =
      add_all-Inside true package_name types _ ws
        (add_a_type-Inside us package_name package_name t c.self_types w inside)
  add_all-Inside false package_name (t ∷ types) c (w, ws) inside =
      add_all-Inside false package_name types _ ws inside

  add_file-Inside :
      (file : ProtoFileElement) (c : Comparison)
      → AllWithin us file.types
      → Inside us c.self_types
      → Inside us (add_file true file c).self_types
  add_file-Inside file c ws inside =
      add_all-Inside true file.package_name (elements file.types) c
        (elements-Within us file.types ws) inside

  mutual
    unfolding collect dependency_types

    pub collect-Inside :
        (deps : ProtobufDependencies) (c : Comparison)
        → All (λ u. Memᴰ u us) (dependency_types deps)
        → Inside us c.self_types
        → Inside us (collect true deps c).self_types
    collect-Inside no_more c ws inside = inside
    collect-Inside (one_more d rest) c ws inside =
        collect_one-Inside d (collect true rest) c
          (All-left (λ u. Memᴰ u us) (types_of d) (dependency_types rest) ws)
          (λ e.
            collect-Inside rest e
              (All-right (λ u. Memᴰ u us) (types_of d) (dependency_types rest) ws))
          inside

    collect_one-Inside :
        (d : ProtobufDependency) (go_on : Comparison → Comparison) (c : Comparison)
        → All (λ u. Memᴰ u us) (types_of d)
        → ((e : Comparison) → Inside us e.self_types → Inside us (go_on e).self_types)
        → Inside us c.self_types
        → Inside us (collect_one true d go_on c).self_types
    collect_one-Inside (without_dependencies file) go_on c ws h inside =
        add_file-Inside file c ws inside
    collect_one-Inside (with_dependencies file deps) go_on c ws h inside =
        h (collect true deps (add_file true file c)) (
          collect-Inside deps (add_file true file c)
            (All-right (λ u. Memᴰ u us) (inner_all file.types) (dependency_types deps) ws)
            (add_file-Inside file c
              (All-left (λ u. Memᴰ u us) (inner_all file.types) (dependency_types deps) ws) inside))

add_all-self_types :
    (package_name : Option String) (types : List TypeElement) (c : Comparison)
    → (add_all false package_name types c).self_types ≡ c.self_types
add_all-self_types package_name [] c = refl
add_all-self_types package_name (t ∷ types) c =
    add_all-self_types package_name types (add_other_type package_name t c)

mutual
  unfolding collect

  pub collect-self_types :
      (deps : ProtobufDependencies) (c : Comparison)
      → (collect false deps c).self_types ≡ c.self_types
  collect-self_types no_more c = refl
  collect-self_types (one_more d rest) c =
      collect_one-self_types d (collect false rest) c (collect-self_types rest)

  collect_one-self_types :
      (d : ProtobufDependency) (go_on : Comparison → Comparison) (c : Comparison)
      → ((e : Comparison) → (go_on e).self_types ≡ e.self_types)
      → (collect_one false d go_on c).self_types ≡ c.self_types
  collect_one-self_types (without_dependencies file) go_on c h =
      add_all-self_types file.package_name (elements file.types) c
  collect_one-self_types (with_dependencies file deps) go_on c h =
      h (collect false deps (add_file false file c))
      ∙ collect-self_types deps (add_file false file c)
      ∙ add_all-self_types file.package_name (elements file.types) c
