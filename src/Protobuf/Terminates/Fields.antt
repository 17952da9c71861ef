-- ===== src/Protobuf/Terminates/Fields.antt =====
-- Steps of the comparison of two fields, in src/karapace/core/protobuf/field_element.py, given those of
-- `visit`.
use karapace.Prelude.{
  ℕ, inl, inr, Bool, true, false, Option, none, some, List, String, string_eq, int_eq, ◌==◌,
  Option-cases,
}
use karapace.Dict.{Dict, get}
use karapace.Outcome.{Returns, ok, or_raise, illegal_argument, assertion_error}
use karapace.Protobuf.Elements.{Label, FieldElement, TypeElement}
use karapace.Protobuf.ProtoType.{
  ProtoType, scalar, named, map_type, string, is_map, kind_of, simple_name, compatibility_kind,
  CompatibilityKind, get2,
}
use karapace.Protobuf.ProtoType.Returns.{get2-Returns}
use karapace.Protobuf.Locks.{Within}
use karapace.Protobuf.Comparison.{
  field_kind_alter, field_name_alter, field_type_alter, field_label_alter, TypeRecord, Compare,
  fail, attempt, look, ◌>>◌, add_when,
}
use karapace.Protobuf.TypeStorage.{
  get_self_type, get_other_type, record_at, short_name, self_type_short_name, other_type_short_name,
}
use karapace.Protobuf.Fields.{
  compare_records, compare_message, with_parts, compare_kinds, compare_found, compare_type,
  compare_field, compare_scalars, enum_record,
}
use karapace.Protobuf.Safe.{
  Inside, Safe, Any, bind-Safe, seq-Safe, add_modification-Safe, add_when-Safe, if-Safe, fail-Safe,
  attempt-Safe, look-Safe, look-Returns,
}

-- the record that a name is found at, if any, holds a type of the list
abbrev FoundWithin : List TypeElement → Option TypeRecord → Type 0
FoundWithin us none = Unit
FoundWithin us (some r) = Within us r.type_element

record_at-FoundWithin :
    (us : List TypeElement) (name : Option String) (types : Dict String TypeRecord)
    → Inside us types
    → FoundWithin us (record_at name types)
record_at-FoundWithin us none types inside = tt
record_at-FoundWithin us (some name) types inside = elim (Option-cases (get name types)) [
  | inl e ↦ rw e tt
  | inr (r, e) ↦ rw e (inside name r e)
]

short_name-Returns :
    (name : Option String) (types : Dict String TypeRecord) → Returns (short_name name types)
unfolding short_name
short_name-Returns none types = tt
short_name-Returns (some name) types = tt

compatibility_kind-Returns : (b : Bool) (t : ProtoType) → Returns (compatibility_kind b t)
unfolding compatibility_kind
compatibility_kind-Returns true t = tt
compatibility_kind-Returns false t = or_raise-Returns (kind_of (simple_name (string t)))
  where
    or_raise-Returns : (o : Option CompatibilityKind) → Returns (or_raise o illegal_argument)
    or_raise-Returns none = tt
    or_raise-Returns (some a) = tt

module _ (us : List TypeElement) (k : ℕ) (visit : TypeElement → TypeElement → Compare (Unit {0}))
    (visit-Safe : (t u : TypeElement) → Within us t → Safe us k Any (visit t u)) where
  compare_records-Safe :
      (s t : ProtoType) (a b : Option TypeRecord)
      → FoundWithin us a
      → Safe us k Any (compare_records visit s t a b)
  compare_records-Safe s t (some a) (some b) w =
      bind-Safe us k Any Any (look (self_type_short_name (string s))) _
        (look-Returns us k (self_type_short_name (string s)) λ c. short_name-Returns _ c.self_types)
        λ n _.
          bind-Safe us k Any Any (look (other_type_short_name (string t))) _
            (look-Returns us k (other_type_short_name (string t))
              λ c. short_name-Returns _ c.other_types)
            λ m _.
              if-Safe us k (n == m) _ _ (visit-Safe a.type_element b.type_element w)
                (add_modification-Safe us k field_name_alter)
  compare_records-Safe s t (some a) none w = add_when-Safe us k _ field_type_alter
  compare_records-Safe s t none b w = add_when-Safe us k _ field_type_alter

  compare_message-Safe : (s t : ProtoType) → Safe us k Any (compare_message visit s t)
  unfolding compare_message
  compare_message-Safe s t =
      bind-Safe us k (FoundWithin us) Any (look (λ c. ok (get_self_type (string s) c))) _
        (look-Safe us k (FoundWithin us) (get_self_type (string s))
          λ c inside. record_at-FoundWithin us _ c.self_types inside)
        λ a w.
          bind-Safe us k Any Any (look (λ c. ok (get_other_type (string t) c))) _
            (look-Safe us k Any (get_other_type (string t)) λ c inside. tt)
            λ b _. compare_records-Safe s t a b w

  compare_scalars-Safe :
      (a b : Option Label) (s t : CompatibilityKind) → Safe us k Any (compare_scalars a b s t)
  compare_scalars-Safe a b s t =
      seq-Safe us k (add_when _ field_label_alter) (add_when _ field_kind_alter)
        (add_when-Safe us k _ field_label_alter) (add_when-Safe us k _ field_kind_alter)

  with_parts-Safe :
      (compare_map : ProtoType → ProtoType → Compare (Unit {0})) (t : ProtoType)
      → ((key value : ProtoType) → Safe us k Any (compare_map key value))
      → Safe us k Any (with_parts compare_map t)
  with_parts-Safe compare_map (map_type n key value) h = h key value
  with_parts-Safe compare_map (scalar n) h = fail-Safe us k assertion_error tt
  with_parts-Safe compare_map (named n) h = fail-Safe us k assertion_error tt

  compare_kinds-Safe :
      (compare_map : ProtoType → ProtoType → Compare (Unit {0})) (a b : Option Label)
      (s t : ProtoType) (e f : Bool)
      → ((key value : ProtoType) → Safe us k Any (compare_map key value))
      → Safe us k Any (compare_kinds visit compare_map a b s t e f)
  compare_kinds-Safe compare_map a b s t e f h =
      if-Safe us k _ _ _
        (if-Safe us k (is_map s) _ _ (with_parts-Safe compare_map t h) (
          if-Safe us k _ _ _
            (bind-Safe us k Any Any (attempt (compatibility_kind e s)) _
              (attempt-Safe us k (compatibility_kind e s) (compatibility_kind-Returns e s))
              λ x _.
                bind-Safe us k Any Any (attempt (compatibility_kind f t)) _
                  (attempt-Safe us k (compatibility_kind f t) (compatibility_kind-Returns f t))
                  λ y _. compare_scalars-Safe a b x y)
            (compare_message-Safe s t)))
        (add_modification-Safe us k field_kind_alter)

  compare_found-Safe :
      (compare_map : ProtoType → ProtoType → Compare (Unit {0})) (a b : Option Label)
      (s t : ProtoType)
      → ((key value : ProtoType) → Safe us k Any (compare_map key value))
      → Safe us k Any (compare_found visit compare_map a b s t)
  compare_found-Safe compare_map a b s t h =
      bind-Safe us k Any Any (look (λ c. ok (get_self_type (string s) c))) _
        (look-Safe us k Any (get_self_type (string s)) λ c inside. tt)
        λ x _.
          bind-Safe us k Any Any (look (λ c. ok (get_other_type (string t) c))) _
            (look-Safe us k Any (get_other_type (string t)) λ c inside. tt)
            λ y _. compare_kinds-Safe compare_map a b s t (enum_record x) (enum_record y) h

  compare_type-Safe :
      (a b : Option Label) (s t : ProtoType) → Safe us k Any (compare_type visit a b s t)
  unfolding compare_type
  compare_type-Safe a b (scalar n) t =
      compare_found-Safe (λ key value. fail assertion_error) a b (scalar n) t
        λ key value c inside h. tt
  compare_type-Safe a b (named n) t =
      compare_found-Safe (λ key value. fail assertion_error) a b (named n) t
        λ key value c inside h. tt
  compare_type-Safe a b (map_type n self_key self_value) t =
      compare_found-Safe
        (λ key value.
          compare_type visit a none self_key key >> compare_type visit a none self_value value)
        a b (map_type n self_key self_value) t
        λ key value.
          seq-Safe us k (compare_type visit a none self_key key)
            (compare_type visit a none self_value value) (compare_type-Safe a none self_key key)
            (compare_type-Safe a none self_value value)

  pub compare_field-Safe : (f g : FieldElement) → Safe us k Any (compare_field visit f g)
  unfolding compare_field
  compare_field-Safe f g =
      seq-Safe us k (add_when _ field_name_alter) _ (add_when-Safe us k _ field_name_alter) (
        bind-Safe us k Any Any (attempt (get2 f.element_type)) _
          (attempt-Safe us k (get2 f.element_type) (get2-Returns f.element_type))
          λ s _.
            bind-Safe us k Any Any (attempt (get2 g.element_type)) _
              (attempt-Safe us k (get2 g.element_type) (get2-Returns g.element_type))
              λ t _. compare_type-Safe f.label g.label s t)
