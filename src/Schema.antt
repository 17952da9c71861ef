-- ===== src/Schema.antt =====
-- src/karapace/core/schema_type.py, core/schema_references.py and the classes `TypedSchema` and
-- `SchemaVersion` of core/schema_models.py. The text of a schema is the normalised one that
-- `TypedSchema.__init__` stores; `dependencies` and the cached parse are left out, since they are
-- computed from the references and the text.
use Prim.Native.String.{◌++◌}
use karapace.Prelude.{
  ℕ, zero, suc, ◌/◌, ◌%◌, ◌≡◌, ◌↔◌, Bool, true, false, ◌&&◌, Option, none, some, List, [], ◌∷◌, map,
  String, arith, Eq, ◌==◌, ==_iff, string_eq, option_eq, list_eq, ℤ, pos, negsuc, int_eq, eqb,
  if◌then◌else◌,
}
use karapace.Version.{Version, value, version_eq}
use karapace.Version.Versioner.{init}
use karapace.Outcome.{Result, ok, ◌>>=◌}

-- `SchemaType`
pub data SchemaType : Type 0 where
  avro jsonschema protobuf : SchemaType

abbrev pub type_beq : SchemaType → SchemaType → Bool
type_beq avro avro = true
type_beq jsonschema jsonschema = true
type_beq protobuf protobuf = true
type_beq _ _ = false

pub type_beq_iff : (s t : SchemaType) → (type_beq s t ≡ true) ↔ (s ≡ t)
type_beq_iff avro t = ground arith
type_beq_iff jsonschema t = ground arith
type_beq_iff protobuf t = ground arith

instance abbrev pub type_eq : Eq SchemaType
type_eq = record { beq = type_beq; beq_iff = type_beq_iff }

-- `Reference`
pub record Reference : Type 0 where
  pub name : String
  pub subject : String
  pub version : Version

abbrev pub reference_beq : Reference → Reference → Bool
reference_beq r s = r.name == s.name && (r.subject == s.subject && r.version == s.version)

pub reference_beq_iff : (r s : Reference) → (reference_beq r s ≡ true) ↔ (r ≡ s)
reference_beq_iff r s = ground (
  arith,
  string_eq.beq_iff r.name s.name,
  string_eq.beq_iff r.subject s.subject,
  version_eq.beq_iff r.version s.version,
)

instance abbrev pub reference_eq : Eq Reference
reference_eq = record { beq = reference_beq; beq_iff = reference_beq_iff }

-- A reference as a client writes it: `LatestVersionReference` has no version yet.
pub data AnyReference : Type 0 where
  latest_of : String → String → AnyReference
  exact : Reference → AnyReference

-- `LatestVersionReference.resolve`
abbrev pub resolve : String → String → Version → Reference
resolve name subject version = record { name = name; subject = subject; version = version }

-- `reference_from_mapping`, of the three fields at the types that `_read_typed` wants
unfoldable pub reference_from_mapping : String → String → ℤ → Result AnyReference
unfolding init
reference_from_mapping name subject version =
    if version == negsuc 0
    then ok (latest_of name subject)
    else (do v ← init version; ok (exact (resolve name subject v)))

-- Decimal digits, with fuel for one digit a round.
digit : ℕ → String
digit zero = "0"
digit (suc zero) = "1"
digit (suc (suc zero)) = "2"
digit (suc (suc (suc zero))) = "3"
digit (suc (suc (suc (suc zero)))) = "4"
digit (suc (suc (suc (suc (suc zero))))) = "5"
digit (suc (suc (suc (suc (suc (suc zero)))))) = "6"
digit (suc (suc (suc (suc (suc (suc (suc zero))))))) = "7"
digit (suc (suc (suc (suc (suc (suc (suc (suc zero)))))))) = "8"
digit _ = "9"

show_from : ℕ → ℕ → String → String
show_from zero n rest = rest
show_from (suc fuel) n rest =
    let more = show_from fuel (n / 10) (digit (n % 10) ++ rest) in
    if eqb (n / 10) 0 then digit (n % 10) ++ rest else more

-- `str(n)` of an integer
unfoldable pub show_int : ℤ → String
unfolding digit show_from
show_int (pos n) = show_from (suc n) n ""
show_int (negsuc n) = "-" ++ show_from (suc (suc n)) (suc n) ""

-- `Reference.__repr__`
unfoldable pub repr : Reference → String
unfolding show_int
repr r =
    "{name='"
    ++ r.name
    ++ "', subject='"
    ++ r.subject
    ++ "', version="
    ++ show_int (value r.version)
    ++ "}"

-- `"\n".join(texts)`
abbrev join_lines : List String → String
join_lines [] = ""
join_lines (s ∷ []) = s
join_lines (s ∷ t ∷ ts) = s ++ "\n" ++ join_lines (t ∷ ts)

-- `TypedSchema`, by what its equality and its fingerprint read
pub record TypedSchema : Type 0 where
  pub schema_type : SchemaType
  pub schema_str : String
  pub references : Option (List Reference)

-- `==` of two optional lists of references
unfoldable pub references_beq : Option (List Reference) → Option (List Reference) → Bool
references_beq a b = a == b

pub references_beq_iff : (a b : Option (List Reference)) → (references_beq a b ≡ true) ↔ (a ≡ b)
unfolding references_beq
references_beq_iff a b = ==_iff a b

-- `TypedSchema.__eq__`
abbrev pub schema_beq : TypedSchema → TypedSchema → Bool
schema_beq s t =
    s.schema_type == t.schema_type
    && (s.schema_str == t.schema_str && references_beq s.references t.references)

pub schema_beq_iff : (s t : TypedSchema) → (schema_beq s t ≡ true) ↔ (s ≡ t)
schema_beq_iff s t = ground (
  arith,
  type_eq.beq_iff s.schema_type t.schema_type,
  string_eq.beq_iff s.schema_str t.schema_str,
  references_beq_iff s.references t.references,
)

instance abbrev pub schema_eq : Eq TypedSchema
schema_eq = record { beq = schema_beq; beq_iff = schema_beq_iff }

-- The text that `TypedSchema.fingerprint` hashes.
unfoldable pub fingerprint_str : TypedSchema → String
unfolding repr
fingerprint_str s = elim s.references [
  | none ↦ s.schema_str
  | some refs ↦ s.schema_str ++ join_lines (map repr refs)
]

-- `SchemaVersion`
pub record SchemaVersion : Type 0 where
  pub subject : String
  pub version : Version
  pub deleted : Bool
  pub schema_id : ℕ
  pub schema : TypedSchema
  pub references : Option (List Reference)
