-- ===== src/Tests/Resolution.antt =====
-- A run of the resolution of references.
use karapace.Prelude.{
  ℕ, ◌<◌, ◌≡◌, ◌≢◌, false, none, some, List, [], ◌∷◌, String, arith, All, string_eq, ◌==◌,
  if◌then◌else◌,
}
use karapace.Dict.{get}
use karapace.Version.{Version, number, version_eq}
use karapace.Outcome.{ok, err, recursion_error}
use karapace.Schema.{avro, Reference, exact, latest_of, SchemaVersion}
use karapace.Database.{Database, empty, find_subject_schemas}
use karapace.Resolve.{resolve_references}
use karapace.Resolve.Depth.{resolve_references-enough_fuel}
use karapace.Tests.Data.{user, to_users}

abbrev users : SchemaVersion
users = record {
  subject = "users";
  version = number 1;
  deleted = false;
  schema_id = 1;
  schema = user;
  references = none;
}

-- a schema that refers to the first
abbrev orders : SchemaVersion
orders = record {
  subject = "orders";
  version = number 1;
  deleted = false;
  schema_id = 2;
  schema = record { schema_type = avro; schema_str = "order"; references = some (to_users ∷ []) };
  references = some (to_users ∷ []);
}

abbrev shop : Database
shop = record empty {
  subjects =
      ("users", record { schemas = (number 1, users) ∷ []; compatibility = none })
      ∷ ("orders", record { schemas = (number 1, orders) ∷ []; compatibility = none })
      ∷ [];
}

abbrev depth : String → Version → ℕ
depth s v = if s == "orders" then 1 else 0

shop_references :
    (s : String) (v : Version) (x : SchemaVersion) (rs : List Reference)
    → get v (find_subject_schemas s false shop) ≡ some x
    → x.schema.references ≡ some rs
    → (s ≡ "orders") × (rs ≡ to_users ∷ [])
unfolding get find_subject_schemas
shop_references s v x rs found refs =
    ground (arith, string_eq.beq_iff "orders" s, string_eq.beq_iff "users" s)

shop_is_ordered :
    (s : String) (v : Version) (x : SchemaVersion) (rs : List Reference)
    → get v (find_subject_schemas s false shop) ≡ some x
    → x.schema.references ≡ some rs
    → All (λ r. depth r.subject r.version < depth s v) rs
shop_is_ordered s v x rs found refs =
    let (subject, same) = shop_references s v x rs found refs in
    rw same (rw subject (ground arith, tt))

resolve_references-enough_fuel_example :
    resolve_references (λ t d. ok t) 2 shop (latest_of "order" "orders" ∷ exact to_users ∷ [])
    ≢ err recursion_error
resolve_references-enough_fuel_example =
    resolve_references-enough_fuel (λ t d. ok t) (λ t d. cc) shop depth shop_is_ordered 1
      (latest_of "order" "orders" ∷ exact to_users ∷ [])
      ((λ v x found. ground arith), (ground arith, tt))
