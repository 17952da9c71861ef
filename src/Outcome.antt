-- ===== src/Outcome.antt =====
-- The exceptions of src/karapace/core/errors.py and Python's own that the modelled code raises or
-- catches, and the results of code that may raise.
use karapace.Prelude.{ℕ, ◌≡◌, ◌⊎◌, inl, inr, refl, Bool, true, false, Option, none, some, List}
use karapace.Version.{Version}

pub data Error : Type 0 where
  key_error value_error type_error assertion_error recursion_error : Error
  invalid_version invalid_schema invalid_references incompatible_schema : Error
  version_not_found schemas_not_found subject_not_found : Error
  subject_not_soft_deleted subject_soft_deleted : Error
  schema_version_soft_deleted schema_version_not_soft_deleted : Error
  corrupt_kafka_record shutdown authentication_error : Error
  kafka_error eof_error illegal_argument index_error attribute_error runtime_error : Error
  zero_division_error : Error
  reference_exists : List ℕ → Version → Error

-- What a call that may raise comes to.
pub data Result {ℓ} (A : Type ℓ) : Type ℓ where
  ok : A → Result A
  err : Error → Result A

-- an error that is not the model's own, of fuel that ran out, and a result that is not that error
abbrev pub Finishes : Error → Type 0
Finishes recursion_error = ⊥
Finishes _ = Unit

abbrev pub Returns {ℓ} : {A : Type ℓ} → Result A → Type 0
Returns (ok a) = Unit
Returns (err x) = Finishes x

-- `if b: raise x`
abbrev pub raise_if : Bool → Error → Result (Unit {0})
raise_if b x = elim b [ true ↦ err x | false ↦ ok tt ]

module _ {ℓ} {A : Type ℓ} where
  abbrev pub or_raise : Option A → Error → Result A
  or_raise none x = err x
  or_raise (some a) x = ok a

-- what follows a call is run if the call does not raise
infixl 5 ◌>>=◌
abbrev pub ◌>>=◌ {κ ℓ} : {B : Type κ} {A : Type ℓ} → Result A → (A → Result B) → Result B
m >>= f = elim m [ ok a ↦ f a | err x ↦ err x ]

infixl 5 ◌>>◌
abbrev pub ◌>>◌ {κ ℓ} : {B : Type κ} {A : Type ℓ} → Result A → Result B → Result B
m >> k = m >>= (λ _. k)

pub Result-cases {ℓ} :
    {A : Type ℓ} (m : Result A) → ((a : A) × (m ≡ ok a)) ⊎ ((x : Error) × (m ≡ err x))
Result-cases (ok a) = inl (a, refl)
Result-cases (err x) = inr (x, refl)
