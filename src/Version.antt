-- ===== src/Version.antt =====
-- `Version` of src/karapace/core/typing.py: an integer of at least -1, where -1 is the alias of the
-- latest version. The order is the one of the integers. `Versioner` stands in the child.
pub mod Versioner
use karapace.Prelude.{
  ℕ, zero, suc, ◌≤◌, ◌≡◌, ◌↔◌, Bool, true, false, Option, none, some, List, [], ◌∷◌, arith, Eq, ℤ,
  pos, negsuc, eqb, eqb_iff, leb, if◌then◌else◌,
}

-- `latest` is the version -1 and `number n` the version n: `__init__` refuses every other integer.
pub data Version : Type 0 where
  latest : Version
  number : ℕ → Version

-- `value`
abbrev pub value : Version → ℤ
value latest = negsuc 0
value (number n) = pos n

-- The place of a version in the order of its integers, counted from -1.
abbrev pub rank : Version → ℕ
rank latest = 0
rank (number n) = suc n

-- `is_latest`
abbrev pub is_latest : Version → Bool
is_latest latest = true
is_latest (number n) = false

-- `__eq__` between two versions
abbrev pub version_beq : Version → Version → Bool
version_beq v w = eqb (rank v) (rank w)

pub version_beq_iff : (v w : Version) → (version_beq v w ≡ true) ↔ (v ≡ w)
version_beq_iff latest latest = ground arith
version_beq_iff (number n) (number m) = ground (arith, eqb_iff n m)
version_beq_iff _ _ = ground arith

instance abbrev pub version_eq : Eq Version
version_eq = record { beq = version_beq; beq_iff = version_beq_iff }

-- `<=`, which `total_ordering` derives from `__lt__` and `__eq__`
abbrev pub version_leb : Version → Version → Bool
version_leb v w = leb (rank v) (rank w)

-- `max` of a nonempty collection of versions; on an empty one Python raises ValueError.
unfoldable pub max_version : List Version → Option Version
max_version [] = none
max_version (v ∷ vs) = elim (max_version vs) [
  | none ↦ some v
  | some w ↦ some (if version_leb w v then v else w)
]
