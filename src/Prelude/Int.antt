-- ===== src/Prelude/Int.antt =====
-- Python's unbounded integers, as they stand in messages and in the source's version tags.
use Prim.Native.Nat.{ℕ}
use mathlib.Core.Path.{◌≡◌}
use mathlib.Core.Bool.{Bool, true, false}
use native.Mathlib.Omega.{arith}
use karapace.Prelude.Tests.{eqb, eqb_iff, leb, if◌then◌else◌}
use karapace.Prelude.Equal.{Eq}
use mathlib.Core.Logic.{◌↔◌}

-- `negsuc n` is -(n + 1).
pub data ℤ : Type 0 where
  pos : ℕ → ℤ
  negsuc : ℕ → ℤ

abbrev pub int_beq : ℤ → ℤ → Bool
int_beq (pos a) (pos b) = eqb a b
int_beq (negsuc a) (negsuc b) = eqb a b
int_beq _ _ = false

pub int_beq_iff : (a b : ℤ) → (int_beq a b ≡ true) ↔ (a ≡ b)
int_beq_iff (pos a) (pos b) = ground (arith, eqb_iff a b)
int_beq_iff (negsuc a) (negsuc b) = ground (arith, eqb_iff a b)
int_beq_iff _ _ = ground arith

instance abbrev pub int_eq : Eq ℤ
int_eq = record { beq = int_beq; beq_iff = int_beq_iff }

-- `<=` and `max` of integers
abbrev pub int_leb : ℤ → ℤ → Bool
int_leb (pos a) (pos b) = leb a b
int_leb (pos a) (negsuc b) = false
int_leb (negsuc a) (pos b) = true
int_leb (negsuc a) (negsuc b) = leb b a

abbrev pub int_max : ℤ → ℤ → ℤ
int_max a b = if int_leb a b then b else a

pub int_leb_refl : (a : ℤ) → int_leb a a ≡ true
int_leb_refl (pos a) = ground arith
int_leb_refl (negsuc a) = ground arith

pub int_leb_trans : (a b c : ℤ) → int_leb a b ≡ true → int_leb b c ≡ true → int_leb a c ≡ true
int_leb_trans (pos a) (pos b) (pos c) p q = ground arith
int_leb_trans (negsuc a) (negsuc b) (negsuc c) p q = ground arith
int_leb_trans _ _ _ p q = ground arith

pub int_max-leb : (a b : ℤ) → (int_leb a (int_max a b) ≡ true) × (int_leb b (int_max a b) ≡ true)
int_max-leb (pos a) (pos b) = ground arith
int_max-leb (negsuc a) (negsuc b) = ground arith
int_max-leb _ _ = ground arith
