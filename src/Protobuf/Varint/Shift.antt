-- ===== src/Protobuf/Varint/Shift.antt =====
-- Single bytes of the varints of src/karapace/core/protobuf/encoding_variants.py, with the shifts as
-- powers of 128.
use karapace.Prelude.{
  ℕ, zero, suc, ◌+◌, ◌*◌, ◌/◌, ◌%◌, ◌^◌, ◌<◌, ◌≡◌, refl, ap, ◌∙◌, true, false, List, ◌∷◌, nat_eq,
  ◌==◌, arith,
}
use karapace.Outcome.{ok}
use karapace.Protobuf.Varint.{read_varint_from}

pub shift : (k : ℕ) → 2 ^ (7 * k) ≡ 128 ^ k
shift zero = refl
shift (suc k) =
    let seven : 7 * suc k ≡ suc (suc (suc (suc (suc (suc (suc (7 * k))))))) = omega arith in
    ap (λ m. 2 ^ m) seven ∙ omega (arith, shift k)

module _ (varint k byte : ℕ) (bio : List ℕ) where
  pub read-last_byte :
      byte < 128 → read_varint_from varint k (byte ∷ bio) ≡ (ok (varint + byte * 128 ^ k), bio)
  unfolding read_varint_from
  read-last_byte h =
      let last : ((byte / 128) % 2 == 0) ≡ true = ground arith in
      let low : byte % 128 ≡ byte = omega arith in rw (read_varint_from, last, low, shift k) refl

  pub read-more_bytes :
      byte < 128
      → read_varint_from varint k ((128 + byte) ∷ bio)
        ≡ read_varint_from (varint + byte * 128 ^ k) (suc k) bio
  unfolding read_varint_from
  read-more_bytes h =
      let last : (((128 + byte) / 128) % 2 == 0) ≡ false = ground arith in
      let low : (128 + byte) % 128 ≡ byte = omega arith in
      rw (read_varint_from, last, low, shift k) refl

digits : (v q r p : ℕ) → v + r * p + q * (p * 128) ≡ v + (q * 128 + r) * p
digits v q r p = grind arith

pub digits_of : (v n k : ℕ) → v + (n % 128) * 128 ^ k + (n / 128) * 128 ^ suc k ≡ v + n * 128 ^ k
digits_of v n k =
    ap (λ p. v + (n % 128) * 128 ^ k + (n / 128) * p) (omega arith)
    ∙ digits v (n / 128) (n % 128) (128 ^ k)
    ∙ ap (λ m. v + m * 128 ^ k) (omega arith)
