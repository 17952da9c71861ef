-- ===== src/Protobuf/Varint/Bounds.antt =====
-- How large a number src/karapace/core/protobuf/encoding_variants.py reads, and how much it reads.
use karapace.Prelude.{
  ℕ, zero, suc, ◌+◌, ◌*◌, ◌/◌, ◌%◌, ◌^◌, ◌<◌, ◌≡◌, inl, inr, refl, ap, subst, List, [], ◌∷◌, ◌++◌,
  pos, negsuc, nat_eq, ◌==◌, arith, Bool-cases, length,
}
use karapace.Outcome.{value_error, type_error, eof_error, Result, ok, err}
use karapace.Protobuf.Varint.{
  read_varint_from, read_varint, to_write, write_item, bytearray, write_varint,
}
use karapace.Protobuf.Varint.Shift.{shift}

-- what is read from some bytes, of which `k` have been read: a number below 128 to the count of the
-- bytes read, from the start of what was left, or an EOFError at its end
abbrev pub ReadsBelow : ℕ → List ℕ → Result ℕ × List ℕ → Type 0
ReadsBelow k bio (ok n, rest) =
    (taken : List ℕ) × (bio ≡ taken ++ rest) × n < 128 ^ (k + length taken)
ReadsBelow k bio (err x, rest) = (x ≡ eof_error) × (rest ≡ [])

-- one byte more was taken
after_byte :
    (k b : ℕ) (bio : List ℕ) (out : Result ℕ × List ℕ)
    → ReadsBelow (suc k) bio out
    → ReadsBelow k (b ∷ bio) out
after_byte k b bio (ok n, rest) (taken, starts, below) =
    (b ∷ taken, ap (λ bs. b ∷ bs) starts, subst (λ m. n < 128 ^ m) (omega arith) below)
after_byte k b bio (err x, rest) h = h

-- seven bits at place k
below_next : (varint k d p : ℕ) → varint < p → d < 128 → varint + d * p < p * 128
below_next varint k d p h g = grind arith

read_varint_from-ReadsBelow :
    (bio : List ℕ) (varint k : ℕ)
    → varint < 128 ^ k
    → ReadsBelow k bio (read_varint_from varint k bio)
unfolding read_varint_from
read_varint_from-ReadsBelow [] varint zero h = ([], refl, omega arith)
read_varint_from-ReadsBelow [] varint (suc k) h = (refl, refl)
read_varint_from-ReadsBelow (b ∷ bio) varint k h =
    let value = varint + (b % 128) * 2 ^ (7 * k) in
    let small : value < 128 ^ suc k = omega (
      arith,
      below_next varint k (b % 128) (128 ^ k) h (omega arith),
      shift k,
      ap (λ m. (b % 128) * m) (shift k),
    ) in
    elim (Bool-cases ((b / 128) % 2 == 0)) [
      | inl e ↦
          rw (read_varint_from, e) (b ∷ [], refl, subst (λ m. value < 128 ^ m) (omega arith) small)
      | inr e ↦
          rw (read_varint_from, e)
            (after_byte k b bio _ (read_varint_from-ReadsBelow bio value (suc k) small))
    ]

-- Whatever bytes are left, `read_varint` either reads a number below 128 to the count of the bytes that
-- it takes from their start, or all of them and raises an EOFError.
pub read_varint-ReadsBelow : (bio : List ℕ) → ReadsBelow 0 bio (read_varint bio)
read_varint-ReadsBelow bio = read_varint_from-ReadsBelow bio 0 0 (omega arith)

write_item-bytearray :
    (bio : List ℕ) (n : ℕ) → 0 < n → write_item bio (bytearray n) ≡ (err type_error, bio)
write_item-bytearray bio zero h = ground arith
write_item-bytearray bio (suc n) h = refl

to_write-positive : (n : ℕ) → 0 < to_write (suc n)
to_write-positive n = ground arith

-- A value that `write_varint` writes is zero, any other raises and leaves the bytes as they were: one
-- below zero a ValueError, one above zero a TypeError.
pub write_varint-only_zero :
    (bio : List ℕ)
    → (write_varint bio (pos 0) ≡ (ok 1, bio ++ 0 ∷ []))
      × ((n : ℕ) → write_varint bio (pos (suc n)) ≡ (err type_error, bio))
      × ((n : ℕ) → write_varint bio (negsuc n) ≡ (err value_error, bio))
unfolding write_varint
write_varint-only_zero bio =
    (refl, (λ n. write_item-bytearray bio (to_write (suc n)) (to_write-positive n)), λ n. refl)
