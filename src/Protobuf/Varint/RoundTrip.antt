-- ===== src/Protobuf/Varint/RoundTrip.antt =====
-- What src/karapace/core/protobuf/encoding_variants.py reads from encoded varints.
use karapace.Prelude.{
  ℕ, zero, suc, ◌+◌, ◌*◌, ◌/◌, ◌%◌, ◌^◌, ◌<◌, ◌≡◌, inl, inr, refl, ap, ◌∙◌, List, [], ◌∷◌, ◌++◌,
  nat_eq, arith, ltb, Bool-cases, length, is_empty, if◌then◌else◌, All,
}
use mathlib.Core.List.{append_assoc}
use karapace.Outcome.{ok}
use karapace.Protobuf.Varint.{
  read_varint_from, read_varint, read_each, after_size, read_indexes, varint_bytes,
}
use karapace.Protobuf.Varint.Shift.{read-last_byte, read-more_bytes, digits_of}

-- whatever has been read, a number below 128 to the number of its bytes is read back
read-varint_bytes :
    (more n varint k : ℕ) (rest : List ℕ)
    → n < 128 * 128 ^ more
    → read_varint_from varint k (varint_bytes more n ++ rest) ≡ (ok (varint + n * 128 ^ k), rest)
unfolding varint_bytes
read-varint_bytes zero n varint k rest h = read-last_byte varint k n rest (omega (arith, h))
read-varint_bytes (suc more) n varint k rest h = elim (Bool-cases (ltb n 128)) [
  | inl e ↦ rw (varint_bytes, e) (read-last_byte varint k n rest (ground (arith, e)))
  | inr e ↦
      rw (varint_bytes, e)
        (read-more_bytes varint k (n % 128) (varint_bytes more (n / 128) ++ rest) (omega arith)
          ∙ read-varint_bytes more (n / 128) _ (suc k) rest (omega (arith, h))
          ∙ ap (λ m. (ok m, rest)) (digits_of varint n k))
]

-- A number below 128 ^ (more + 1) that is encoded in at most more + 1 bytes is read back, and the bytes
-- after it are left to read.
pub read_varint-varint_bytes :
    (n more : ℕ) (rest : List ℕ)
    → n < 128 ^ suc more
    → read_varint (varint_bytes more n ++ rest) ≡ (ok n, rest)
read_varint-varint_bytes n more rest h =
    read-varint_bytes more n 0 0 rest (omega (arith, h)) ∙ ap (λ m. (ok m, rest)) (omega arith)

-- the encodings of some numbers, one after the other
abbrev pub indexes_bytes : ℕ → List ℕ → List ℕ
indexes_bytes more [] = []
indexes_bytes more (i ∷ indexes) = varint_bytes more i ++ indexes_bytes more indexes

pub read_each-indexes_bytes :
    (more : ℕ) (indexes rest : List ℕ)
    → All (λ i. i < 128 ^ suc more) indexes
    → read_each (length indexes) (indexes_bytes more indexes ++ rest) ≡ (ok indexes, rest)
unfolding read_each
read_each-indexes_bytes more [] rest h = refl
read_each-indexes_bytes more (i ∷ indexes) rest (below, h) =
    rw (append_assoc (varint_bytes more i) (indexes_bytes more indexes) rest) (
      rw (read_each, read_varint-varint_bytes i more (indexes_bytes more indexes ++ rest) below)
        (rw (read_varint-varint_bytes i more (indexes_bytes more indexes ++ rest) below)
          (rw (read_each-indexes_bytes more indexes rest h) refl)))

-- What the encoding of a size and of as many indexes is read as: the indexes, except that no index at
-- all stands for the first message, [0].
pub read_indexes-indexes_bytes :
    (more : ℕ) (indexes rest : List ℕ)
    → length indexes < 128 ^ suc more
    → All (λ i. i < 128 ^ suc more) indexes
    → read_indexes (varint_bytes more (length indexes) ++ (indexes_bytes more indexes ++ rest))
      ≡ (ok (if is_empty indexes then 0 ∷ [] else indexes), rest)
unfolding read_indexes
read_indexes-indexes_bytes more indexes rest size h =
    rw (read_varint-varint_bytes (length indexes) more (indexes_bytes more indexes ++ rest) size)
      (after_size-indexes indexes h)
  where
    after_size-indexes :
        (is : List ℕ)
        → All (λ i. i < 128 ^ suc more) is
        → after_size (ok (length is)) (indexes_bytes more is ++ rest)
          ≡ (ok (if is_empty is then 0 ∷ [] else is), rest)
    after_size-indexes [] g = refl
    after_size-indexes (i ∷ is) g = read_each-indexes_bytes more (i ∷ is) rest g
