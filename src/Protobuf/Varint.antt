-- ===== src/Protobuf/Varint.antt =====
-- src/karapace/core/protobuf/encoding_variants.py: the varints of the message indexes. A `BytesIO` is
-- the list of the bytes that are left to read; what is left is given back beside an exception too.
mod Shift
pub mod RoundTrip
pub mod Bounds
use karapace.Prelude.{
  ℕ, zero, suc, ◌+◌, ◌*◌, ◌/◌, ◌%◌, ◌^◌, ◌≤◌, ◌<◌, ◌-◌, ◌≡◌, inl, inr, refl, ap, ◌∙◌, Bool, true,
  false, List, [], ◌∷◌, ◌++◌, ℤ, pos, negsuc, nat_eq, ◌==◌, arith, ltb, Bool-cases, map, length,
  if◌then◌else◌,
}
use karapace.Outcome.{
  value_error, type_error, index_error, eof_error, illegal_argument, Error, Result, ok, err, ◌>>=◌,
}

-- no byte is left
abbrev pub at_end : ℕ → Result ℕ
at_end zero = ok 0
at_end (suc read_bytes) = err eof_error

-- `read_varint`, from a value of `varint` and `read_bytes` on
unfoldable pub read_varint_from : ℕ → ℕ → List ℕ → Result ℕ × List ℕ
read_varint_from varint read_bytes [] = (at_end read_bytes, [])
read_varint_from varint read_bytes (byte ∷ bio) = elim ((byte / 128) % 2 == 0) [
  | true ↦ (ok (varint + (byte % 128) * 2 ^ (7 * read_bytes)), bio)
  | false ↦ read_varint_from (varint + (byte % 128) * 2 ^ (7 * read_bytes)) (suc read_bytes) bio
]

-- `read_varint`
abbrev pub read_varint : List ℕ → Result ℕ × List ℕ
read_varint bio = read_varint_from 0 0 bio

-- `read_indexes`: the comprehension, then the whole
unfoldable pub read_each : ℕ → List ℕ → Result (List ℕ) × List ℕ
unfolding read_varint_from
read_each zero bio = (ok [], bio)
read_each (suc size) bio =
    let first = read_varint bio in
    let others = read_each size first.1 in
    elim first.0 [ err x ↦ (err x, first.1) | ok i ↦ (others.0 >>= (λ is. ok (i ∷ is)), others.1) ]

-- what follows the size
abbrev pub after_size : Result ℕ → List ℕ → Result (List ℕ) × List ℕ
after_size (err eof_error) bio = (err illegal_argument, bio)
after_size (err x) bio = (err x, bio)
after_size (ok zero) bio = (ok (0 ∷ []), bio)
after_size (ok (suc size)) bio = read_each (suc size) bio

unfoldable pub read_indexes : List ℕ → Result (List ℕ) × List ℕ
unfolding read_each
read_indexes bio = let size = read_varint bio in after_size size.0 size.1

-- `bytearray(n)` is n zero bytes
abbrev pub bytearray : ℕ → List ℕ
bytearray zero = []
bytearray (suc n) = 0 ∷ bytearray n

-- the byte of a round of the loop: seven bits, and 0x80 if there are more
abbrev pub to_write : ℕ → ℕ
to_write value = if ltb 0 (value / 128) then value % 128 + 128 else value % 128

-- `bio.write(bytearray(to_write)[0])`: no byte is written, for the item is an `int`
abbrev pub write_item : List ℕ → List ℕ → Result ℕ × List ℕ
write_item bio [] = (err index_error, bio)
write_item bio (item ∷ items) = (err type_error, bio)

-- `write_varint`. A round of its loop that raises is the last one.
unfoldable pub write_varint : List ℕ → ℤ → Result ℕ × List ℕ
write_varint bio (negsuc n) = (err value_error, bio)
write_varint bio (pos zero) = (ok 1, bio ++ 0 ∷ [])
write_varint bio (pos (suc n)) = write_item bio (bytearray (to_write (suc n)))

-- `write_indexes`
unfoldable pub write_indexes : List ℕ → List ℤ → Result (Unit {0}) × List ℕ
unfolding write_varint
write_indexes bio [] = (ok tt, bio)
write_indexes bio (i ∷ indexes) =
    let written = write_varint bio i in
    let others = write_indexes written.1 indexes in
    elim written.0 [ ok n ↦ others | err x ↦ (err x, written.1) ]

-- The encoding of Protocol Buffers: seven bits to a byte, the low ones first, and the top bit set on
-- all but the last.
unfoldable pub varint_bytes : ℕ → ℕ → List ℕ
varint_bytes zero n = n ∷ []
varint_bytes (suc more) n =
    if ltb n 128 then n ∷ [] else (128 + n % 128) ∷ varint_bytes more (n / 128)
