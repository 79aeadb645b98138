-- ===== src/Wire/Read.antt =====
-- The decoding functions of pkg/misc/encoding.go. An `int` that may be negative or wrap is kept as
-- its 64 bits, a number below 2^64, and positions are not negative.
use dbpack.Common.{
  ℕ, suc, ◌+◌, ◌-◌, ◌*◌, ◌%◌, ◌^◌, List, [], ◌∷◌, Bool, ◌&&◌, Option, none, some, ltb, leb, ◌==◌,
  if◌then◌else◌, length, get_or, drop, slice,
}
use mathlib.Core.Option

-- What a decoder returns: the value and the next position; `ok` false; or a panic.
pub data Read {ℓ} (A : Type ℓ) : Type ℓ where
  done : A → ℕ → Read A
  short : Read A
  panic : Read A

abbrev pub Bytes : Type 0
Bytes = List ℕ

-- `data[i]`, where the code has made sure that `i` is in range.
abbrev pub at : Bytes → ℕ → ℕ
at bytes i = get_or bytes i 0

-- `ReadByte`
unfoldable pub read_byte : Bytes → ℕ → Read ℕ
read_byte bytes pos = if leb (length bytes) pos then short else done (at bytes pos) (pos + 1)

-- `data[pos:end]`, which panics unless 0 <= pos <= end <= len(data); `end` is an int of 64 bits.
unfoldable pub cut : Bytes → ℕ → ℕ → Read Bytes
cut bytes pos end =
    if ltb end (2 ^ 63) && leb pos end && leb end (length bytes)
    then done (slice bytes pos end) end
    else panic

-- `pos+s-1 >= len(data)`, where the left side is an int of 64 bits.
unfoldable pub beyond : Bytes → ℕ → ℕ → Bool
beyond bytes pos s =
    let last = (pos + s + (2 ^ 64 - 1)) % 2 ^ 64 in ltb last (2 ^ 63) && leb (length bytes) last

-- `ReadBytes`
unfoldable pub read_bytes : Bytes → ℕ → ℕ → Read Bytes
unfolding cut beyond
read_bytes bytes pos size =
    if beyond bytes pos size then short else cut bytes pos ((pos + size) % 2 ^ 64)

-- `ReadBytesCopy`: `make` panics on a size that is no positive int.
unfoldable pub read_bytes_copy : Bytes → ℕ → ℕ → Read Bytes
unfolding cut beyond
read_bytes_copy bytes pos size =
    if beyond bytes pos size
    then short
    else if leb (2 ^ 63) size
    then panic
    else cut bytes pos ((pos + size) % 2 ^ 64)

-- `bytes.IndexByte(b, 0)`
unfoldable pub index_zero : Bytes → Option ℕ
index_zero [] = none
index_zero (b ∷ bs) = if b == 0 then some 0 else Option.map suc (index_zero bs)

-- `ReadNullString`
unfoldable pub read_null_string : Bytes → ℕ → Read Bytes
unfolding index_zero
read_null_string bytes pos =
    if ltb (length bytes) pos then panic else elim (index_zero (drop pos bytes)) [
      | none ↦ short
      | some end ↦ done (slice bytes pos (pos + end)) (pos + end + 1)
    ]

-- `ReadEOFString`, whose second result is the number of bytes that it read.
unfoldable pub read_eof_string : Bytes → ℕ → Read Bytes
read_eof_string bytes pos =
    if ltb (length bytes) pos then panic else done (drop pos bytes) (length bytes - pos)

-- The little-endian integers at a position. Shifted bytes have no bit in common, so that the `|`
-- of the source is a sum.
abbrev pub uint2 : Bytes → ℕ → ℕ
uint2 b p = at b p + at b (p + 1) * 2 ^ 8

abbrev pub uint3 : Bytes → ℕ → ℕ
uint3 b p = at b p + at b (p + 1) * 2 ^ 8 + at b (p + 2) * 2 ^ 16

abbrev pub uint4 : Bytes → ℕ → ℕ
uint4 b p = at b p + at b (p + 1) * 2 ^ 8 + at b (p + 2) * 2 ^ 16 + at b (p + 3) * 2 ^ 24

abbrev pub uint8 : Bytes → ℕ → ℕ
uint8 b p =
    at b p
    + at b (p + 1) * 2 ^ 8
    + at b (p + 2) * 2 ^ 16
    + at b (p + 3) * 2 ^ 24
    + at b (p + 4) * 2 ^ 32
    + at b (p + 5) * 2 ^ 40
    + at b (p + 6) * 2 ^ 48
    + at b (p + 7) * 2 ^ 56

unfoldable pub read_uint16 : Bytes → ℕ → Read ℕ
read_uint16 bytes pos =
    if leb (length bytes) (pos + 1) then short else done (uint2 bytes pos) (pos + 2)

unfoldable pub read_uint32 : Bytes → ℕ → Read ℕ
read_uint32 bytes pos =
    if leb (length bytes) (pos + 3) then short else done (uint4 bytes pos) (pos + 4)

unfoldable pub read_uint64 : Bytes → ℕ → Read ℕ
read_uint64 bytes pos =
    if leb (length bytes) (pos + 7) then short else done (uint8 bytes pos) (pos + 8)

-- `ReadLenEncInt`
unfoldable pub read_len_enc_int : Bytes → ℕ → Read ℕ
read_len_enc_int bytes pos =
    if leb (length bytes) pos
    then short
    else if at bytes pos == 0xfc
    then (if leb (length bytes) (pos + 2) then short else done (uint2 bytes (pos + 1)) (pos + 3))
    else if at bytes pos == 0xfd
    then (if leb (length bytes) (pos + 3) then short else done (uint3 bytes (pos + 1)) (pos + 4))
    else if at bytes pos == 0xfe
    then (if leb (length bytes) (pos + 8) then short else done (uint8 bytes (pos + 1)) (pos + 9))
    else done (at bytes pos) (pos + 1)

-- `ReadLenEncString`
unfoldable pub read_len_enc_string : Bytes → ℕ → Read Bytes
read_len_enc_string bytes pos = elim (read_len_enc_int bytes pos) [
  | done size p ↦ read_bytes bytes p size
  | short ↦ short
  | panic ↦ panic
]

-- `ReadLenEncStringAsBytes`
unfoldable pub read_len_enc_bytes : Bytes → ℕ → Read Bytes
read_len_enc_bytes bytes pos = elim (read_len_enc_int bytes pos) [
  | done size p ↦ read_bytes bytes p size
  | short ↦ short
  | panic ↦ panic
]

-- `SkipLenEncString`: the next position, an int of 64 bits, alone.
unfoldable pub skip_len_enc_string : Bytes → ℕ → Read (Unit {0})
unfolding beyond
skip_len_enc_string bytes pos = elim (read_len_enc_int bytes pos) [
  | done size p ↦ if beyond bytes p size then short else done tt ((p + size) % 2 ^ 64)
  | short ↦ short
  | panic ↦ panic
]

-- `ReadLenEncStringAsBytesCopy`: `make` panics on a size that is no positive int.
unfoldable pub read_len_enc_bytes_copy : Bytes → ℕ → Read Bytes
unfolding beyond cut
read_len_enc_bytes_copy bytes pos = elim (read_len_enc_int bytes pos) [
  | done size p ↦
      if beyond bytes p size
      then short
      else if leb (2 ^ 63) size
      then panic
      else cut bytes p ((p + size) % 2 ^ 64)
  | short ↦ short
  | panic ↦ panic
]
