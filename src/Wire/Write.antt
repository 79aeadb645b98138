-- ===== src/Wire/Write.antt =====
-- The encoding functions of pkg/misc/encoding.go. `none` is a panic: a store behind the end of the
-- buffer. Positions are not negative; a Go string is the list of its bytes.
use dbpack.Common.{
  ℕ, zero, suc, ◌+◌, ◌-◌, ◌/◌, ◌%◌, ◌^◌, List, [], ◌∷◌, Option, none, some, ltb, leb, if◌then◌else◌,
  length, set, overlay, ◌>>=◌,
}
use Prim.Native.Nat.{min}

-- `data[pos] = v`
unfoldable pub store : List ℕ → ℕ → ℕ → Option (List ℕ)
store bytes pos v = if ltb pos (length bytes) then some (set bytes pos v) else none

-- `data[pos] = v0; data[pos+1] = v1; ...`
unfoldable pub store_all : List ℕ → ℕ → List ℕ → Option (List ℕ)
unfolding store
store_all bytes pos [] = some bytes
store_all bytes pos (v ∷ vs) = store bytes pos v >>= λ d. store_all d (pos + 1) vs

-- `byte(i >> k)`
abbrev pub byte_at : ℕ → ℕ → ℕ
byte_at i k = i / 2 ^ k % 256

-- The bytes of the integers of 2, 3, 4 and 8 bytes, lowest first.
abbrev pub bytes2 : ℕ → List ℕ
bytes2 i = byte_at i 0 ∷ byte_at i 8 ∷ []

abbrev pub bytes3 : ℕ → List ℕ
bytes3 i = byte_at i 0 ∷ byte_at i 8 ∷ byte_at i 16 ∷ []

abbrev pub bytes4 : ℕ → List ℕ
bytes4 i = byte_at i 0 ∷ byte_at i 8 ∷ byte_at i 16 ∷ byte_at i 24 ∷ []

abbrev pub bytes8 : ℕ → List ℕ
bytes8 i =
    byte_at i 0
    ∷ byte_at i 8
    ∷ byte_at i 16
    ∷ byte_at i 24
    ∷ byte_at i 32
    ∷ byte_at i 40
    ∷ byte_at i 48
    ∷ byte_at i 56
    ∷ []

-- A run of stores from `pos` on, and the next position.
unfoldable pub emit : List ℕ → ℕ → List ℕ → Option (List ℕ × ℕ)
unfolding store_all
emit bytes pos vs = store_all bytes pos vs >>= λ d. some (d, pos + length vs)

-- `LenEncIntSize`
unfoldable pub len_enc_int_size : ℕ → ℕ
len_enc_int_size i =
    if ltb i 251 then 1 else if ltb i (2 ^ 16) then 3 else if ltb i (2 ^ 24) then 4 else 9

-- `WriteLenEncInt`: the stores of its four cases.
unfoldable pub len_enc_int_bytes : ℕ → List ℕ
len_enc_int_bytes i =
    if ltb i 251
    then byte_at i 0 ∷ []
    else if ltb i (2 ^ 16)
    then 0xfc ∷ bytes2 i
    else if ltb i (2 ^ 24)
    then 0xfd ∷ bytes3 i
    else 0xfe ∷ bytes8 i

unfoldable pub write_len_enc_int : List ℕ → ℕ → ℕ → Option (List ℕ × ℕ)
unfolding emit len_enc_int_bytes
write_len_enc_int bytes pos i = emit bytes pos (len_enc_int_bytes i)

-- `LenNullString`, `LenEOFString`, `LenEncStringSize`
unfoldable pub len_null_string : List ℕ → ℕ
len_null_string value = length value + 1

unfoldable pub len_eof_string : List ℕ → ℕ
len_eof_string value = length value

unfoldable pub len_enc_string_size : List ℕ → ℕ
len_enc_string_size value = let l = length value in len_enc_int_size l + l

-- `pos += copy(data[pos:], value)`: the slice panics behind the end, and what does not fit is not
-- copied.
unfoldable pub write_eof_string : List ℕ → ℕ → List ℕ → Option (List ℕ × ℕ)
write_eof_string bytes pos value =
    if leb pos (length bytes)
    then some (overlay bytes pos value, pos + min (length bytes - pos) (length value))
    else none

unfoldable pub write_byte : List ℕ → ℕ → ℕ → Option (List ℕ × ℕ)
unfolding emit
write_byte bytes pos value = emit bytes pos (value ∷ [])

unfoldable pub write_null_string : List ℕ → ℕ → List ℕ → Option (List ℕ × ℕ)
unfolding write_eof_string write_byte
write_null_string bytes pos value = do (d, p) ← write_eof_string bytes pos value; write_byte d p 0

unfoldable pub write_uint16 : List ℕ → ℕ → ℕ → Option (List ℕ × ℕ)
unfolding emit
write_uint16 bytes pos value = emit bytes pos (bytes2 value)

unfoldable pub write_uint32 : List ℕ → ℕ → ℕ → Option (List ℕ × ℕ)
unfolding emit
write_uint32 bytes pos value = emit bytes pos (bytes4 value)

unfoldable pub write_uint64 : List ℕ → ℕ → ℕ → Option (List ℕ × ℕ)
unfolding emit
write_uint64 bytes pos value = emit bytes pos (bytes8 value)

unfoldable pub write_len_enc_string : List ℕ → ℕ → List ℕ → Option (List ℕ × ℕ)
unfolding write_len_enc_int write_eof_string
write_len_enc_string bytes pos value = do
  (d, p) ← write_len_enc_int bytes pos (length value)
  write_eof_string d p value

-- The loop of `WriteZeroes`, over the rounds left.
unfoldable pub zeroes : ℕ → List ℕ → ℕ → Option (List ℕ)
unfolding store
zeroes zero bytes pos = some bytes
zeroes (suc n) bytes pos = store bytes pos 0 >>= λ d. zeroes n d (pos + 1)

unfoldable pub write_zeroes : List ℕ → ℕ → ℕ → Option (List ℕ × ℕ)
unfolding zeroes
write_zeroes bytes pos len = zeroes len bytes pos >>= λ d. some (d, pos + len)
