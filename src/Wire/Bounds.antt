-- ===== src/Wire/Bounds.antt =====
-- What the decoding functions do on any input: how far they read, and where they panic.
use dbpack.Common.{
  ℕ, zero, suc, ◌+◌, ◌^◌, ◌≤◌, ◌<◌, ◌≡◌, ◌≢◌, ◌⊎◌, [], ◌∷◌, none, length, slice, arith, All,
}
use dbpack.Wire.Write.{len_enc_int_bytes, len_enc_int_size, write_len_enc_int}
use dbpack.Wire.Read.{
  Read, done, short, panic, at, cut, read_bytes, read_len_enc_int, read_len_enc_string,
  skip_len_enc_string, Bytes,
}
use dbpack.Wire.Stores.{emit-none, len_enc_int_size-pos, length-len_enc_int_bytes}

module _ (bytes : Bytes) (pos size : ℕ) (h : pos ≤ length bytes) (l : length bytes < 2 ^ 63) where
  pub read_bytes_fits :
      pos + size ≤ length bytes
      → read_bytes bytes pos size ≡ done (slice bytes pos (pos + size)) (pos + size)
  unfolding read_bytes
  read_bytes_fits f = ground arith

  read_bytes_short :
      length bytes < pos + size → pos + size ≤ 2 ^ 63 → read_bytes bytes pos size ≡ short
  unfolding read_bytes
  read_bytes_short f g = ground arith

  read_bytes_panic : 2 ^ 63 < pos + size → size < 2 ^ 64 → read_bytes bytes pos size ≡ panic
  unfolding read_bytes
  read_bytes_panic f g = ground arith

-- The three outcomes of `ReadBytes`, for a position inside the buffer and a size of 64 bits: the
-- bytes, if they are there; `ok` false, if they are not; and a panic, if the end of the read is
-- above 2^63.
pub read_bytes_outcome :
    (bytes : Bytes) (pos size : ℕ)
    → pos ≤ length bytes
    → length bytes < 2 ^ 63
    → size < 2 ^ 64
    → ((pos + size ≤ length bytes)
        × (read_bytes bytes pos size ≡ done (slice bytes pos (pos + size)) (pos + size)))
      ⊎ ((length bytes < pos + size) × (pos + size ≤ 2 ^ 63) × (read_bytes bytes pos size ≡ short))
      ⊎ ((2 ^ 63 < pos + size) × (read_bytes bytes pos size ≡ panic))
read_bytes_outcome bytes pos size h l s = ground (
  arith,
  read_bytes_fits bytes pos size h l,
  read_bytes_short bytes pos size h l,
  read_bytes_panic bytes pos size h l,
)

-- Every element of a buffer is a byte.
abbrev pub IsBuffer : Bytes → Type 0
IsBuffer = All (λ b. b < 256)

at-lt : (bytes : Bytes) (i : ℕ) → IsBuffer bytes → at bytes i < 256
at-lt [] i v = omega arith
at-lt (b ∷ bs) zero v = v.0
at-lt (b ∷ bs) (suc i) v = at-lt bs i v.1

-- What a decoder of integers promises of its result: a uint64, and a next position that lies
-- behind `pos`, at most nine bytes further, and inside the buffer.
abbrev pub Within : Bytes → ℕ → Read ℕ → Type 0
Within bytes pos (done v p) = (v < 2 ^ 64) × (pos < p) × (p ≤ pos + 9) × (p ≤ length bytes)
Within bytes pos short = length bytes < pos + 9
Within bytes pos panic = ⊥

-- On every buffer and at every position `ReadLenEncInt` returns a uint64 and a next position inside
-- the buffer, one to nine bytes on, or answers that the buffer ends within nine bytes; it never panics.
pub read_len_enc_int-Within :
    (bytes : Bytes) (pos : ℕ) → IsBuffer bytes → Within bytes pos (read_len_enc_int bytes pos)
unfolding read_len_enc_int
read_len_enc_int-Within bytes pos v = ground (
  arith,
  at-lt bytes pos v,
  at-lt bytes (pos + 1) v,
  at-lt bytes (pos + 1 + 1) v,
  at-lt bytes (pos + 1 + 2) v,
  at-lt bytes (pos + 1 + 3) v,
  at-lt bytes (pos + 1 + 4) v,
  at-lt bytes (pos + 1 + 5) v,
  at-lt bytes (pos + 1 + 6) v,
  at-lt bytes (pos + 1 + 7) v,
)

-- A length of 2^63 or more in a length-encoded string makes `ReadLenEncString` panic, where the
-- buffer is shorter than 2^63 bytes.
pub read_len_enc_string_panics :
    (bytes : Bytes) (pos size p : ℕ)
    → IsBuffer bytes
    → length bytes < 2 ^ 63
    → read_len_enc_int bytes pos ≡ done size p
    → 2 ^ 63 ≤ size
    → read_len_enc_string bytes pos ≡ panic
unfolding read_len_enc_string
read_len_enc_string_panics bytes pos size p v l e h =
    let w : Within bytes pos (done size p) = rw e at (read_len_enc_int-Within bytes pos v) in
    rw (e, read_len_enc_string) (read_bytes_panic bytes p size w.3 l (omega arith) w.0)

-- `WriteLenEncInt` panics when its bytes do not fit.
pub write_len_enc_int-none :
    (bytes : Bytes) (pos i : ℕ)
    → length bytes < pos + len_enc_int_size i
    → write_len_enc_int bytes pos i ≡ none
unfolding write_len_enc_int
write_len_enc_int-none bytes pos i h =
    let e = length-len_enc_int_bytes i in
    emit-none bytes pos (len_enc_int_bytes i) (omega (arith, e, len_enc_int_size-pos i))
      (omega (arith, e))

-- The outcome of a decoder, without its value.
abbrev pub position {ℓ} : {A : Type ℓ} → Read A → Read (Unit {0})
position (done v p) = done tt p
position short = short
position panic = panic

-- Wherever `ReadLenEncString` does not panic, `SkipLenEncString` has the same outcome: both answer
-- `ok` false, or both move to the same position.
pub skip-read_len_enc_string :
    (bytes : Bytes) (pos : ℕ)
    → read_len_enc_string bytes pos ≢ panic
    → skip_len_enc_string bytes pos ≡ position (read_len_enc_string bytes pos)
unfolding skip_len_enc_string read_len_enc_string read_bytes cut
skip-read_len_enc_string bytes pos h = ground arith
