-- ===== src/Wire/RoundTrip.antt =====
-- Round trips of the integers of the wire encoding.
use dbpack.Common.{
  ℕ, ◌+◌, ◌*◌, ◌^◌, ◌≤◌, ◌<◌, ◌≡◌, List, [], ◌∷◌, ◌++◌, Option, some, length, overlay, get_or,
  arith, get_or-overlay, length-overlay,
}
use mathlib.Core.List.{append-nil}
use dbpack.Wire.Write.{
  byte_at, bytes2, bytes3, bytes4, bytes8, len_enc_int_bytes, len_enc_int_size, write_len_enc_int,
  write_uint16, write_uint32, write_uint64,
}
use dbpack.Wire.Read.{Read, done, at, read_len_enc_int, read_uint16, read_uint32, read_uint64}
use dbpack.Wire.Stores.{emit-overlay, length-len_enc_int_bytes}

join2 : (i : ℕ) → i < 2 ^ 16 → byte_at i 0 + byte_at i 8 * 2 ^ 8 ≡ i
join2 i h = omega arith

join4 :
    (i : ℕ)
    → i < 2 ^ 32
    → byte_at i 0 + byte_at i 8 * 2 ^ 8 + byte_at i 16 * 2 ^ 16 + byte_at i 24 * 2 ^ 24 ≡ i
join4 i h = omega arith

join8 :
    (i : ℕ)
    → i < 2 ^ 64
    → byte_at i 0
        + byte_at i 8 * 2 ^ 8
        + byte_at i 16 * 2 ^ 16
        + byte_at i 24 * 2 ^ 24
        + byte_at i 32 * 2 ^ 32
        + byte_at i 40 * 2 ^ 40
        + byte_at i 48 * 2 ^ 48
        + byte_at i 56 * 2 ^ 56
      ≡ i
join8 i h = omega arith

join3 : (i : ℕ) → i < 2 ^ 24 → byte_at i 0 + byte_at i 8 * 2 ^ 8 + byte_at i 16 * 2 ^ 16 ≡ i
join3 i h = omega arith

-- The bytes behind the position of a run that fits.
module _ (bytes : List ℕ) (pos : ℕ) (vs : List ℕ) (fits : pos + length vs ≤ length bytes) where
  found : (j p : ℕ) → j < length vs → p ≡ pos + j → at (overlay bytes pos vs) p ≡ get_or vs j 0
  found j p h e = rw e (get_or-overlay bytes pos vs j 0 fits h)

-- A write that stays inside the buffer, moves to `next`, and is read back as `value`.
abbrev pub ReadsBack {ℓ} :
    {A : Type ℓ} → List ℕ → Option (List ℕ × ℕ) → (List ℕ → Read A) → A → ℕ → Type ℓ
ReadsBack bytes written reader value next =
    (d : List ℕ) × (written ≡ some (d, next))
    × (length d ≡ length bytes)
    × (reader d ≡ done value next)

-- `ReadUint16` reads back what `WriteUint16` wrote, if two bytes fit.
pub read_uint16-write_uint16 :
    (bytes : List ℕ) (pos i : ℕ)
    → i < 2 ^ 16
    → pos + 2 ≤ length bytes
    → ReadsBack bytes (write_uint16 bytes pos i) (λ d. read_uint16 d pos) i (pos + 2)
read_uint16-write_uint16 bytes pos i h fits =
    let vs : List ℕ = bytes2 i in
    let d : List ℕ = overlay bytes pos vs in
    (
      d,
      unfold write_uint16 in emit-overlay bytes pos vs fits,
      length-overlay bytes pos vs,
      unfold read_uint16 in
          ground (
            arith,
            length-overlay bytes pos vs,
            found bytes pos vs fits 0 pos (omega arith) (omega arith),
            found bytes pos vs fits 1 (pos + 1) (omega arith) (omega arith),
            join2 i h,
          ),
    )

-- `ReadUint32` reads back what `WriteUint32` wrote, if four bytes fit.
pub read_uint32-write_uint32 :
    (bytes : List ℕ) (pos i : ℕ)
    → i < 2 ^ 32
    → pos + 4 ≤ length bytes
    → ReadsBack bytes (write_uint32 bytes pos i) (λ d. read_uint32 d pos) i (pos + 4)
read_uint32-write_uint32 bytes pos i h fits =
    let vs : List ℕ = bytes4 i in
    let d : List ℕ = overlay bytes pos vs in
    (
      d,
      unfold write_uint32 in emit-overlay bytes pos vs fits,
      length-overlay bytes pos vs,
      unfold read_uint32 in
          ground (
            arith,
            length-overlay bytes pos vs,
            found bytes pos vs fits 0 pos (omega arith) (omega arith),
            found bytes pos vs fits 1 (pos + 1) (omega arith) (omega arith),
            found bytes pos vs fits 2 (pos + 2) (omega arith) (omega arith),
            found bytes pos vs fits 3 (pos + 3) (omega arith) (omega arith),
            join4 i h,
          ),
    )

-- `ReadUint64` reads back what `WriteUint64` wrote, if eight bytes fit.
pub read_uint64-write_uint64 :
    (bytes : List ℕ) (pos i : ℕ)
    → i < 2 ^ 64
    → pos + 8 ≤ length bytes
    → ReadsBack bytes (write_uint64 bytes pos i) (λ d. read_uint64 d pos) i (pos + 8)
read_uint64-write_uint64 bytes pos i h fits =
    let vs : List ℕ = bytes8 i in
    let d : List ℕ = overlay bytes pos vs in
    (
      d,
      unfold write_uint64 in emit-overlay bytes pos vs fits,
      length-overlay bytes pos vs,
      unfold read_uint64 in
          ground (
            arith,
            length-overlay bytes pos vs,
            found bytes pos vs fits 0 pos (omega arith) (omega arith),
            found bytes pos vs fits 1 (pos + 1) (omega arith) (omega arith),
            found bytes pos vs fits 2 (pos + 2) (omega arith) (omega arith),
            found bytes pos vs fits 3 (pos + 3) (omega arith) (omega arith),
            found bytes pos vs fits 4 (pos + 4) (omega arith) (omega arith),
            found bytes pos vs fits 5 (pos + 5) (omega arith) (omega arith),
            found bytes pos vs fits 6 (pos + 6) (omega arith) (omega arith),
            found bytes pos vs fits 7 (pos + 7) (omega arith) (omega arith),
            join8 i h,
          ),
    )

-- The four forms of a length-encoded integer, followed by `rest`.

read_tag0 :
    (bytes : List ℕ) (pos i : ℕ) (rest : List ℕ)
    → i < 251
    → pos + (1 + length rest) ≤ length bytes
    → read_len_enc_int (overlay bytes pos ((byte_at i 0 ∷ []) ++ rest)) pos ≡ done i (pos + 1)
unfolding read_len_enc_int
read_tag0 bytes pos i rest h l =
    let vs : List ℕ = (byte_at i 0 ∷ []) ++ rest in
    let fits : pos + length vs ≤ length bytes = omega arith in
    ground (
      arith,
      length-overlay bytes pos vs,
      found bytes pos vs fits 0 pos (omega arith) (omega arith),
    )

read_tag2 :
    (bytes : List ℕ) (pos i : ℕ) (rest : List ℕ)
    → i < 2 ^ 16
    → pos + (3 + length rest) ≤ length bytes
    → read_len_enc_int (overlay bytes pos ((0xfc ∷ bytes2 i) ++ rest)) pos ≡ done i (pos + 3)
unfolding read_len_enc_int
read_tag2 bytes pos i rest h l =
    let vs : List ℕ = (0xfc ∷ bytes2 i) ++ rest in
    let fits : pos + length vs ≤ length bytes = omega arith in
    ground (
      arith,
      length-overlay bytes pos vs,
      found bytes pos vs fits 0 pos (omega arith) (omega arith),
      found bytes pos vs fits 1 (pos + 1) (omega arith) (omega arith),
      found bytes pos vs fits 2 (pos + 2) (omega arith) (omega arith),
      join2 i h,
    )

read_tag3 :
    (bytes : List ℕ) (pos i : ℕ) (rest : List ℕ)
    → i < 2 ^ 24
    → pos + (4 + length rest) ≤ length bytes
    → read_len_enc_int (overlay bytes pos ((0xfd ∷ bytes3 i) ++ rest)) pos ≡ done i (pos + 4)
unfolding read_len_enc_int
read_tag3 bytes pos i rest h l =
    let vs : List ℕ = (0xfd ∷ bytes3 i) ++ rest in
    let fits : pos + length vs ≤ length bytes = omega arith in
    ground (
      arith,
      length-overlay bytes pos vs,
      found bytes pos vs fits 0 pos (omega arith) (omega arith),
      found bytes pos vs fits 1 (pos + 1) (omega arith) (omega arith),
      found bytes pos vs fits 2 (pos + 2) (omega arith) (omega arith),
      found bytes pos vs fits 3 (pos + 3) (omega arith) (omega arith),
      join3 i h,
    )

read_tag8 :
    (bytes : List ℕ) (pos i : ℕ) (rest : List ℕ)
    → i < 2 ^ 64
    → pos + (9 + length rest) ≤ length bytes
    → read_len_enc_int (overlay bytes pos ((0xfe ∷ bytes8 i) ++ rest)) pos ≡ done i (pos + 9)
unfolding read_len_enc_int
read_tag8 bytes pos i rest h l =
    let vs : List ℕ = (0xfe ∷ bytes8 i) ++ rest in
    let fits : pos + length vs ≤ length bytes = omega arith in
    ground (
      arith,
      length-overlay bytes pos vs,
      found bytes pos vs fits 0 pos (omega arith) (omega arith),
      found bytes pos vs fits 1 (pos + 1) (omega arith) (omega arith),
      found bytes pos vs fits 2 (pos + 2) (omega arith) (omega arith),
      found bytes pos vs fits 3 (pos + 3) (omega arith) (omega arith),
      found bytes pos vs fits 4 (pos + 4) (omega arith) (omega arith),
      found bytes pos vs fits 5 (pos + 5) (omega arith) (omega arith),
      found bytes pos vs fits 6 (pos + 6) (omega arith) (omega arith),
      found bytes pos vs fits 7 (pos + 7) (omega arith) (omega arith),
      found bytes pos vs fits 8 (pos + 8) (omega arith) (omega arith),
      join8 i h,
    )

pub read_len_enc_int_bytes :
    (bytes : List ℕ) (pos i : ℕ) (rest : List ℕ)
    → i < 2 ^ 64
    → pos + (len_enc_int_size i + length rest) ≤ length bytes
    → read_len_enc_int (overlay bytes pos (len_enc_int_bytes i ++ rest)) pos
      ≡ done i (pos + len_enc_int_size i)
unfolding len_enc_int_bytes len_enc_int_size
read_len_enc_int_bytes bytes pos i rest h fits = ground (
  arith,
  read_tag0 bytes pos i rest,
  read_tag2 bytes pos i rest,
  read_tag3 bytes pos i rest,
  read_tag8 bytes pos i rest,
)

-- `ReadLenEncInt` reads back every uint64 that `WriteLenEncInt` wrote, if `LenEncIntSize` bytes
-- fit, and both move on by that many.
pub read_len_enc_int-write_len_enc_int :
    (bytes : List ℕ) (pos i : ℕ)
    → i < 2 ^ 64
    → pos + len_enc_int_size i ≤ length bytes
    → ReadsBack bytes
        (write_len_enc_int bytes pos i)
        (λ d. read_len_enc_int d pos)
        i
        (pos + len_enc_int_size i)
read_len_enc_int-write_len_enc_int bytes pos i h fits =
    let vs : List ℕ = len_enc_int_bytes i in
    let e : length vs ≡ len_enc_int_size i = length-len_enc_int_bytes i in
    (
      overlay bytes pos vs,
      unfold write_len_enc_int in rw (← e) (emit-overlay bytes pos vs (omega arith)),
      length-overlay bytes pos vs,
      rw append-nil at (read_len_enc_int_bytes bytes pos i [] h (omega arith)),
    )
