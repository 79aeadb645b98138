-- ===== src/Wire/Strings.antt =====
-- Round trips of the strings of the wire encoding.
use dbpack.Common.{
  ℕ, zero, ◌+◌, ◌^◌, ◌≤◌, ◌<◌, ◌≡◌, ◌≢◌, refl, sym, ◌∙◌, ap, [], ◌∷◌, ◌++◌, some, length, overlay,
  drop, arith, All, length-overlay, length-drop, slice, slice-overlay, overlay-overlay,
  drop-overlay,
}
use mathlib.Core.Path.{ap₂}
use mathlib.Core.List.{append-nil}
use dbpack.Wire.Write.{
  len_enc_int_bytes, len_enc_int_size, write_len_enc_int, write_eof_string, write_byte,
  write_null_string, write_len_enc_string, len_null_string, len_enc_string_size,
}
use dbpack.Wire.Read.{
  done, Bytes, read_len_enc_int, read_len_enc_string, index_zero, read_null_string,
}
use dbpack.Wire.Stores.{emit-overlay, length-len_enc_int_bytes}
use dbpack.Wire.RoundTrip.{ReadsBack, read_len_enc_int_bytes}
use dbpack.Wire.Bounds.{read_bytes_fits}

-- A string that fits is copied whole.
write_eof_string-overlay :
    (bytes : Bytes) (pos : ℕ) (value : Bytes)
    → pos + length value ≤ length bytes
    → write_eof_string bytes pos value ≡ some (overlay bytes pos value, pos + length value)
unfolding write_eof_string
write_eof_string-overlay bytes pos value h = ground arith

module _ (bytes : Bytes) (pos : ℕ) (value : Bytes) where
  encoded : Bytes
  encoded = overlay bytes pos (len_enc_int_bytes (length value) ++ value)

  write_len_enc_string-encoded :
      pos + len_enc_string_size value ≤ length bytes
      → write_len_enc_string bytes pos value ≡ some (encoded, pos + len_enc_string_size value)
  unfolding write_len_enc_string write_len_enc_int encoded len_enc_string_size
  write_len_enc_string-encoded h =
      let hd = len_enc_int_bytes (length value) in
      let e = length-len_enc_int_bytes (length value) in
      rw (emit-overlay bytes pos hd (omega (arith, e))) (
        write_eof_string-overlay (overlay bytes pos hd) (pos + length hd) value
          (omega (arith, e, length-overlay bytes pos hd))
        ∙ rw (overlay-overlay bytes pos hd value)
            (ap (λ k. some (overlay bytes pos (hd ++ value), k)) (omega (arith, e))))

  slice-encoded :
      (lo : ℕ)
      → lo ≡ pos + len_enc_int_size (length value)
      → lo + length value ≤ length bytes
      → slice encoded lo (lo + length value) ≡ value
  unfolding encoded
  slice-encoded lo e h =
      let hd = len_enc_int_bytes (length value) in
      let d = overlay bytes pos hd in
      let f : lo ≡ pos + length hd = omega (arith, length-len_enc_int_bytes (length value)) in
      let g : overlay bytes pos (hd ++ value) ≡ overlay d lo (value ++ []) =
        sym (overlay-overlay bytes pos hd value)
        ∙ rw (append-nil value) (ap (λ k. overlay d k value) (sym f)) in
      rw g (slice-overlay d lo value [] (omega (arith, length-overlay bytes pos hd)))

  read_len_enc_string-encoded :
      pos + len_enc_string_size value ≤ length bytes
      → length bytes < 2 ^ 63
      → read_len_enc_string encoded pos ≡ done value (pos + len_enc_string_size value)
  unfolding len_enc_string_size read_len_enc_string
  read_len_enc_string-encoded h l =
      let lo = pos + len_enc_int_size (length value) in
      let n : length encoded ≡ length bytes = unfold encoded in length-overlay bytes pos _ in
      let a : read_len_enc_int encoded pos ≡ done (length value) lo =
        unfold encoded in
        read_len_enc_int_bytes bytes pos (length value) value (omega arith) (omega arith) in
      let b =
        read_bytes_fits encoded lo (length value) (omega (arith, n)) (omega (arith, n))
          (omega (arith, n)) in
      rw (a, read_len_enc_string) (b ∙ ap₂ done (slice-encoded lo refl (omega arith)) (omega arith))

-- `ReadLenEncString` reads back every string that `WriteLenEncString` wrote, if
-- `LenEncStringSize` bytes fit, and both move on by that many.
pub read_len_enc_string-write_len_enc_string :
    (bytes : Bytes) (pos : ℕ) (value : Bytes)
    → pos + len_enc_string_size value ≤ length bytes
    → length bytes < 2 ^ 63
    → ReadsBack bytes
        (write_len_enc_string bytes pos value)
        (λ d. read_len_enc_string d pos)
        value
        (pos + len_enc_string_size value)
read_len_enc_string-write_len_enc_string bytes pos value h l = (
  encoded bytes pos value,
  write_len_enc_string-encoded bytes pos value h,
  unfold encoded in length-overlay bytes pos _,
  read_len_enc_string-encoded bytes pos value h l,
)

index_zero-overlay :
    (xs value ws : Bytes)
    → All (λ b. b ≢ 0) value
    → length value < length xs
    → index_zero (overlay xs zero (value ++ 0 ∷ ws)) ≡ some (length value)
unfolding index_zero
index_zero-overlay [] value ws v h = absurd (omega arith)
index_zero-overlay (x ∷ xs) [] ws v h = refl
index_zero-overlay (x ∷ xs) (b ∷ value) ws v h =
    ground (arith, index_zero-overlay xs value ws v.1 (omega arith), v.0)

write_null_string-overlay :
    (bytes : Bytes) (pos : ℕ) (value : Bytes)
    → pos + length value + 1 ≤ length bytes
    → write_null_string bytes pos value
      ≡ some (overlay bytes pos (value ++ 0 ∷ []), pos + length value + 1)
unfolding write_null_string write_byte
write_null_string-overlay bytes pos value h =
    rw (write_eof_string-overlay bytes pos value (omega arith)) (
      emit-overlay (overlay bytes pos value) (pos + length value) (0 ∷ [])
        (omega (arith, length-overlay bytes pos value))
      ∙ rw (overlay-overlay bytes pos value (0 ∷ [])))

-- `ReadNullString` reads back every string without a zero byte that `WriteNullString` wrote, if
-- `LenNullString` bytes fit, and both move on by that many.
pub read_null_string-write_null_string :
    (bytes : Bytes) (pos : ℕ) (value : Bytes)
    → All (λ b. b ≢ 0) value
    → pos + len_null_string value ≤ length bytes
    → ReadsBack bytes
        (write_null_string bytes pos value)
        (λ d. read_null_string d pos)
        value
        (pos + len_null_string value)
unfolding len_null_string
read_null_string-write_null_string bytes pos value v h =
    let d : Bytes = overlay bytes pos (value ++ 0 ∷ []) in
    let n : length d ≡ length bytes = length-overlay bytes pos (value ++ 0 ∷ []) in
    let z : index_zero (drop pos d) ≡ some (length value) =
      rw (drop-overlay bytes pos (value ++ 0 ∷ []))
        (index_zero-overlay (drop pos bytes) value [] v (omega (arith, length-drop pos bytes))) in
    (
      d,
      write_null_string-overlay bytes pos value (omega arith) ∙ ap (λ k. some (d, k)) (omega arith),
      n,
      unfold read_null_string in
          ground (arith, z, n, slice-overlay bytes pos value (0 ∷ []) (omega arith)),
    )
