-- ===== src/Wire/Examples.antt =====
-- Runs of the wire encoding, and its theorems at concrete inputs.
use dbpack.Common.{◌≡◌, refl, [], ◌∷◌, some, arith}
use dbpack.Wire.Write.{
  write_len_enc_int, write_len_enc_string, write_null_string, write_eof_string, write_zeroes,
  len_enc_int_size, len_enc_string_size, len_null_string,
}
use dbpack.Wire.Read.{
  Bytes, done, read_len_enc_int, read_eof_string, read_len_enc_string, read_null_string,
  skip_len_enc_string,
}
use dbpack.Wire.RoundTrip.{ReadsBack, read_len_enc_int-write_len_enc_int}
use dbpack.Wire.Strings.{
  read_len_enc_string-write_len_enc_string, read_null_string-write_null_string,
}
use dbpack.Wire.Bounds.{Within, read_len_enc_int-Within}

abbrev ten : Bytes
ten = 9 ∷ 9 ∷ 9 ∷ 9 ∷ 9 ∷ 9 ∷ 9 ∷ 9 ∷ 9 ∷ 9 ∷ []

-- A length of 2^64 - 1.
abbrev huge : Bytes
huge = 0xfe ∷ 255 ∷ 255 ∷ 255 ∷ 255 ∷ 255 ∷ 255 ∷ 255 ∷ 255 ∷ 7 ∷ []

write_1000 :
    write_len_enc_int ten 2 1000 ≡ some (9 ∷ 9 ∷ 0xfc ∷ 0xe8 ∷ 3 ∷ 9 ∷ 9 ∷ 9 ∷ 9 ∷ 9 ∷ [], 5)
unfolding write_len_enc_int
write_1000 = refl

-- What does not fit is cut off without a panic.
eof_cut : write_eof_string (9 ∷ 9 ∷ []) 1 (1 ∷ 2 ∷ []) ≡ some (9 ∷ 1 ∷ [], 2)
unfolding write_eof_string
eof_cut = refl

zeroes_two : write_zeroes (9 ∷ 9 ∷ 9 ∷ []) 1 2 ≡ some (9 ∷ 0 ∷ 0 ∷ [], 3)
unfolding write_zeroes
zeroes_two = refl

-- The second result is a count of bytes, and no position.
eof_count : read_eof_string (1 ∷ 2 ∷ 3 ∷ []) 1 ≡ done (2 ∷ 3 ∷ []) 2
unfolding read_eof_string
eof_count = refl

-- Skipping over a huge length goes back by one byte.
skip_huge : skip_len_enc_string huge 0 ≡ done tt 8
unfolding skip_len_enc_string read_len_enc_int
skip_huge = refl

read_len_enc_int-write_len_enc_int_example :
    ReadsBack ten (write_len_enc_int ten 2 100000) (λ d. read_len_enc_int d 2) 100000 6
unfolding len_enc_int_size
read_len_enc_int-write_len_enc_int_example =
    read_len_enc_int-write_len_enc_int ten 2 100000 (omega arith) (omega arith)

read_len_enc_string-write_len_enc_string_example :
    ReadsBack ten
      (write_len_enc_string ten 2 (104 ∷ 105 ∷ []))
      (λ d. read_len_enc_string d 2)
      (104 ∷ 105 ∷ [])
      5
unfolding len_enc_string_size len_enc_int_size
read_len_enc_string-write_len_enc_string_example =
    read_len_enc_string-write_len_enc_string ten 2 (104 ∷ 105 ∷ []) (omega arith) (omega arith)

read_null_string-write_null_string_example :
    ReadsBack ten
      (write_null_string ten 2 (104 ∷ 105 ∷ []))
      (λ d. read_null_string d 2)
      (104 ∷ 105 ∷ [])
      5
unfolding len_null_string
read_null_string-write_null_string_example =
    read_null_string-write_null_string ten 2 (104 ∷ 105 ∷ []) (omega arith) (omega arith)

read_len_enc_int-Within_example : Within huge 0 (read_len_enc_int huge 0)
read_len_enc_int-Within_example = read_len_enc_int-Within huge 0 (omega arith)

abbrev word : Bytes
word = 2 ∷ 104 ∷ 105 ∷ []
