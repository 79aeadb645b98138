-- ===== src/Pad.antt =====
-- Padding of strings, `PadLeft` and `PadRight` of pkg/misc/strings.go.
mod Examples
use dbpack.Common.{
  ℕ, zero, suc, ◌+◌, ◌-◌, ◌≤◌, ◌<◌, ◌≡◌, refl, ap, List, [], ◌∷◌, ◌++◌, Bool, true, false, ltb, leb,
  ◌==◌, if◌then◌else◌, Bool-cases, inl, inr, length, length-append, take, lt→ltb, arith,
}
use mathlib.Core.List.{append-nil}
use dbpack.Common.Int.{ℤ, pos, negsuc}
use dbpack.Value.{Bytes}
use dbpack.Cond.{Result, ok, err, panic, stuck, ◌>>=◌}

-- The loop: `pad` is written until the builder has `len` bytes, and what is too much is cut off. Its
-- fuel is the number of rounds.
unfoldable pub pad_loop : ℕ → Bytes → ℕ → Bytes → Result Bytes
pad_loop zero pad len sb = stuck
pad_loop (suc rounds) pad len sb =
    let rest = pad_loop rounds pad len (sb ++ pad) in
    if length sb == len then ok sb else if ltb len (length sb) then ok (take len sb) else rest

-- `PadLeft`; the slice up to a negative length panics.
unfoldable pub pad_left : Bytes → Bytes → ℤ → Result Bytes
pad_left str pad (negsuc n) = panic
pad_left str pad (pos len) =
    if length str == len
    then ok str
    else if ltb len (length str)
    then ok (take len str)
    else (pad_loop (suc (len - length str)) pad (len - length str) [] >>= λ sb. ok (sb ++ str))

-- `PadRight`
unfoldable pub pad_right : Bytes → Bytes → ℤ → Result Bytes
pad_right str pad (negsuc n) = panic
pad_right str pad (pos len) =
    if leb len (length str)
    then ok (take len str)
    else pad_loop (suc (len - length str)) pad len str

length-take : (n : ℕ) (xs : Bytes) → n ≤ length xs → length (take n xs) ≡ n
length-take zero xs h = refl
length-take (suc n) [] h = absurd (omega arith)
length-take (suc n) (x ∷ xs) h = ap suc (length-take n xs (omega arith))

-- Some rounds fill the builder, if a round writes something.
pad_loop-fills :
    (rounds : ℕ) (pad : Bytes) (len : ℕ) (sb : Bytes)
    → 0 < length pad
    → len ≤ length sb + rounds
    → (xs : Bytes) × (pad_loop (suc rounds) pad len sb ≡ ok xs) × (length xs ≡ len)
unfolding pad_loop
pad_loop-fills zero pad len sb p h = elim (Bool-cases (length sb == len)) [
  | inl e ↦ (sb, rw e, ground arith)
  | inr e ↦ elim (Bool-cases (ltb len (length sb))) [
    | inl l ↦ (take len sb, rw (e, l), length-take len sb (ground arith))
    | inr l ↦ absurd (ground arith)
  ]
]
pad_loop-fills (suc rounds) pad len sb p h = elim (Bool-cases (length sb == len)) [
  | inl e ↦ (sb, rw e, ground arith)
  | inr e ↦ elim (Bool-cases (ltb len (length sb))) [
    | inl l ↦ (take len sb, rw (e, l), length-take len sb (ground arith))
    | inr l ↦
        let (xs, more, n) =
          pad_loop-fills rounds pad len (sb ++ pad) p (omega (arith, length-append sb pad)) in
        (xs, rw (e, l) more, n)
  ]
]

-- With a pad that is not empty, `PadLeft` of a string that is shorter than the length returns: its
-- result has that length, and ends in the string.
pad_left-length :
    (str pad : Bytes) (len : ℕ)
    → 0 < length pad
    → length str < len
    → (sb : Bytes) × (pad_left str pad (pos len) ≡ ok (sb ++ str)) × (length (sb ++ str) ≡ len)
unfolding pad_left
pad_left-length str pad len p h =
    let (sb, e, n) = pad_loop-fills (len - length str) pad (len - length str) [] p (omega arith) in
    let apart : (length str == len) ≡ false = ground arith in
    let longer : ltb len (length str) ≡ false = ground arith in
    (sb, rw (apart, longer, e), omega (arith, n, length-append sb str))

-- With an empty pad, the loop of `PadRight` for a string that is shorter than the length never ends:
-- no number of rounds is enough.
pad_loop-empty :
    (rounds len : ℕ) (str : Bytes) → length str < len → pad_loop rounds [] len str ≡ stuck
unfolding pad_loop
pad_loop-empty zero len str h = refl
pad_loop-empty (suc rounds) len str h =
    let apart : (length str == len) ≡ false = ground arith in
    let longer : ltb len (length str) ≡ false = ground arith in
    rw (apart, longer, append-nil) (pad_loop-empty rounds len str h)
