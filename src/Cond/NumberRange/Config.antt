-- ===== src/Cond/NumberRange/Config.antt =====
-- The configuration of `NumberRange`, `parseNumberRangeConfig` of pkg/cond/algo_number_range.go.
use dbpack.Common.{
  ℕ, ◌*◌, List, [], ◌∷◌, ◌++◌, Bool, true, false, ◌&&◌, ◌||◌, ◌==◌, if◌then◌else◌, Option, none,
  some,
}
use dbpack.Common.Int.{ℤ, pos_part, neg_part, sub_ℕ, ◌==ℤ◌, leb_ℤ, wrap64}
use dbpack.Value.{Bytes, is_digit, good, syntax_error, range_error, parse_int}
use dbpack.Cond.{not_a_number, bad_range, Result, ok, err, ◌>>=◌, Topology}
use dbpack.Cond.NumberRange.{Range, Ranges, NumberRange}

-- `ParseInt(s, 10, 64)` as a result; `Atoi` is the same for a 64-bit int.
unfoldable pub number_text : Bytes → Result ℤ
number_text s = elim (parse_int s) [
  | good z ↦ ok z
  | syntax_error ↦ err not_a_number
  | range_error z ↦ err not_a_number
]

-- `z * k` on int64.
unfoldable pub mul64 : ℤ → ℕ → ℤ
mul64 z k = wrap64 (sub_ℕ (pos_part z * k) (neg_part z * k))

-- `strings.HasSuffix(s, c)` and `strings.TrimSuffix(s, c)` for one byte.
unfoldable pub has_suffix : Bytes → ℕ → Bool
has_suffix [] c = false
has_suffix (d ∷ []) c = d == c
has_suffix (d ∷ e ∷ s) c = has_suffix (e ∷ s) c

unfoldable pub trim_suffix : Bytes → ℕ → Bytes
trim_suffix [] c = []
trim_suffix (d ∷ []) c = if d == c then [] else d ∷ []
trim_suffix (d ∷ e ∷ s) c = d ∷ trim_suffix (e ∷ s) c

-- `parseNumber`
unfoldable pub parse_number : Bytes → Result ℤ
unfolding number_text mul64 has_suffix trim_suffix
parse_number num =
    if has_suffix num b'k' || has_suffix num b'K'
    then (number_text (trim_suffix (trim_suffix num b'k') b'K') >>= λ n. ok (mul64 n 1000))
    else if has_suffix num b'm' || has_suffix num b'M'
    then (number_text (trim_suffix (trim_suffix num b'm') b'M') >>= λ n. ok (mul64 n 10000))
    else number_text num

-- `[\dKkMm]`
unfoldable pub in_class : ℕ → Bool
in_class c = is_digit c || c == b'K' || c == b'k' || c == b'M' || c == b'm'

unfoldable pub all_in_class : Bytes → Bool
unfolding in_class
all_in_class [] = true
all_in_class (c ∷ cs) = in_class c && all_in_class cs

unfoldable pub filled : Bytes → Bool
filled [] = false
filled (c ∷ cs) = true

-- The groups of `^([\dKkMm]+)-([\dKkMm]+)$`, behind the part of the first one that is read.
unfoldable pub groups_from : Bytes → Bytes → Option (Bytes × Bytes)
unfolding all_in_class filled
groups_from read [] = none
groups_from read (c ∷ cs) =
    let rest = groups_from (read ++ c ∷ []) cs in
    if in_class c
    then rest
    else if c == b'-' && filled read && filled cs && all_in_class cs
    then some (read, cs)
    else none

-- `parseNumberRange`
unfoldable pub checked_range : ℤ → ℤ → Result Range
checked_range begin end =
    if leb_ℤ end begin then err bad_range else ok (record { from = begin; to = end })

unfoldable pub parse_number_range : Bytes → Result Range
unfolding groups_from checked_range
parse_number_range s = elim (groups_from [] s) [
  | none ↦ err bad_range
  | some params ↦
      parse_number params.0 >>= λ begin. parse_number params.1 >>= λ end. checked_range begin end
]

-- `result[dbIdx] = numberRange`
unfoldable pub put_range : ℤ → Range → Ranges → Ranges
put_range idx rg [] = (idx, rg) ∷ []
put_range idx rg ((k, r) ∷ rs) =
    let rest = put_range idx rg rs in if k ==ℤ idx then (k, rg) ∷ rs else (k, r) ∷ rest

-- One round of the loop of `parseNumberRangeConfig`; a value that is not a string is `none`.
unfoldable pub parse_entry : Bytes → Option Bytes → Ranges → Result Ranges
unfolding parse_number_range put_range number_text
parse_entry key none result = err bad_range
parse_entry key (some s) result =
    number_text key >>= λ idx. parse_number_range s >>= λ rg. ok (put_range idx rg result)

unfoldable pub parse_entries : List (Bytes × Option Bytes) → Ranges → Result Ranges
parse_entries [] result = ok result
parse_entries ((key, value) ∷ config) result = parse_entry key value result >>= parse_entries config

-- `NewNumberRange`
unfoldable pub new_number_range :
    Bytes → Bool → Topology → List (Bytes × Option Bytes) → Result NumberRange
unfolding parse_entries
new_number_range key scan topology config = parse_entries config [] >>= λ rs.
    ok (record { sharding_key = key; allow_full_scan = scan; topology = topology; ranges = rs })
