-- ===== src/Cond/Parse.antt =====
-- `ParseCondition`, pkg/cond/condition.go: the condition of a WHERE clause.
pub mod Spec
pub mod Sound
pub mod Meaning
pub mod Where
mod Examples
use dbpack.Common.{
  ℕ, zero, suc, ◌-◌, ◌^◌, ◌%◌, leb, ◌==◌, List, [], ◌∷◌, Option, none, some, Bool, true, false, not,
  if◌then◌else◌,
}
use dbpack.Common.Int.{ℤ, pos, negsuc, ltb_ℤ, leb_ℤ, ◌==ℤ◌}
use dbpack.Value.{
  Bytes, Value, Kind, integer, int, int8, int16, int32, int64, uint, uint8, uint16, uint32, uint64,
  text, compare_values,
}
use dbpack.Cond.{
  Error, Result, ok, err, panic, stuck, ◌>>=◌, unsupported, Op, eq, ne, lt, le, gt, ge, like,
  KeyCondition, Connective, conj, disj,
}
use dbpack.Cond.Build.{Ref, key, node, truth, falsity, absent, Heap, Step, alloc, and_ref, or_ref}

-- The operators of `BinaryOperationExpr`: comparisons, arithmetic, `LogicAnd`, `LogicOr`, and the
-- rest.
pub data BinaryOp : Type 0 where
  compared : Op → BinaryOp
  plus minus mul div logic_and logic_or other : BinaryOp

pub data UnaryOp : Type 0 where
  negation bit_neg minus plus : UnaryOp

-- The nodes of the syntax tree that the code tells apart. `function` stands for a call, a cast and a
-- CASE, which another package evaluates, and `other` for any other node.
mutual
  pub data Expr : Type 0 where
    column : Bytes → Expr
    value : Value → Expr
    param : ℕ → Expr
    unary : UnaryOp → Expr → Expr
    binary : BinaryOp → Expr → Expr → Expr
    like_pattern : Expr → Expr → Expr
    between : Bool → Expr → Expr → Expr → Expr
    in_list : Bool → Expr → Exprs → Expr
    parens : Expr → Expr
    function : ℕ → Expr
    other : Expr

  pub data Exprs : Type 0 where
    nil : Exprs
    cons : Expr → Exprs → Exprs

-- What the JavaScript engine makes of an arithmetic expression and of a function, and what a unary
-- operator makes of a string, which it reads as a float.
pub record Evaluator : Type 0 where
  pub eval : BinaryOp → Expr → Expr → List Value → Result Value
  pub eval_function : ℕ → List Value → Result Value
  pub unary_text : UnaryOp → Bytes → Result Value

-- The number of bits of an integer type, and the signed type with as many.
abbrev pub bits_of : Kind → ℕ
bits_of int8 = 8
bits_of uint8 = 8
bits_of int16 = 16
bits_of uint16 = 16
bits_of int32 = 32
bits_of uint32 = 32
bits_of _ = 64

abbrev pub signed_of : Kind → Kind
signed_of uint8 = int8
signed_of uint16 = int16
signed_of uint32 = int32
signed_of uint64 = int64
signed_of uint = int
signed_of k = k

-- `-z` for an integer of `w` bits, whose negation wraps around where it is the least one.
abbrev pub negate : ℕ → ℤ → ℤ
negate w (negsuc n) = if suc n == 2 ^ (w - 1) then negsuc n else pos (suc n)
negate w (pos zero) = pos 0
negate w (pos (suc n)) =
    let r = suc n % 2 ^ w in
    if leb r (2 ^ (w - 1)) then (if r == 0 then pos 0 else negsuc (r - 1)) else pos (2 ^ w - r)

-- The type of `!z`, and those of `^z`.
abbrev pub truth_of : Kind → Kind
truth_of uint = uint
truth_of _ = int

abbrev pub complement_of : Kind → Kind
complement_of uint = uint
complement_of _ = uint64

abbrev pub is_unsigned : Kind → Bool
is_unsigned uint = true
is_unsigned uint8 = true
is_unsigned uint16 = true
is_unsigned uint32 = true
is_unsigned uint64 = true
is_unsigned _ = false

abbrev pub widened : Kind → Kind
widened int = int
widened _ = int64

abbrev pub complement : Kind → ℤ → Value
complement k (pos zero) =
    if is_unsigned k
    then integer (complement_of k) (pos (2 ^ 64 - 1))
    else integer (widened k) (negsuc 0)
complement k (pos (suc n)) = integer (complement_of k) (pos (2 ^ 64 - 1 - suc n))
complement k (negsuc n) = integer (widened k) (pos n)

-- `misc.ComputeUnary` of an integer.
unfoldable pub unary_int : UnaryOp → Kind → ℤ → Value
unary_int negation k z = integer (truth_of k) (if z ==ℤ pos 0 then pos 1 else pos 0)
unary_int minus k z = integer (signed_of k) (negate (bits_of k) z)
unary_int bit_neg k z = complement k z
unary_int plus k z = integer k z

unfoldable pub compute_unary : Evaluator → UnaryOp → Value → Result Value
unfolding unary_int
compute_unary ev op (integer k z) = ok (unary_int op k z)
compute_unary ev op (text s) = ev.unary_text op s

abbrev pub arg_or_panic : List Value → ℕ → Result Value
arg_or_panic [] i = panic
arg_or_panic (v ∷ vs) zero = ok v
arg_or_panic (v ∷ vs) (suc i) = arg_or_panic vs i

-- `misc.IsZero`
unfoldable pub is_zero : Value → Bool
is_zero (integer k z) = z ==ℤ pos 0
is_zero (text []) = true
is_zero (text (c ∷ s)) = false

-- A `TrueCondition` or a `FalseCondition`.
abbrev pub constant : Bool → Ref
constant true = truth
constant false = falsity

-- `compareResult == 0` and the others; any other operator panics.
unfoldable pub compare_constants : Op → ℤ → Result Bool
compare_constants eq r = ok (r ==ℤ pos 0)
compare_constants ne r = ok (not (r ==ℤ pos 0))
compare_constants gt r = ok (ltb_ℤ (pos 0) r)
compare_constants ge r = ok (leb_ℤ (pos 0) r)
compare_constants lt r = ok (ltb_ℤ r (pos 0))
compare_constants le r = ok (leb_ℤ r (pos 0))
compare_constants like r = panic

-- The operator for `value op column`.
unfoldable pub flipped : Op → Result Op
flipped eq = ok eq
flipped ne = ok ne
flipped lt = ok gt
flipped le = ok ge
flipped gt = ok lt
flipped ge = ok le
flipped like = panic

abbrev pub key_of : Bytes → Op → Value → Ref
key_of name op v = key (record { key = name; op = op; value = v })

-- `expr.(*ast.ColumnNameExpr)`
abbrev pub column_of : Expr → Option Bytes
column_of (column name) = some name
column_of _ = none

-- A Go pair (value, error) whose error is looked at later.
pub data Attempt : Type 0 where
  got : Value → Attempt
  failed : Error → Attempt

abbrev pub attempt : Result Value → Result Attempt
attempt (ok v) = ok (got v)
attempt (err e) = ok (failed e)
attempt panic = panic
attempt stuck = stuck

-- `ParseCompareExpression` behind its test for two columns. Where neither side is a column and one
-- has no value, `key` is a nil pointer.
unfoldable pub compare_sides : Op → Option Bytes → Option Bytes → Attempt → Attempt → Result Ref
unfolding compare_constants flipped
compare_sides op l r (got v) (got w) =
    compare_constants op (compare_values v w) >>= λ b. ok (constant b)
compare_sides op (some l) none v (failed e) = err e
compare_sides op (some l) none (failed e) (got w) = ok (key_of l op w)
compare_sides op none (some r) (failed e) w = err e
compare_sides op none (some r) (got v) (failed e) = flipped op >>= λ o. ok (key_of r o v)
compare_sides op none none (failed e) w = panic
compare_sides op none none (got v) (failed e) = panic
compare_sides op (some l) (some r) (failed e) w = ok truth
compare_sides op (some l) (some r) (got v) (failed e) = ok truth

unfoldable pub compare_columns :
    Op → Option Bytes → Option Bytes → Result Value → Result Value → Result Ref
unfolding compare_sides
compare_columns op (some l) (some r) v w = ok truth
compare_columns op (some l) none v w =
    attempt v >>= λ a. attempt w >>= λ b. compare_sides op (some l) none a b
compare_columns op none r v w = attempt v >>= λ a. attempt w >>= λ b. compare_sides op none r a b

-- The nested expressions that `getValue` computes with.
abbrev pub is_math : BinaryOp → Bool
is_math plus = true
is_math minus = true
is_math mul = true
is_math div = true
is_math _ = false

-- `ParseLikeCondition` for a column: an error is dropped, and so is a pattern that is no string.
abbrev pub like_column : Bytes → Attempt → Ref
like_column name (got (text s)) = key_of name like (text s)
like_column name (got (integer k z)) = absent
like_column name (failed e) = absent

-- `ParseBetweenCondition` for a column.
abbrev pub between_column : Bool → Bytes → Value → Value → Step
between_column true name v w h = alloc disj (key_of name lt v ∷ key_of name gt w ∷ []) h
between_column false name v w h = alloc conj (key_of name ge v ∷ key_of name le w ∷ []) h

module _ (ev : Evaluator) (args : List Value) where
  -- `getValue`
  unfoldable pub get_value : Expr → Result Value
  unfolding compute_unary
  get_value (value v) = ok v
  get_value (param i) = arg_or_panic args i
  get_value (unary op e) = get_value e >>= compute_unary ev op
  get_value (binary op l r) = ev.eval op l r args
  get_value (function i) = ev.eval_function i args
  get_value (parens (binary op l r)) = if is_math op then ev.eval op l r args else err unsupported
  get_value _ = err unsupported

  unfoldable pub parse_like : Expr → Expr → Step
  unfolding get_value
  parse_like (column name) pattern h =
      attempt (get_value pattern) >>= λ a. ok (like_column name a, h)
  parse_like _ pattern h = ok (absent, h)

  unfoldable pub parse_between : Bool → Expr → Expr → Expr → Step
  unfolding get_value
  parse_between inverted (column name) l r h =
      get_value l >>= λ v. get_value r >>= λ w. between_column inverted name v w h
  parse_between inverted _ l r h = ok (absent, h)

  -- An item of an IN list is a parameter or a value.
  unfoldable pub item_value : Expr → Result Value
  unfolding get_value
  item_value (value v) = get_value (value v)
  item_value (param i) = get_value (param i)
  item_value _ = err unsupported

  unfoldable pub parse_items : Bool → Bytes → Exprs → Result (List Ref)
  unfolding item_value
  parse_items inverted name nil = ok []
  parse_items inverted name (cons e es) = item_value e >>= λ v.
      parse_items inverted name es >>= λ rs. ok (key_of name (if inverted then ne else eq) v ∷ rs)

  unfoldable pub parse_in : Bool → Expr → Exprs → Step
  unfolding parse_items
  parse_in inverted (column name) es h = parse_items inverted name es >>= λ rs. alloc disj rs h
  parse_in inverted _ es h = ok (absent, h)

  unfoldable pub parse_value : Expr → Result Ref
  unfolding get_value is_zero
  parse_value (unary op e) = get_value (unary op e) >>= λ v. ok (constant (not (is_zero v)))
  parse_value (value v) = ok (constant (not (is_zero v)))
  parse_value _ = err unsupported

  -- `ParseMathCondition`
  unfoldable pub parse_math : BinaryOp → Expr → Expr → Result Ref
  unfolding is_zero
  parse_math op l r = ev.eval op l r args >>= λ v. ok (constant (not (is_zero v)))

  -- `ParseCondition`; ParseLogicalCondition is the case of `LogicAnd` and `LogicOr`. Conditions are
  -- at most two levels deep, for which a fuel of three is enough.
  unfoldable pub parse_condition : Expr → Step
  unfolding get_value compare_columns parse_math and_ref or_ref parse_like parse_between parse_in
      parse_value
  parse_condition (binary (compared op) l r) h =
      compare_columns op (column_of l) (column_of r) (get_value l) (get_value r) >>= λ t. ok (t, h)
  parse_condition (binary plus l r) h = parse_math plus l r >>= λ t. ok (t, h)
  parse_condition (binary minus l r) h = parse_math minus l r >>= λ t. ok (t, h)
  parse_condition (binary mul l r) h = parse_math mul l r >>= λ t. ok (t, h)
  parse_condition (binary div l r) h = parse_math div l r >>= λ t. ok (t, h)
  parse_condition (binary logic_and l r) h =
      parse_condition l h >>= λ x. parse_condition r x.1 >>= λ y. and_ref 3 x.0 y.0 y.1
  parse_condition (binary logic_or l r) h =
      parse_condition l h >>= λ x. parse_condition r x.1 >>= λ y. or_ref 3 x.0 y.0 y.1
  parse_condition (binary other l r) h = err unsupported
  parse_condition (like_pattern e pattern) h = parse_like e pattern h
  parse_condition (between inverted e l r) h = parse_between inverted e l r h
  parse_condition (in_list inverted e es) h = parse_in inverted e es h
  parse_condition (parens e) h = parse_condition e h
  parse_condition e h = parse_value e >>= λ t. ok (t, h)
