-- ===== src/Cond.antt =====
-- Routing of a condition to the tables of a sharded table, package pkg/cond: the conditions of
-- condition.go, and the interface `ShardingAlgorithm` of sharding_algorithm.go.
pub mod Slice
pub mod Sound
pub mod NumberMod
pub mod NumberRange
pub mod Pair
pub mod Samples
pub mod Shard
pub mod Build
pub mod Parse
use dbpack.Common.{
  ℕ, ◌+◌, ◌≡◌, ◌≢◌, ◌⊎◌, List, [], ◌∷◌, Bool, true, false, ◌&&◌, leb, ◌==◌, if◌then◌else◌,
}
use dbpack.Common.Int.{ℤ, ◌<ℤ◌, ◌≤ℤ◌}
use dbpack.Value.{Bytes, Value}

-- A Go pair (value, error); a panic; and a loop that has run out of fuel.
pub data Error : Type 0 where
  not_a_number bad_range bad_topology unsupported unknown_table full_scan unknown_group : Error

pub data Result {ℓ} (A : Type ℓ) : Type ℓ where
  ok : A → Result A
  err : Error → Result A
  panic : Result A
  stuck : Result A

infixl 5 ◌>>=◌
abbrev pub ◌>>=◌ {ℓ κ} : {A : Type ℓ} {B : Type κ} → Result A → (A → Result B) → Result B
ok a >>= f = f a
err e >>= f = err e
panic >>= f = panic
stuck >>= f = stuck

pub ok-injective {ℓ} : {A : Type ℓ} {a b : A} → ok a ≡ ok b → a ≡ b
ok-injective e = cc

-- The `opcode.Op` of a key condition.
pub data Op : Type 0 where
  eq ne lt le gt ge like : Op

pub record KeyCondition : Type 0 where
  pub key : Bytes
  pub op : Op
  pub value : Value

-- The operators of a complex condition, `opcode.And` and `opcode.Or`.
pub data Connective : Type 0 where
  conj disj : Connective

-- The conditions that ParseCondition builds; `absent` is a nil interface.
mutual
  pub data Condition : Type 0 where
    key : KeyCondition → Condition
    complex : Connective → Conditions → Condition
    truth falsity absent : Condition

  pub data Conditions : Type 0 where
    nil : Conditions
    cons : Condition → Conditions → Conditions

-- The conditions that an algorithm returns: `TrueCondition`, `FalseCondition`, a
-- `TableIndexSliceCondition`, or a nil interface.
pub data Route : Type 0 where
  all nothing missing : Route
  tables : List ℤ → Route

-- The part of `topo.Topology` that routing reads.
pub record Topology : Type 0 where
  pub table_slice : List ℤ
  pub table_slice_len : ℕ

-- `ShardingAlgorithm`, less its id generator.
pub record ShardingAlgorithm : Type 0 where
  pub has_sharding_key : Bytes → Bool
  pub shard : KeyCondition → Result Route
  pub shard_range : KeyCondition → KeyCondition → Result Route
  pub all_shards : List ℤ
  pub allow_full_scan : Bool

-- `strings.EqualFold` on ASCII text.
unfoldable pub lower : ℕ → ℕ
lower c = if leb 65 c && leb c 90 then c + 32 else c

unfoldable pub equal_fold : Bytes → Bytes → Bool
unfolding lower
equal_fold [] [] = true
equal_fold [] (d ∷ t) = false
equal_fold (c ∷ s) [] = false
equal_fold (c ∷ s) (d ∷ t) = lower c == lower d && equal_fold s t

-- Membership in a slice.
abbrev pub In : ℤ → List ℤ → Type 0
In x [] = ⊥
In x (y ∷ ys) = (x ≡ y) ⊎ In x ys

-- The rows that `column op z` selects, by the value `v` of the column.
abbrev pub Holds : Op → ℤ → ℤ → Type 0
Holds eq z v = v ≡ z
Holds ne z v = v ≢ z
Holds lt z v = v <ℤ z
Holds le z v = v ≤ℤ z
Holds gt z v = z <ℤ v
Holds ge z v = z ≤ℤ v
Holds like z v = Unit

-- The operators for which the algorithms route by value.
abbrev pub IsOrder : Op → Type 0
IsOrder ne = ⊥
IsOrder like = ⊥
IsOrder _ = Unit
