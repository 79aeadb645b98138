-- ===== src/Cond/Shard/Spec.antt =====
-- The rows that satisfy a condition, and the routable conditions.
use dbpack.Common.{◌≤◌, ◌≡◌, ◌⊎◌, List, [], ◌∷◌, All, length}
use dbpack.Common.Int.{ℤ, IsInt64}
use dbpack.Value.{Bytes, Value, integer, int64, text}
use dbpack.Cond.{
  Op, KeyCondition, Connective, conj, disj, Condition, key, complex, truth, falsity, absent,
  Conditions, nil, cons, ShardingAlgorithm, Holds, IsOrder,
}
use dbpack.Cond.Sound.{IsSound}
use dbpack.Cond.Pair.Table.{IsPoint}

-- The key conditions among the conditions of a complex one.
abbrev pub keys : Conditions → List KeyCondition
keys nil = []
keys (cons (key k) cs) = k ∷ keys cs
keys (cons (complex op ds) cs) = keys cs
keys (cons truth cs) = keys cs
keys (cons falsity cs) = keys cs
keys (cons absent cs) = keys cs

-- A complex condition has something to route by.
abbrev pub HasRoute : Connective → Conditions → Type 0
HasRoute op nil = ⊥
HasRoute op (cons (key k) cs) = Unit
HasRoute op (cons (complex p ds) cs) = Unit
HasRoute conj (cons truth cs) = HasRoute conj cs
HasRoute disj (cons truth cs) = Unit
HasRoute conj (cons falsity cs) = Unit
HasRoute disj (cons falsity cs) = HasRoute disj cs
HasRoute op (cons absent cs) = HasRoute op cs

-- `column op value` for a row whose columns are given.
abbrev pub HoldsValue : Op → Value → ℤ → Type 0
HoldsValue op (integer k z) w = Holds op z w
HoldsValue op (text s) w = ⊥

abbrev pub SatKey : (Bytes → ℤ) → KeyCondition → Type 0
SatKey column k = HoldsValue k.op k.value (column k.key)

abbrev mutual
  pub Satisfies : (Bytes → ℤ) → Condition → Type 0
  Satisfies column (key k) = SatKey column k
  Satisfies column (complex conj cs) = SatAll column cs
  Satisfies column (complex disj cs) = SatSome column cs
  Satisfies column truth = Unit
  Satisfies column falsity = ⊥
  Satisfies column absent = ⊥

  pub SatAll : (Bytes → ℤ) → Conditions → Type 0
  SatAll column nil = Unit
  SatAll column (cons c cs) = Satisfies column c × SatAll column cs

  pub SatSome : (Bytes → ℤ) → Conditions → Type 0
  SatSome column nil = ⊥
  SatSome column (cons c cs) = Satisfies column c ⊎ SatSome column cs

-- A comparison with an int64 by which the algorithm routes.
abbrev pub PlainValue : {alg : ShardingAlgorithm} → IsSound alg → Op → Value → Type 0
PlainValue s op (integer k z) = (k ≡ int64) × IsInt64 z × s.Fits z × IsOrder op
PlainValue s op (text t) = ⊥

abbrev pub PlainKey : {alg : ShardingAlgorithm} → IsSound alg → KeyCondition → Type 0
PlainKey s k = PlainValue s k.op k.value

-- `k` and `l` are not `>= z` and `<= z` for one number.
abbrev pub NotPointValue : Op → Op → Value → Value → Type 0
NotPointValue o o' (integer j y) (integer k z) = ¬ (IsPoint o o' y z)
NotPointValue o o' (integer j y) (text t) = Unit
NotPointValue o o' (text t) b = Unit

abbrev pub NotPoint : KeyCondition → KeyCondition → Type 0
NotPoint k l = NotPointValue k.op l.op k.value l.value

abbrev pub NoPoint : List KeyCondition → Type 0
NoPoint ks = All (λ k. All (NotPoint k) ks) ks

-- What keeps the key conditions of one complex condition from a panic: under `And` no two of them are
-- `>= z` and `<= z`, and under `Or` there are at most two.
abbrev pub KeysFit : Connective → List KeyCondition → Type 0
KeysFit conj ks = NoPoint ks
KeysFit disj ks = length ks ≤ 2

abbrev mutual
  pub Routable : {alg : ShardingAlgorithm} → IsSound alg → Condition → Type 0
  Routable s (key k) = PlainKey s k
  Routable s (complex op cs) = RoutableAll s cs × HasRoute op cs × KeysFit op (keys cs)
  Routable s truth = Unit
  Routable s falsity = Unit
  Routable s absent = ⊥

  pub RoutableAll : {alg : ShardingAlgorithm} → IsSound alg → Conditions → Type 0
  RoutableAll s nil = Unit
  RoutableAll s (cons c cs) = Routable s c × RoutableAll s cs
