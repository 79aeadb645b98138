-- ===== src/Cond/Build.antt =====
-- The conditions in memory, and the methods `And` and `Or` by which ParseCondition joins them,
-- pkg/cond/condition.go. A `*ComplexCondition` is a pointer: two of the methods append to the
-- conditions of the receiver and return the receiver.
pub mod Reads
pub mod Memory
pub mod Loops
pub mod And
pub mod Or
use dbpack.Common.{ℕ, zero, suc, List, [], ◌∷◌, ◌++◌, Option, none, some, length, set}
use dbpack.Cond.{
  Result, ok, panic, stuck, ◌>>=◌, KeyCondition, Connective, conj, disj, Condition, Conditions, nil,
  cons, complex,
}
use dbpack.Cond

-- A `Condition` interface: a `*KeyCondition`, which nothing changes; a `*ComplexCondition`, by its
-- address; a `TrueCondition`, a `FalseCondition`, or nil.
pub data Ref : Type 0 where
  key : KeyCondition → Ref
  node : ℕ → Ref
  truth falsity absent : Ref

-- A `ComplexCondition`.
pub record Cell : Type 0 where
  pub op : Connective
  pub conditions : List Ref

-- The complex conditions in memory, by address.
abbrev pub Heap : Type 0
Heap = List Cell

-- What a method returns, and the memory it leaves.
abbrev pub Step : Type 0
Step = Heap → Result (Ref × Heap)

abbrev pub get : Heap → ℕ → Option Cell
get [] a = none
get (c ∷ h) zero = some c
get (c ∷ h) (suc a) = get h a

-- A nil pointer panics.
abbrev pub cell_or_panic : Option Cell → Result Cell
cell_or_panic none = panic
cell_or_panic (some c) = ok c

-- `*pointer`
abbrev pub load : Heap → ℕ → Result Cell
load h a = cell_or_panic (get h a)

-- `&ComplexCondition{Op: op, Conditions: rs}`
abbrev pub alloc : Connective → List Ref → Step
alloc op rs h = ok (node (length h), h ++ record { op = op; conditions = rs } ∷ [])

-- `for _, cd := range rs { result.Conditions = append(result.Conditions, step(cd)) }`
unfoldable pub collect : (Ref → Step) → List Ref → Heap → Result (List Ref × Heap)
collect step [] h = ok ([], h)
collect step (r ∷ rs) h = step r h >>= λ x. collect step rs x.1 >>= λ y. ok (x.0 ∷ y.0, y.1)

-- `for _, cd := range rs { result = result.And(cd) }`
unfoldable pub chain : (Ref → Ref → Step) → Ref → List Ref → Step
chain step result [] h = ok (result, h)
chain step result (r ∷ rs) h = step result r h >>= λ x. chain step x.0 rs x.1

-- The two nested loops over the conditions of both sides.
unfoldable pub collect_pairs :
    (Ref → Ref → Step) → List Ref → List Ref → Heap → Result (List Ref × Heap)
unfolding collect
collect_pairs step [] ss h = ok ([], h)
collect_pairs step (r ∷ rs) ss h =
    collect (step r) ss h >>= λ x. collect_pairs step rs ss x.1 >>= λ y. ok (x.0 ++ y.0, y.1)

-- A new disjunction of what a loop has collected.
abbrev pub alloc_disj : List Ref × Heap → Result (Ref × Heap)
alloc_disj (rs, h) = alloc disj rs h

-- `KeyCondition.And` and `ComplexCondition.And`; `meet` is the method `And` on the conditions inside.
module _ (meet : Ref → Ref → Step) where
  -- The operator of the argument, and its conditions.
  unfoldable pub key_and_cell : KeyCondition → Connective → List Ref → Step
  unfolding chain collect
  key_and_cell k conj ss h = chain meet (key k) ss h
  key_and_cell k disj ss h = collect (meet (key k)) ss h >>= alloc_disj

  unfoldable pub key_and : KeyCondition → Ref → Step
  unfolding key_and_cell
  key_and k (key l) h = alloc conj (key k ∷ key l ∷ []) h
  key_and k (node b) h = load h b >>= λ d. key_and_cell k d.op d.conditions h
  key_and k truth h = ok (absent, h)
  key_and k falsity h = ok (absent, h)
  key_and k absent h = ok (absent, h)

  -- The operators of the receiver, at the address `a`, and of the argument, at `b`.
  unfoldable pub cell_and_cell : ℕ → ℕ → Connective → Connective → List Ref → List Ref → Step
  unfolding collect collect_pairs
  cell_and_cell a b conj conj rs ss h =
      ok (node a, set h a (record { op = conj; conditions = rs ++ ss }))
  cell_and_cell a b conj disj rs ss h = collect (meet (node a)) ss h >>= alloc_disj
  cell_and_cell a b disj conj rs ss h = collect (λ r. meet r (node b)) rs h >>= alloc_disj
  cell_and_cell a b disj disj rs ss h = collect_pairs meet rs ss h >>= alloc_disj

  unfoldable pub cell_and_key : Connective → List Ref → KeyCondition → Step
  unfolding collect
  cell_and_key conj rs k h = alloc conj (rs ++ key k ∷ []) h
  cell_and_key disj rs k h = collect (λ r. meet r (key k)) rs h >>= alloc_disj

  unfoldable pub complex_and : ℕ → Cell → Ref → Step
  unfolding cell_and_cell cell_and_key
  complex_and a c (key k) h = cell_and_key c.op c.conditions k h
  complex_and a c (node b) h =
      load h b >>= λ d. cell_and_cell a b c.op d.op c.conditions d.conditions h
  complex_and a c truth h = ok (absent, h)
  complex_and a c falsity h = ok (absent, h)
  complex_and a c absent h = ok (absent, h)

-- `And`; a method of a nil interface panics. The fuel bounds how deep complex conditions nest.
unfoldable pub and_ref : ℕ → Ref → Ref → Step
unfolding key_and complex_and
and_ref zero r s h = stuck
and_ref (suc f) (key k) s h = key_and (and_ref f) k s h
and_ref (suc f) (node a) s h = load h a >>= λ c. complex_and (and_ref f) a c s h
and_ref (suc f) truth s h = ok (s, h)
and_ref (suc f) falsity s h = ok (falsity, h)
and_ref (suc f) absent s h = panic

-- `KeyCondition.Or` and `ComplexCondition.Or`; `join` is the method `Or` on the conditions inside.
module _ (join : Ref → Ref → Step) where
  unfoldable pub key_or_cell : KeyCondition → ℕ → Connective → List Ref → Step
  unfolding chain
  key_or_cell k b conj ss h = alloc disj (key k ∷ node b ∷ []) h
  key_or_cell k b disj ss h = chain join (key k) ss h

  unfoldable pub key_or : KeyCondition → Ref → Step
  unfolding key_or_cell
  key_or k (key l) h = alloc disj (key k ∷ key l ∷ []) h
  key_or k (node b) h = load h b >>= λ d. key_or_cell k b d.op d.conditions h
  key_or k truth h = ok (absent, h)
  key_or k falsity h = ok (absent, h)
  key_or k absent h = ok (absent, h)

unfoldable pub cell_or_cell : ℕ → ℕ → Connective → Connective → List Ref → List Ref → Step
cell_or_cell a b conj conj rs ss h = alloc disj (node a ∷ node b ∷ []) h
cell_or_cell a b conj disj rs ss h = alloc disj (node a ∷ ss) h
cell_or_cell a b disj conj rs ss h = alloc disj (rs ++ node b ∷ []) h
cell_or_cell a b disj disj rs ss h =
    ok (node a, set h a (record { op = disj; conditions = rs ++ ss }))

unfoldable pub cell_or_key : ℕ → Connective → List Ref → KeyCondition → Step
cell_or_key a conj rs k h = alloc disj (node a ∷ key k ∷ []) h
cell_or_key a disj rs k h = alloc disj (rs ++ key k ∷ []) h

unfoldable pub complex_or : ℕ → Cell → Ref → Step
unfolding cell_or_cell cell_or_key
complex_or a c (key k) h = cell_or_key a c.op c.conditions k h
complex_or a c (node b) h = load h b >>= λ d. cell_or_cell a b c.op d.op c.conditions d.conditions h
complex_or a c truth h = ok (absent, h)
complex_or a c falsity h = ok (absent, h)
complex_or a c absent h = ok (absent, h)

-- `Or`
unfoldable pub or_ref : ℕ → Ref → Ref → Step
unfolding key_or complex_or
or_ref zero r s h = stuck
or_ref (suc f) (key k) s h = key_or (or_ref f) k s h
or_ref (suc f) (node a) s h = load h a >>= λ c. complex_or a c s h
or_ref (suc f) truth s h = ok (truth, h)
or_ref (suc f) falsity s h = ok (s, h)
or_ref (suc f) absent s h = panic

-- The condition that a pointer stands for, as `Shard` reads it.
abbrev pub map_conditions : (Ref → Condition) → List Ref → Conditions
map_conditions read [] = nil
map_conditions read (r ∷ rs) = cons (read r) (map_conditions read rs)

abbrev pub read_cell : (Ref → Condition) → Option Cell → Condition
read_cell read none = Cond.absent
read_cell read (some c) = complex c.op (map_conditions read c.conditions)

unfoldable pub condition_of : ℕ → Heap → Ref → Condition
condition_of zero h r = Cond.absent
condition_of (suc f) h (key k) = Cond.key k
condition_of (suc f) h (node a) = read_cell (condition_of f h) (get h a)
condition_of (suc f) h truth = Cond.truth
condition_of (suc f) h falsity = Cond.falsity
condition_of (suc f) h absent = Cond.absent
