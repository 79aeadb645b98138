-- ===== src/Group.antt =====
-- The choice of a database for a statement, pkg/group/group.go.
pub mod Choices
pub mod Running
pub mod Weights
pub mod Rotation
mod Examples
use dbpack.Common.{
  ℕ, zero, suc, List, [], ◌∷◌, ◌++◌, Option, none, some, Bool, true, false, ◌&&◌, not,
  if◌then◌else◌, length,
}
use dbpack.Common.Int.{ℤ, pos, negsuc, leb_ℤ, ltb_ℤ, add64, rem64}
use dbpack.Value.{Bytes}
use dbpack.Cond.{Result, ok, panic, ◌>>=◌, equal_fold}

-- `DBStatus`
pub data Status : Type 0 where
  unknown running : Status

-- A `proto.DB`, as a group sees it; the weights are texts of digits in the configuration.
pub record Db : Type 0 where
  pub name : Bytes
  pub is_master : Bool
  pub master_name : Bytes
  pub status : Status
  pub read_weight : ℕ
  pub write_weight : ℕ

-- `LoadBalanceAlgorithm`; any other number is `other`.
pub data Algorithm : Type 0 where
  random round_robin random_weight other : Algorithm

-- `DBGroup`
pub record DbGroup : Type 0 where
  pub masters : List Db
  pub slaves : List Db
  pub algorithm : Algorithm
  pub write_counter : ℤ
  pub read_counter : ℤ

abbrev pub is_running : Status → Bool
is_running unknown = false
is_running running = true

-- `getAvailableMasters` and `getAvailableSlaves`
unfoldable pub available : List Db → List Db
available [] = []
available (d ∷ ds) = let rest = available ds in if is_running d.status then d ∷ rest else rest

-- `dbs[index]`
abbrev pub nth : List Db → ℕ → Result Db
nth [] i = panic
nth (d ∷ ds) zero = ok d
nth (d ∷ ds) (suc i) = nth ds i

abbrev pub at : List Db → ℤ → Result Db
at ds (pos i) = nth ds i
at ds (negsuc i) = panic

-- `Begin` and `XAStart` take the first master that runs.
unfoldable pub begin_on : DbGroup → Result Db
unfolding available
begin_on g = nth (available g.masters) 0

-- `rand.Intn`, where `draw n` is the number below `n` that it draws.
abbrev pub intn : (ℕ → ℕ) → ℤ → Result ℤ
intn draw (pos zero) = panic
intn draw (pos (suc n)) = ok (pos (draw (suc n)))
intn draw (negsuc n) = panic

-- Counters are int64; an integer division by zero panics.
abbrev pub index_of : ℤ → ℕ → Result ℤ
index_of c zero = panic
index_of c (suc n) = ok (rem64 c (suc n))

-- `AddDB`: a slave is appended for each master that it names.
abbrev pub append_for : List Db → Db → List Db → List Db
append_for [] d slaves = slaves
append_for (m ∷ ms) d slaves =
    append_for ms d (if equal_fold m.name d.master_name then slaves ++ d ∷ [] else slaves)

unfoldable pub add_db : Db → DbGroup → DbGroup
unfolding equal_fold
add_db d g =
    if d.is_master
    then record g { masters = g.masters ++ d ∷ [] }
    else record g { slaves = append_for g.masters d g.slaves }

-- `RemoveDB`
abbrev pub without_name : Bytes → List Db → List Db
without_name name [] = []
without_name name (d ∷ ds) =
    let rest = without_name name ds in if equal_fold d.name name then rest else d ∷ rest

unfoldable pub remove_db : Bytes → DbGroup → DbGroup
unfolding equal_fold
remove_db name g = record g {
  masters = without_name name g.masters;
  slaves = without_name name g.slaves;
}

-- The total weight, and the loop that goes to a weight: the database whose part of the weights the
-- index falls into.
module _ (weight : Db → ℕ) where
  unfoldable pub total_weight : ℤ → List Db → ℤ
  total_weight sum [] = sum
  total_weight sum (d ∷ ds) = total_weight (add64 sum (pos (weight d))) ds

  unfoldable pub by_weight : ℤ → ℤ → List Db → Option Db
  by_weight index sum [] = none
  by_weight index sum (d ∷ ds) =
      let next = add64 sum (pos (weight d)) in
      let rest = by_weight index next ds in
      if leb_ℤ sum index && ltb_ℤ index next then some d else rest

-- What is picked, which may be nil, and the group with its counters.
abbrev pub Picked : Type 0
Picked = Option Db × DbGroup

abbrev pub picked : DbGroup → Db → Result Picked
picked g d = ok (some d, g)

module _ (draw : ℕ → ℕ) (g : DbGroup) where
  -- The random choice of one among several.
  abbrev pub draw_one : List Db → Result Picked
  draw_one ds = intn draw (pos (length ds)) >>= at ds >>= picked g

  -- `_randomMaster`
  abbrev pub random_among : List Db → Result Picked
  random_among [] = draw_one []
  random_among (d ∷ []) = picked g d
  random_among (d ∷ e ∷ ds) = draw_one (d ∷ e ∷ ds)

  unfoldable pub random_master : Result Picked
  unfolding available
  random_master = random_among (available g.masters)

  abbrev pub random_slave : List Db → Result Picked
  random_slave [] = random_master
  random_slave (d ∷ []) = picked g d
  random_slave (d ∷ e ∷ ds) = draw_one (d ∷ e ∷ ds)

  -- `random`
  unfoldable pub pick_random : Bool → Result Picked
  unfolding random_master
  pick_random true = random_slave (available g.slaves)
  pick_random false = random_master

  -- `_randomWeightMaster`
  abbrev pub weight_among : List Db → Result Picked
  weight_among (d ∷ []) = picked g d
  weight_among ds = intn draw (total_weight Db.write_weight (pos 0) ds) >>= λ index.
      ok (by_weight Db.write_weight index (pos 0) ds, g)

  unfoldable pub random_weight_master : Result Picked
  unfolding available total_weight by_weight
  random_weight_master = weight_among (available g.masters)

module _ (draw again : ℕ → ℕ) (g : DbGroup) where
  -- `randomWeight`; where the loop finds none, a master is drawn again.
  abbrev pub or_master : Option Db → Result Picked
  or_master none = random_weight_master again g
  or_master (some d) = picked g d

  abbrev pub weight_of_all : List Db → List Db → Result Picked
  weight_of_all (d ∷ []) slaves = at slaves (pos 0) >>= picked g
  weight_of_all ds slaves = intn draw (total_weight Db.read_weight (pos 0) ds) >>= λ index.
      or_master (by_weight Db.read_weight index (pos 0) ds)

  unfoldable pub pick_random_weight : Bool → Result Picked
  unfolding random_weight_master
  pick_random_weight true =
      weight_of_all (available g.masters ++ available g.slaves) (available g.slaves)
  pick_random_weight false = random_weight_master draw g

module _ (g : DbGroup) where
  -- `_roundRobinMaster`
  abbrev pub next_master : List Db → Result Picked
  next_master (d ∷ []) = picked g d
  next_master ds = index_of g.write_counter (length ds) >>= λ i.
      at ds i >>= picked (record g { write_counter = add64 g.write_counter (pos 1) })

  unfoldable pub round_robin_master : Result Picked
  unfolding available
  round_robin_master = next_master (available g.masters)

  abbrev pub next_slave : List Db → Result Picked
  next_slave [] = round_robin_master
  next_slave (d ∷ []) = picked g d
  next_slave (d ∷ e ∷ ds) = index_of g.read_counter (length g.masters) >>= λ i.
      at (d ∷ e ∷ ds) i >>= picked (record g { read_counter = add64 g.read_counter (pos 1) })

  -- `roundRobin`
  unfoldable pub pick_round_robin : Bool → Result Picked
  unfolding round_robin_master
  pick_round_robin true = next_slave (available g.slaves)
  pick_round_robin false = round_robin_master

-- `pick`; the Boolean is the context's flag for slaves.
module _ (draw again : ℕ → ℕ) (g : DbGroup) (slave : Bool) where
  abbrev pub pick_by : Algorithm → Result Picked
  pick_by random = pick_random draw g slave
  pick_by round_robin = pick_round_robin g slave
  pick_by random_weight = pick_random_weight draw again g slave
  pick_by other = ok (none, g)

  unfoldable pub pick : Result Picked
  unfolding pick_random pick_round_robin pick_random_weight
  pick = pick_by g.algorithm
