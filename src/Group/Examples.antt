-- ===== src/Group/Examples.antt =====
-- Runs of the choice of a database, and its theorems at concrete groups.
use dbpack.Common.{ℕ, suc, ◌%◌, ◌<◌, ◌≡◌, inl, inr, refl, [], ◌∷◌, some, true, false, length, arith}
use native.Mathlib.Nat.{mod-lt}
use dbpack.Common.Int.{pos, add64, rem64}
use dbpack.Value.{Bytes}
use dbpack.Cond.{ok, panic}
use dbpack.Group.{
  Db, running, unknown, DbGroup, round_robin, random_weight, available, add_db, remove_db,
  random_weight_master, round_robin_master, pick_round_robin, pick,
}
use dbpack.Group.Running.{Draws, Serves, Picks, pick-Serves}
use dbpack.Group.Weights.{count_from, weight_where, picks, random_weight_master-weight}
use dbpack.Group.Rotation.{turn, round_robin_master-reaches, pick_round_robin-first_slave}

abbrev master : Bytes → ℕ → Db
master name w = record {
  name = name;
  is_master = true;
  master_name = [];
  status = running;
  read_weight = 0;
  write_weight = w;
}

abbrev slave : Bytes → ℕ → Db
slave name w = record {
  name = name;
  is_master = false;
  master_name = b'm' ∷ [];
  status = running;
  read_weight = w;
  write_weight = 0;
}

abbrev m : Db
m = master (b'm' ∷ []) 3

abbrev n : Db
n = master (b'n' ∷ []) 1

abbrev s : Db
s = slave (b's' ∷ []) 5

abbrev t : Db
t = slave (b't' ∷ []) 5

abbrev stopped : Db
stopped = record s { status = unknown }

abbrev two_masters : DbGroup
two_masters = record {
  masters = m ∷ n ∷ [];
  slaves = stopped ∷ t ∷ [];
  algorithm = random_weight;
  write_counter = pos 7;
  read_counter = pos 0;
}

abbrev one_master : DbGroup
one_master = record {
  masters = m ∷ [];
  slaves = s ∷ t ∷ [];
  algorithm = round_robin;
  write_counter = pos 0;
  read_counter = pos 0;
}

abbrev fifth : ℕ → ℕ
fifth k = 4 % k

fifth-Draws : Draws fifth
fifth-Draws k = mod-lt 4 {m = suc k} (omega arith)

-- A write goes by weight to the second of the masters, and a read to the slave that runs.
written : pick (λ k. 3) (λ k. 0) two_masters false ≡ ok (some n, two_masters)
unfolding pick add64
written = refl

read : pick fifth fifth two_masters true ≡ ok (some t, two_masters)
unfolding pick add64
read = refl

-- By weight, a read panics where the only database that runs is a master.
read_without_slaves :
    pick fifth fifth (record one_master { slaves = []; algorithm = random_weight }) true ≡ panic
unfolding pick
read_without_slaves = refl

-- By turns, a read panics where more masters than running slaves are in the group.
read_beyond_slaves :
    turn (λ g. pick fifth fifth g true) 2 (record one_master { masters = m ∷ n ∷ m ∷ [] }) ≡ panic
unfolding pick rem64 add64
read_beyond_slaves = refl

-- A slave joins with its master, and leaves by its name.
joined : add_db s (record one_master { slaves = [] }) ≡ record one_master { slaves = s ∷ [] }
unfolding add_db
joined = refl

left : remove_db (b'S' ∷ []) one_master ≡ record one_master { slaves = t ∷ [] }
unfolding remove_db
left = refl

pick-Serves_example : Picks (Serves two_masters true) (pick fifth fifth two_masters true)
unfolding available
pick-Serves_example =
    pick-Serves fifth fifth two_masters fifth-Draws (λ e. cc) true
      ((omega arith, omega arith), λ e. cc)

random_weight_master-weight_example :
    count_from (λ k. picks (λ d. true) (random_weight_master (λ x. k) two_masters)) 0 4
    ≡ weight_where Db.write_weight (λ d. true) (available two_masters.masters)
unfolding available
random_weight_master-weight_example =
    random_weight_master-weight two_masters m n [] (λ d. true) refl (omega arith)

round_robin_master-reaches_example :
    (k : ℕ) × (h : DbGroup) × (k < length (available two_masters.masters))
    × (turn round_robin_master k two_masters ≡ ok (some n, h))
unfolding available
round_robin_master-reaches_example =
    round_robin_master-reaches two_masters 7 n refl (omega arith) (inr (inl refl))

pick_round_robin-first_slave_example :
    (h : DbGroup) × (turn (λ x. pick_round_robin x true) 5 one_master ≡ ok (some s, h))
unfolding available
pick_round_robin-first_slave_example = pick_round_robin-first_slave 5 one_master m s t [] refl refl
