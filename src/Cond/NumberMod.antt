-- ===== src/Cond/NumberMod.antt =====
-- Sharding by remainder, `NumberMod` of pkg/cond/algo_number_mod.go. The number of tables is positive:
-- `ParseTopology` refuses an empty topology.
pub mod Loops
pub mod Sound
pub mod Interface
mod Examples
use dbpack.Common.{
  ℕ, zero, suc, ◌+◌, ◌*◌, ◌%◌, List, [], ◌∷◌, Bool, true, false, not, ◌==◌, if◌then◌else◌,
}
use dbpack.Common.Int.{ℤ, pos, negsuc, ◌==ℤ◌, ltb_ℤ, leb_ℤ, add64, sub64, rem64}
use dbpack.Value.{Bytes, format, Parsed, good, syntax_error, range_error, parse_int}
use dbpack.Cond.{
  Error, not_a_number, Result, ok, err, panic, stuck, ◌>>=◌, Op, eq, ne, lt, le, gt, ge, like,
  KeyCondition, Route, all, tables, Topology, ShardingAlgorithm, equal_fold,
}

pub record NumberMod : Type 0 where
  pub sharding_key : Bytes
  pub allow_full_scan : Bool
  pub topology : Topology

-- `NewNumberMod`, less the id generator.
pub new_number_mod : Bytes → Bool → Topology → NumberMod
new_number_mod key scan t = record { sharding_key = key; allow_full_scan = scan; topology = t }

-- `val, err := strconv.ParseInt(fmt.Sprintf("%v", condition.Value), 10, 64)`
unfoldable pub number_of : KeyCondition → Result ℤ
number_of c = elim (parse_int (format c.value)) [
  | good z ↦ ok z
  | syntax_error ↦ err not_a_number
  | range_error z ↦ err not_a_number
]

-- `for i := v; i >= 0; i-- { result = append(result, int(i)) }`
unfoldable pub countdown : ℤ → List ℤ
countdown (negsuc n) = []
countdown (pos zero) = pos 0 ∷ []
countdown (pos (suc n)) = pos (suc n) ∷ countdown (pos n)

-- The indices of the topology but one.
unfoldable pub without : ℤ → List ℤ → List ℤ
without idx [] = []
without idx (x ∷ xs) = let rest = without idx xs in if x ==ℤ idx then rest else x ∷ rest

-- `switch condition.Op` of `Shard`.
unfoldable pub shard_op : Topology → Op → ℤ → Result Route
unfolding countdown without
shard_op t eq v =
    if t.table_slice_len == 0 then panic else ok (tables (rem64 v t.table_slice_len ∷ []))
shard_op t ne v =
    if t.table_slice_len == 0
    then panic
    else ok (tables (without (rem64 v t.table_slice_len) t.table_slice))
shard_op t lt v =
    if ltb_ℤ v (pos t.table_slice_len) then ok (tables (countdown (sub64 v (pos 1)))) else ok all
shard_op t le v =
    if ltb_ℤ v (sub64 (pos t.table_slice_len) (pos 1)) then ok (tables (countdown v)) else ok all
shard_op t gt v = ok all
shard_op t ge v = ok all
shard_op t like v = ok (tables [])

-- `NumberMod.Shard`
unfoldable pub mod_shard : NumberMod → KeyCondition → Result Route
mod_shard s c =
    if equal_fold s.sharding_key c.key then (number_of c >>= shard_op s.topology c.op) else ok all

-- `for i := start; test(i); i++ { result = append(result, int(i%n)) }`, with fuel for the rounds.
unfoldable pub residues : ℕ → (ℤ → Bool) → ℕ → ℤ → Result (List ℤ)
residues zero test n i = if test i then stuck else ok []
residues (suc fuel) test n i =
    let rest = residues fuel test n (add64 i (pos 1)) in
    if test i then (rest >>= λ is. ok (rem64 i n ∷ is)) else ok []

-- `indexMap[idx]++`, where a map is the list of its keys.
touch : ℤ → List ℤ → List ℤ
touch idx [] = idx ∷ []
touch idx (k ∷ ks) = if k ==ℤ idx then k ∷ ks else k ∷ touch idx ks

-- The loop of the cases 5 and 6 over the rounds left; the keys come in the order of their first use.
unfoldable pub residues_but : ℕ → ℤ → ℕ → ℤ → List ℤ → List ℤ
unfolding touch
residues_but zero skip n i keys = keys
residues_but (suc rounds) skip n i keys =
    residues_but rounds skip n (add64 i (pos 1))
      (if i ==ℤ skip then keys else touch (rem64 i n) keys)

abbrev to_rounds : ℤ → ℕ
to_rounds (pos n) = n
to_rounds (negsuc n) = 0

-- The numbers that `status` of `ShardRange` takes.
pub data Status : Type 0 where
  status0 status1 status2 status3 status4 status5 status6 : Status

unfoldable pub status_of : Op → Op → Status
status_of gt lt = status1
status_of gt le = status2
status_of ge lt = status3
status_of ge le = status4
status_of ne lt = status5
status_of ne le = status6
status_of _ _ = status0

-- A loop that is left out if all tables are hit.
pub guarded : Bool → Result (List ℤ) → Result Route
guarded true is = ok all
guarded false is = is >>= λ xs. ok (tables xs)

-- `switch status` of `ShardRange`, for `n` tables.
unfoldable pub range_status : ℕ → Status → ℤ → ℤ → Result Route
unfolding residues residues_but guarded
range_status n status0 v1 v2 = ok (tables [])
range_status n status1 v1 v2 =
    guarded (leb_ℤ (pos n) (sub64 (sub64 v2 v1) (pos 1)))
      (residues n (λ i. ltb_ℤ i v2) n (add64 v1 (pos 1)))
range_status n status2 v1 v2 =
    guarded (leb_ℤ (pos n) (sub64 v2 v1)) (residues n (λ i. leb_ℤ i v2) n (add64 v1 (pos 1)))
range_status n status3 v1 v2 =
    guarded (leb_ℤ (pos n) (sub64 v2 v1)) (residues n (λ i. ltb_ℤ i v2) n v1)
range_status n status4 v1 v2 =
    guarded (leb_ℤ (pos n) (add64 (sub64 v2 v1) (pos 1))) (residues n (λ i. leb_ℤ i v2) n v1)
range_status n status5 v1 v2 =
    if leb_ℤ (sub64 (pos n) (pos 1)) v1
    then ok all
    else if ltb_ℤ (add64 (pos n) v1) v2
    then ok all
    else ok (tables (residues_but (to_rounds v2) v1 n (pos 0) []))
range_status n status6 v1 v2 =
    if leb_ℤ (sub64 (pos n) (pos 1)) v1
    then ok all
    else if leb_ℤ (add64 (pos n) v1) v2
    then ok all
    else ok (tables (residues_but (to_rounds v2) v1 n (pos 0) []))

-- `NumberMod.ShardRange`
unfoldable pub mod_shard_range : NumberMod → KeyCondition → KeyCondition → Result Route
mod_shard_range s c1 c2 =
    if equal_fold s.sharding_key c1.key
    then (do
      v1 ← number_of c1
      v2 ← number_of c2
      range_status s.topology.table_slice_len (status_of c1.op c2.op) v1 v2)
    else ok all

-- `*NumberMod` as a `ShardingAlgorithm`.
unfoldable pub number_mod : NumberMod → ShardingAlgorithm
number_mod s = record {
  has_sharding_key = equal_fold s.sharding_key;
  shard = mod_shard s;
  shard_range = mod_shard_range s;
  all_shards = s.topology.table_slice;
  allow_full_scan = s.allow_full_scan;
}
