-- ===== src/Topo.antt =====
-- The tables of a sharded table, pkg/topo/topo.go, and the tables of a slice of indices by database,
-- `TableIndexSliceCondition.ParseTopology` of pkg/cond/shard.go.
mod Tables
pub mod Sound
pub mod Full
mod Examples
use dbpack.Common.{
  ℕ, zero, suc, ◌+◌, List, [], ◌∷◌, ◌++◌, Bool, true, false, ◌&&◌, leb, ◌==◌, if◌then◌else◌, length,
  Option, none, some,
}
use dbpack.Common.Int.{ℤ, pos, negsuc, pos_part, ◌==ℤ◌, ltb_ℤ, leb_ℤ, add64, sub64}
use dbpack.Value.{
  Bytes, text_eq, is_digit, all_digits, format_int, good, syntax_error, range_error, parse_int,
  Parsed,
}
use dbpack.Cond.{Error, not_a_number, bad_topology, Result, ok, err, panic, stuck, ◌>>=◌}
use dbpack.Cond

-- Maps, as lists of their entries; a key that is missing reads as the empty text.
unfoldable pub put_text : Bytes → Bytes → List (Bytes × Bytes) → List (Bytes × Bytes)
put_text k v [] = (k, v) ∷ []
put_text k v ((j, w) ∷ m) =
    let rest = put_text k v m in if text_eq j k then (j, v) ∷ m else (j, w) ∷ rest

unfoldable pub get_text : Bytes → List (Bytes × Bytes) → Bytes
get_text k [] = []
get_text k ((j, w) ∷ m) = let rest = get_text k m in if text_eq j k then w else rest

unfoldable pub put_index : ℤ → Bytes → List (ℤ × Bytes) → List (ℤ × Bytes)
put_index k v [] = (k, v) ∷ []
put_index k v ((j, w) ∷ m) =
    let rest = put_index k v m in if j ==ℤ k then (j, v) ∷ m else (j, w) ∷ rest

unfoldable pub get_index : ℤ → List (ℤ × Bytes) → Bytes
get_index k [] = []
get_index k ((j, w) ∷ m) = let rest = get_index k m in if j ==ℤ k then w else rest

unfoldable pub put_slice :
    Bytes → List Bytes → List (Bytes × List Bytes) → List (Bytes × List Bytes)
put_slice k v [] = (k, v) ∷ []
put_slice k v ((j, w) ∷ m) =
    let rest = put_slice k v m in if text_eq j k then (j, v) ∷ m else (j, w) ∷ rest

unfoldable pub get_slice : Bytes → List (Bytes × List Bytes) → List Bytes
get_slice k [] = []
get_slice k ((j, w) ∷ m) = let rest = get_slice k m in if text_eq j k then w else rest

-- `topo.Topology`
pub record Topology : Type 0 where
  pub db_name : Bytes
  pub table_name : Bytes
  pub dbs : List (Bytes × List Bytes)
  pub tables : List (Bytes × Bytes)
  pub table_index_map : List (ℤ × Bytes)
  pub table_slice : List ℤ
  pub table_slice_len : ℕ

-- What routing reads of it.
abbrev pub routing : Topology → Cond.Topology
routing t = record { table_slice = t.table_slice; table_slice_len = t.table_slice_len }

-- The local variables of `ParseTopology`, with the `tableSlice` of the current round.
pub record Parse : Type 0 where
  pub dbs : List (Bytes × List Bytes)
  pub tables : List (Bytes × Bytes)
  pub table_index_map : List (ℤ × Bytes)
  pub table_index_slice : List ℤ
  pub max : ℤ
  pub table_slice : List Bytes

-- `fmt.Sprintf("%s_%d", name, index)`
unfoldable pub numbered : Bytes → ℤ → Bytes
numbered name index = name ++ b'_' ∷ format_int index

-- `mathutil.Max`
unfoldable pub max_int : ℤ → ℤ → ℤ
max_int a b = if ltb_ℤ b a then a else b

-- The statements that add one table.
unfoldable pub add_table : Bytes → Bytes → ℤ → Parse → Parse
unfolding put_text put_index numbered max_int
add_table table_name real_db index p = record {
  dbs = p.dbs;
  tables = put_text (numbered table_name index) real_db p.tables;
  table_index_map = put_index index (numbered table_name index) p.table_index_map;
  table_index_slice = p.table_index_slice ++ index ∷ [];
  max = max_int p.max index;
  table_slice = p.table_slice ++ numbered table_name index ∷ [];
}

-- `for j := begin; j <= end; j++`, with fuel for the rounds.
unfoldable pub add_tables : ℕ → Bytes → Bytes → ℤ → ℤ → Parse → Result Parse
add_tables zero table_name real_db j end p = if leb_ℤ j end then stuck else ok p
add_tables (suc fuel) table_name real_db j end p =
    let rest =
      add_tables fuel table_name real_db (add64 j (pos 1)) end (add_table table_name real_db j p) in
    if leb_ℤ j end then rest else ok p

-- `strconv.Atoi`
unfoldable pub result_of : Parsed → Result ℤ
result_of (good z) = ok z
result_of syntax_error = err not_a_number
result_of (range_error z) = err not_a_number

unfoldable pub atoi : Bytes → Result ℤ
unfolding result_of
atoi s = result_of (parse_int s)

unfoldable pub filled : Bytes → Bool
filled [] = false
filled (c ∷ cs) = true

-- The groups of `^(\d+)-(\d+)$`, behind the digits that are read.
unfoldable pub groups_from : Bytes → Bytes → Option (Bytes × Bytes)
unfolding filled
groups_from read [] = none
groups_from read (c ∷ cs) =
    let rest = groups_from (read ++ c ∷ []) cs in
    if is_digit c
    then rest
    else if c == b'-' && filled read && filled cs && all_digits cs
    then some (read, cs)
    else none

-- The tables of one database, which are written as one index or as two.
unfoldable pub add_range : Bytes → Bytes → ℤ → ℤ → Parse → Result Parse
unfolding add_tables
add_range table_name real_db begin end p =
    if leb_ℤ end begin
    then err bad_topology
    else add_tables (suc (pos_part (sub64 end begin))) table_name real_db begin end p

unfoldable pub parse_range : Bytes → Bytes → Bytes → Bytes → Parse → Result Parse
unfolding add_range atoi
parse_range table_name real_db first last p =
    atoi first >>= λ begin. atoi last >>= λ end. add_range table_name real_db begin end p

-- The submatches: three, or none.
unfoldable pub parse_params : Bytes → Bytes → Option (Bytes × Bytes) → Parse → Result Parse
unfolding parse_range
parse_params table_name real_db none p = err bad_topology
parse_params table_name real_db (some params) p = parse_range table_name real_db params.0 params.1 p

unfoldable pub parse_tables : Bytes → Bytes → Bytes → Parse → Result Parse
unfolding add_table atoi groups_from parse_params
parse_tables table_name real_db tp p =
    if all_digits tp
    then (atoi tp >>= λ index. ok (add_table table_name real_db index p))
    else parse_params table_name real_db (groups_from [] tp) p

-- One round of the loop over the databases.
unfoldable pub parse_db : Bytes → Bytes → ℤ → Bytes → Parse → Result Parse
unfolding parse_tables put_slice numbered
parse_db db_name table_name i [] p = err bad_topology
parse_db db_name table_name i (c ∷ tp) p =
    parse_tables table_name (numbered db_name i) (c ∷ tp) (record p { table_slice = [] }) >>= λ q.
    ok (record q { dbs = put_slice (numbered db_name i) q.table_slice q.dbs })

-- `for i := 0; i < dbLen; i++`, over the rounds that are left.
unfoldable pub parse_dbs : Bytes → Bytes → ℕ → ℕ → List (ℤ × Bytes) → Parse → Result Parse
unfolding parse_db get_index
parse_dbs db_name table_name zero i topology p = ok p
parse_dbs db_name table_name (suc n) i topology p =
    parse_db db_name table_name (pos i) (get_index (pos i) topology) p >>= λ q.
    parse_dbs db_name table_name n (suc i) topology q

abbrev pub parse_start : Parse
parse_start = record {
  dbs = [];
  tables = [];
  table_index_map = [];
  table_index_slice = [];
  max = pos 0;
  table_slice = [];
}

-- The test at the end, on the int `len(tableIndexSlice) - 1`.
unfoldable pub finish : Bytes → Bytes → Parse → Result Topology
finish db_name table_name p =
    if p.max ==ℤ sub64 (pos (length p.table_index_slice)) (pos 1)
    then ok (record {
      db_name = db_name;
      table_name = table_name;
      dbs = p.dbs;
      tables = p.tables;
      table_index_map = p.table_index_map;
      table_slice = p.table_index_slice;
      table_slice_len = length p.table_index_slice;
    })
    else err bad_topology

-- `ParseTopology`; the entries of the map have different keys.
unfoldable pub parse_topology : Bytes → Bytes → List (ℤ × Bytes) → Result Topology
unfolding parse_dbs finish
parse_topology db_name table_name topology =
    parse_dbs db_name table_name (length topology) 0 topology parse_start
    >>= finish db_name table_name

-- `TableIndexSliceCondition.ParseTopology`: whether all tables are hit, and the tables by database.
unfoldable pub tables_by_db :
    List ℤ → Topology → List (Bytes × List Bytes) → List (Bytes × List Bytes)
unfolding get_index get_text get_slice put_slice
tables_by_db [] t result = result
tables_by_db (index ∷ cond) t result =
    let table = get_index index t.table_index_map in
    let db = get_text table t.tables in
    tables_by_db cond t (put_slice db (get_slice db result ++ table ∷ []) result)

unfoldable pub slice_topology : List ℤ → Topology → Bool × List (Bytes × List Bytes)
unfolding tables_by_db
slice_topology cond t = (length cond == t.table_slice_len, tables_by_db cond t [])
