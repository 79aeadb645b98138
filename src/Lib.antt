-- ===== src/Lib.antt =====
-- dbpack is a database proxy. This library models the parts of it that decide: where a statement
-- on a sharded table is sent, when the circuit breaker lets calls through, which numbers rows
-- get, and how integers and strings are laid out in packets.
--
-- Common holds shared helpers: tests on numbers, lists, and int64 with its wrap-around
-- (Common/Int).
--
-- Breaker models pkg/filter/breaker/breaker.go. `Breaker` is `_filter`, with the timers that are
-- pending; `pre_handle`, `post_handle`, `open_breaker`, `close_breaker`, `timer` and
-- `change_state` are its methods. A time is a number. `Step` is the end of one call, with the
-- state that it saw before it took the lock, or the waking of one timer. Invariant and Counting
-- hold the theorems.
--
-- Value models `Compare` of pkg/misc/other.go on integers, each with its Go type (`Kind`), and
-- strings, with `%v` of fmt and `ParseInt(s, 10, 64)` of strconv. Floats and times are not
-- modelled.
--
-- Wire models pkg/misc/encoding.go: Write has the encoders and sizes, Read the decoders. Writing
-- past the end of a buffer panics and is none; a decoder returns a value, answers that the buffer
-- is too short, or panics.
--
-- Cond models the routing of pkg/cond. `Condition`, `KeyCondition` and `Route` are the conditions
-- of condition.go and those that an algorithm returns; `missing` and `absent` are nil interfaces.
-- A result is a value, an error, a panic, or stuck, where a loop has run out of fuel. Slice has
-- And and Or of slices of indices (shard.go); Pair the functions And and Or on key conditions
-- (shard.go); Shard has `ComplexCondition.Shard` with the order of condition.go; NumberMod is
-- algo_number_mod.go, and NumberRange algo_number_range.go with its configuration in
-- NumberRange/Config. Cond/Sound states what the router needs of a `ShardingAlgorithm`,
-- NumberMod/Interface fills it in for NumberMod, and the theorems of Pair and Shard take it as a
-- parameter.
--
-- Cond/Build and Cond/Parse lead from a WHERE clause to a condition. A complex condition stands
-- in memory at an address (`Heap`), since `And` of two conjunctions and `Or` of two disjunctions
-- append to the receiver; `and_ref` and `or_ref` are the methods of condition.go, each with the
-- memory that it leaves. Build/Reads says what a condition in memory says, a disjunction of
-- conjunctions of key conditions (`Reads`), and Build/Memory which part of the memory a method
-- leaves alone (`Moves`). `Expr` of Parse has the nodes of the syntax tree that ParseCondition
-- tells apart, and `Evaluator` stands for the JavaScript engine that computes functions and
-- arithmetic. Parse/Spec has the rows that a clause selects (`Selects`) and the clauses over
-- columns and integers (`Says`), in which an AND can be distributed: one of its sides has no
-- conjunction of several key conditions, or the second side is no disjunction. For other clauses
-- the in-place append loses parts (a run in Parse/Examples shows it).
--
-- A condition is routable (Shard/Spec) if its values are of the type int64 and ones by which the
-- algorithm routes, its operators are =, <, <=, > and >=, no `>= z` stands with `<= z` under one
-- AND, at most two key conditions stand under one OR, and each of its groups has something to
-- route by. Among the conditions left out are those on which `Shard` panics or leaves out tables.
-- A row satisfies a condition as `Satisfies` of Shard/Spec says.
--
-- `sort.Sort` (Shard/Sort and `sorted_cells` of Merge/Ordered) is that of Go 1.18 on at most
-- twelve elements: a pass over the elements six apart, and an insertion sort; more elements,
-- which it sorts by quicksort, are left to the insertion sort.
--
-- Topo models `ParseTopology` of pkg/topo/topo.go, and `TableIndexSliceCondition.ParseTopology`
-- of pkg/cond/shard.go. Topo/Full leads to the topologies that NumberMod needs.
--
-- Optimize models pkg/optimize: `optimize_select`, `optimize_update`, `optimize_delete` and
-- `optimize_insert`, which compose ParseCondition, `Shard` and `ParseTopology`, guard against
-- full scans, and make a plan for each database. An executor is a number. The metadata of the
-- table, from which the primary key comes, is left out.
--
-- Merge models the merging of the results of a SELECT on several databases, pkg/plan/result.go. A
-- result in the course of merging is the list of the rows from its index on, and `decodes` says
-- which rows can be decoded. (Decoded compares the loops with those of Pure, which have no
-- panics.) Merge/Ordered has the merging by ORDER BY: each result has a cell with its next row
-- (`OrderByCell`), `choose` is `compareOrderByCells`, and the setting of `next` through the
-- pointer is the new list of results that it returns. Cut has the part of the rows that a LIMIT
-- asks for. The order of rows is an interface (`IsOrdered` of Sorting), which Integers fills in
-- for fields that hold int64.
--
-- Group models the choice of a database of a group, pkg/group/group.go: `pick` with
-- `pick_random`, `pick_round_robin` and `pick_random_weight`, `add_db` and `remove_db`. `draw`
-- stands for the random generator, and gives the number that is drawn below its argument. The
-- counters are int64, and so are the sums of weights.
--
-- Uuid models pkg/misc/uuid: id_worker.go and snowflake.go, and Uuid/Segment segment.go. The
-- clock, the network interfaces, the random number and the outcomes of the database are
-- arguments.
--
-- Xid models `GetTransactionID` of pkg/misc/xid.go, and the text of an id in
-- pkg/dt/transaction_manger.go.
--
-- Lock models the lock keys of distributed transactions: `BuildLockKey` of
-- pkg/dt/schema/table_records.go, where the value of a field is the text that fmt makes of it,
-- and `CollectRowKeys` of pkg/misc/misc.go, whose nil slice is `none`.
--
-- Escape models pkg/misc/escape.go on runes, with a flag as the uint8 that it is, and Pad
-- `PadLeft` and `PadRight` of pkg/misc/strings.go.
--
-- Fuel: the loops of `ShardRange` of NumberMod run on the number of tables, since they are
-- entered only where fewer values lie between the bounds; that of `calculateRange` and that of
-- `ParseTopology` on the distance between the two ends and one more; padding on the missing bytes
-- and one more; merging on the number of rows and of results, and one more; `And` and `Or` on
-- three, since the conditions of a clause are at most two levels deep (their theorems show that
-- it is enough). A loop that runs out of its fuel is stuck, which no theorem takes for a result.
-- Maps are lists of entries in the order in which a loop meets them.
--
-- Not modelled: parsing of SQL (the parser is a copy of another project), the MySQL protocol,
-- drivers, executors and the SQL of plans, the search for the fields of ORDER BY, aggregates,
-- distributed transactions, and input and output.
pub mod Common
pub mod Breaker
pub mod Value
pub mod Wire
pub mod Cond
pub mod Topo
pub mod Optimize
pub mod Merge
pub mod Group
pub mod Uuid
pub mod Xid
pub mod Lock
pub mod Escape
pub mod Pad
