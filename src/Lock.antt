-- ===== src/Lock.antt =====
-- Lock keys of distributed transactions: `BuildLockKey` of pkg/dt/schema/table_records.go, and
-- `CollectRowKeys` of pkg/misc/misc.go.
mod Keys
mod Examples
use dbpack.Common.{
  ℕ, List, [], ◌∷◌, ◌++◌, Option, none, some, Bool, true, false, ◌==◌, if◌then◌else◌,
}
use dbpack.Value.{Bytes}
use dbpack.Cond.{equal_fold}

-- A `Field`, whose value is the text that `%s` or `%v` makes of it.
pub record Field : Type 0 where
  pub name : Bytes
  pub value : Bytes

-- The part of `TableRecords` that keys are made of.
pub record TableRecords : Type 0 where
  pub table_name : Bytes
  pub pk_name : Bytes
  pub rows : List (List Field)

-- `PKFields`: the first field of each row with the name of the primary key.
unfoldable pub pk_field : Bytes → List Field → List Field → List Field
unfolding equal_fold
pk_field pk [] found = found
pk_field pk (f ∷ fs) found =
    let rest = pk_field pk fs found in if equal_fold f.name pk then f ∷ found else rest

unfoldable pub pk_fields : Bytes → List (List Field) → List Field
unfolding pk_field
pk_fields pk [] = []
pk_fields pk (row ∷ rows) = pk_field pk row (pk_fields pk rows)

-- The loop of `BuildLockKey` over the fields.
abbrev pub join_values : List Field → Bytes
join_values [] = []
join_values (f ∷ []) = f.value
join_values (f ∷ g ∷ fs) = f.value ++ b',' ∷ join_values (g ∷ fs)

abbrev pub key_of_rows : TableRecords → List (List Field) → Bytes
key_of_rows rs [] = []
key_of_rows rs (row ∷ rows) =
    rs.table_name ++ b':' ∷ join_values (pk_fields rs.pk_name (row ∷ rows))

unfoldable pub build_lock_key : TableRecords → Bytes
unfolding pk_fields
build_lock_key rs = key_of_rows rs rs.rows

-- `strings.Split` at one byte; there is always a part.
abbrev pub in_front : ℕ → List Bytes → List Bytes
in_front x [] = (x ∷ []) ∷ []
in_front x (p ∷ ps) = (x ∷ p) ∷ ps

unfoldable pub split : ℕ → Bytes → List Bytes
split c [] = [] ∷ []
split c (x ∷ xs) = let rest = split c xs in if x == c then [] ∷ rest else in_front x rest

-- Another byte in front of the first part.
abbrev pub cut_behind : ℕ → Option (Bytes × Bytes) → Option (Bytes × Bytes)
cut_behind x none = none
cut_behind x (some (a, b)) = some (x ∷ a, b)

-- What stands before the first `c` and behind it, by `strings.Index`.
unfoldable pub cut_at : ℕ → Bytes → Option (Bytes × Bytes)
cut_at c [] = none
cut_at c (x ∷ xs) = let rest = cut_behind x (cut_at c xs) in if x == c then some ([], xs) else rest

-- `GetRowKey`
unfoldable pub get_row_key : Bytes → Bytes → Bytes → Bytes
get_row_key resource table pk =
    resource ++ (b'^' ∷ b'^' ∷ b'^' ∷ table) ++ (b'^' ∷ b'^' ∷ b'^' ∷ pk)

-- The keys of the primary keys of one table, less the empty ones.
abbrev pub keys_of : Bytes → Bytes → List Bytes → List Bytes
keys_of resource table [] = []
keys_of resource table ([] ∷ pks) = keys_of resource table pks
keys_of resource table ((c ∷ pk) ∷ pks) =
    get_row_key resource table (c ∷ pk) ∷ keys_of resource table pks

abbrev pub append_locks : List Bytes → Option (List Bytes) → Option (List Bytes)
append_locks keys none = none
append_locks keys (some locks) = some (keys ++ locks)

-- The keys of a part that is not empty, followed by `rest`; none is a nil slice.
abbrev pub collect_table :
    Bytes → Option (Bytes × Bytes) → Option (List Bytes) → Option (List Bytes)
collect_table resource none rest = none
collect_table resource (some (table, [])) rest = none
collect_table resource (some (table, c ∷ merged)) rest =
    append_locks (keys_of resource table (split b',' (c ∷ merged))) rest

abbrev pub collect_tables : Bytes → List Bytes → Option (List Bytes)
collect_tables resource [] = some []
collect_tables resource ([] ∷ parts) = collect_tables resource parts
collect_tables resource ((c ∷ part) ∷ parts) =
    collect_table resource (cut_at b':' (c ∷ part)) (collect_tables resource parts)

-- `CollectRowKeys`
unfoldable pub collect_row_keys : Bytes → Bytes → Option (List Bytes)
unfolding split cut_at get_row_key
collect_row_keys lock_key resource = collect_tables resource (split b';' lock_key)
