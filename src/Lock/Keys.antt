-- ===== src/Lock/Keys.antt =====
-- The keys of the rows are read back from the key that is built of them.
use dbpack.Common.{
  ℕ, ◌≡◌, ◌≢◌, refl, ◌∙◌, ap, List, [], ◌∷◌, ◌++◌, map, some, true, false, All, ◌==◌,
}
use mathlib.Core.List.{append-nil}
use dbpack.Value.{Bytes}
use dbpack.Lock.{
  Field, TableRecords, pk_fields, join_values, key_of_rows, build_lock_key, split, cut_at,
  get_row_key, keys_of, collect_table, collect_tables, collect_row_keys,
}

-- A text without the byte `c`.
abbrev pub Without : ℕ → Bytes → Type 0
Without c [] = Unit
Without c (x ∷ xs) = ((x == c) ≡ false) × Without c xs

-- A text that can stand as a primary key in a lock key.
abbrev pub IsPlain : Bytes → Type 0
IsPlain s = (s ≢ []) × Without b',' s × Without b';' s

Without-append : (c : ℕ) (s t : Bytes) → Without c s → Without c t → Without c (s ++ t)
Without-append c [] t h k = k
Without-append c (x ∷ s) t h k = (h.0, Without-append c s t h.1 k)

split-single : (c : ℕ) (s : Bytes) → Without c s → split c s ≡ s ∷ []
unfolding split
split-single c [] h = refl
split-single c (x ∷ s) h = rw (h.0, split-single c s h.1) refl

split-append :
    (c : ℕ) (s t : Bytes) → Without c s → (c == c) ≡ true → split c (s ++ c ∷ t) ≡ s ∷ split c t
unfolding split
split-append c [] t h e = rw e refl
split-append c (x ∷ s) t h e = rw (h.0, split-append c s t h.1 e) refl

cut_at-append :
    (c : ℕ) (s t : Bytes) → Without c s → (c == c) ≡ true → cut_at c (s ++ c ∷ t) ≡ some (s, t)
unfolding cut_at
cut_at-append c [] t h e = rw e refl
cut_at-append c (x ∷ s) t h e = rw (h.0, cut_at-append c s t h.1 e) refl

abbrev pub Plain : List Field → Type 0
Plain fs = All (λ f. IsPlain f.value) fs

split-join_values :
    (f : Field) (fs : List Field)
    → Plain (f ∷ fs)
    → split b',' (join_values (f ∷ fs)) ≡ map Field.value (f ∷ fs)
split-join_values f [] h = split-single b',' f.value h.0.1
split-join_values f (g ∷ fs) h =
    split-append b',' f.value (join_values (g ∷ fs)) h.0.1 refl
    ∙ ap (λ x. f.value ∷ x) (split-join_values g fs h.1)

Without-join_values :
    (f : Field) (fs : List Field) → Plain (f ∷ fs) → Without b';' (join_values (f ∷ fs))
Without-join_values f [] h = h.0.2
Without-join_values f (g ∷ fs) h =
    Without-append b';' f.value (b',' ∷ join_values (g ∷ fs)) h.0.2
      (refl, Without-join_values g fs h.1)

append-filled : (s t : Bytes) (c : ℕ) → s ++ c ∷ t ≢ []
append-filled [] t c e = cc
append-filled (x ∷ s) t c e = cc

filled-join_values : (f : Field) (fs : List Field) → Plain (f ∷ fs) → join_values (f ∷ fs) ≢ []
filled-join_values f [] h e = h.0.0 e
filled-join_values f (g ∷ fs) h e = append-filled f.value (join_values (g ∷ fs)) b',' e

module _ (resource table : Bytes) where
  abbrev pub row_keys : List Field → List Bytes
  row_keys fs = map (λ (f : Field). get_row_key resource table f.value) fs

  keys_of-filled :
      (pk : Bytes) (pks : List Bytes)
      → pk ≢ []
      → keys_of resource table (pk ∷ pks)
        ≡ get_row_key resource table pk ∷ keys_of resource table pks
  keys_of-filled [] pks n = absurd (n refl)
  keys_of-filled (c ∷ pk) pks n = refl

  keys_of-Plain :
      (fs : List Field) → Plain fs → keys_of resource table (map Field.value fs) ≡ row_keys fs
  keys_of-Plain [] h = refl
  keys_of-Plain (f ∷ fs) h =
      keys_of-filled f.value (map Field.value fs) h.0.0
      ∙ ap (λ x. get_row_key resource table f.value ∷ x) (keys_of-Plain fs h.1)

  collect_table-filled :
      (merged : Bytes) (rest : List Bytes)
      → merged ≢ []
      → collect_table resource (some (table, merged)) (some rest)
        ≡ some (keys_of resource table (split b',' merged) ++ rest)
  collect_table-filled [] rest n = absurd (n refl)
  collect_table-filled (c ∷ merged) rest n = refl

  collect_tables-filled :
      (part : Bytes)
      → part ≢ []
      → collect_tables resource (part ∷ []) ≡ collect_table resource (cut_at b':' part) (some [])
  collect_tables-filled [] n = absurd (n refl)
  collect_tables-filled (c ∷ part) n = refl

key_of_rows-filled :
    (rs : TableRecords) (rows : List (List Field)) (f : Field) (fs : List Field)
    → pk_fields rs.pk_name rows ≡ f ∷ fs
    → key_of_rows rs rows ≡ rs.table_name ++ b':' ∷ join_values (f ∷ fs)
unfolding pk_fields
key_of_rows-filled rs [] f fs e = cc
key_of_rows-filled rs (row ∷ rows) f fs e = ap (λ x. rs.table_name ++ b':' ∷ join_values x) e

-- For records of a table without ':' and ';' in its name, of which at least one row has a primary
-- key, and whose primary keys are not empty and without ',' and ';': `CollectRowKeys` reads the keys
-- of these rows, in their order, back from the lock key that `BuildLockKey` makes.
pub collect_row_keys-build_lock_key :
    (rs : TableRecords) (resource : Bytes) (f : Field) (fs : List Field)
    → Without b':' rs.table_name
    → Without b';' rs.table_name
    → pk_fields rs.pk_name rs.rows ≡ f ∷ fs
    → Plain (f ∷ fs)
    → collect_row_keys (build_lock_key rs) resource
      ≡ some (row_keys resource rs.table_name (f ∷ fs))
unfolding collect_row_keys build_lock_key
collect_row_keys-build_lock_key rs resource f fs colon semicolon e h =
    let t = rs.table_name in
    let values = join_values (f ∷ fs) in
    let key = t ++ b':' ∷ values in
    let free : Without b';' key =
      Without-append b';' t (b':' ∷ values) semicolon (refl, Without-join_values f fs h) in
    let keys : keys_of resource t (split b',' values) ++ [] ≡ row_keys resource t (f ∷ fs) =
      append-nil (keys_of resource t (split b',' values))
      ∙ ap (keys_of resource t) (split-join_values f fs h)
      ∙ keys_of-Plain resource t (f ∷ fs) h in
    ap (λ x. collect_tables resource (split b';' x)) (key_of_rows-filled rs rs.rows f fs e)
    ∙ ap (collect_tables resource) (split-single b';' key free)
    ∙ collect_tables-filled resource t key (append-filled t values b':')
    ∙ ap (λ x. collect_table resource x (some [])) (cut_at-append b':' t values colon refl)
    ∙ collect_table-filled resource t values [] (filled-join_values f fs h)
    ∙ ap some keys
