-- ===== src/Optimize/Shards.antt =====
-- The tables of a slice of indices, by database.
use dbpack.Common.{
  ◌≡◌, ◌⊎◌, inl, inr, refl, sym, List, [], ◌∷◌, ◌++◌, true, false, All, Member, Bool-cases, arith,
}
use dbpack.Common.Int.{ℤ}
use dbpack.Value.{Bytes, text_eq, text_eq→eq, text_ltb}
use dbpack.Cond.{In}
use dbpack.Topo.{Topology, get_index, get_text, get_slice, put_slice, tables_by_db}
use dbpack.Optimize.{insert_text, sort_texts, keys}

-- The name of a table, and its database.
abbrev pub table_of : Topology → ℤ → Bytes
table_of t i = get_index i t.table_index_map

abbrev pub db_of : Topology → ℤ → Bytes
db_of t i = get_text (get_index i t.table_index_map) t.tables

text_eq_refl : (s : Bytes) → text_eq s s ≡ true
unfolding text_eq
text_eq_refl [] = refl
text_eq_refl (c ∷ s) = ground (arith, text_eq_refl s)

get_slice-put_same :
    (k : Bytes) (v : List Bytes) (m : List (Bytes × List Bytes)) → get_slice k (put_slice k v m) ≡ v
unfolding get_slice put_slice
get_slice-put_same k v [] = rw (text_eq_refl k)
get_slice-put_same k v ((j, w) ∷ m) = elim (Bool-cases (text_eq j k)) [
  | inl e ↦ rw (e, e)
  | inr e ↦ rw (e, e) (get_slice-put_same k v m)
]

get_slice-put_other :
    (i k : Bytes) (v : List Bytes) (m : List (Bytes × List Bytes))
    → text_eq k i ≡ false
    → get_slice i (put_slice k v m) ≡ get_slice i m
unfolding get_slice put_slice
get_slice-put_other i k v [] h = rw h
get_slice-put_other i k v ((j, w) ∷ m) h = elim (Bool-cases (text_eq j k)) [
  | inl e ↦
      let same = text_eq→eq j k e in let away : text_eq j i ≡ false = rw same h in rw (e, away)
  | inr e ↦ rw (e, get_slice-put_other i k v m h)
]

Member-left : (x : Bytes) (xs ys : List Bytes) → Member x xs → Member x (xs ++ ys)
Member-left x [] ys h = elim h [ ]
Member-left x (y ∷ xs) ys h = elim h [ inl e ↦ inl e | inr r ↦ inr (Member-left x xs ys r) ]

Member-last : (x : Bytes) (xs : List Bytes) → Member x (xs ++ x ∷ [])
Member-last x [] = inl refl
Member-last x (y ∷ xs) = inr (Member-last x xs)

-- A table that is in the map stays in it.
put_slice-Member :
    (db table k new : Bytes) (m : List (Bytes × List Bytes))
    → Member table (get_slice db m)
    → Member table (get_slice db (put_slice k (get_slice k m ++ new ∷ []) m))
put_slice-Member db table k new m h = elim (Bool-cases (text_eq k db)) [
  | inl e ↦
      let same : db ≡ k = sym (text_eq→eq k db e) in
      rw (same, get_slice-put_same k (get_slice k m ++ new ∷ []) m)
        (Member-left table (get_slice k m) (new ∷ []) (rw same at h))
  | inr e ↦ rw (get_slice-put_other db k (get_slice k m ++ new ∷ []) m e) h
]

tables_by_db-keeps :
    (cond : List ℤ) (t : Topology) (m : List (Bytes × List Bytes)) (db table : Bytes)
    → Member table (get_slice db m)
    → Member table (get_slice db (tables_by_db cond t m))
unfolding tables_by_db
tables_by_db-keeps [] t m db table h = h
tables_by_db-keeps (i ∷ cond) t m db table h =
    tables_by_db-keeps cond t _ db table (put_slice-Member db table (db_of t i) (table_of t i) m h)

pub tables_by_db-Member :
    (cond : List ℤ) (t : Topology) (m : List (Bytes × List Bytes)) (i : ℤ)
    → In i cond
    → Member (table_of t i) (get_slice (db_of t i) (tables_by_db cond t m))
unfolding tables_by_db
tables_by_db-Member [] t m i h = elim h [ ]
tables_by_db-Member (j ∷ cond) t m i h = elim h [
  | inl e ↦ tables_by_db-keeps cond t _ (db_of t i) (table_of t i) (
      rw (e, get_slice-put_same (db_of t j) (get_slice (db_of t j) m ++ table_of t j ∷ []) m)
        (Member-last (table_of t j) (get_slice (db_of t j) m)))
  | inr r ↦ tables_by_db-Member cond t _ i r
]

-- What holds of the databases of the indices holds of the keys of the map.
put_slice-keys :
    (P : Bytes → Type 0) (k : Bytes) (v : List Bytes) (m : List (Bytes × List Bytes))
    → P k
    → All P (keys m)
    → All P (keys (put_slice k v m))
unfolding put_slice
put_slice-keys P k v [] p h = (p, tt)
put_slice-keys P k v ((j, w) ∷ m) p h = elim (Bool-cases (text_eq j k)) [
  | inl e ↦ rw e h
  | inr e ↦ rw e (h.0, put_slice-keys P k v m p h.1)
]

pub tables_by_db-keys :
    (P : Bytes → Type 0) (cond : List ℤ) (t : Topology) (m : List (Bytes × List Bytes))
    → All (λ i. P (db_of t i)) cond
    → All P (keys m)
    → All P (keys (tables_by_db cond t m))
unfolding tables_by_db
tables_by_db-keys P [] t m c h = h
tables_by_db-keys P (i ∷ cond) t m c h =
    tables_by_db-keys P cond t _ c.1 (put_slice-keys P (db_of t i) _ m c.0 h)

pub get_slice-keys :
    (k table : Bytes) (m : List (Bytes × List Bytes))
    → Member table (get_slice k m)
    → Member k (keys m)
unfolding get_slice
get_slice-keys k table [] h = elim h [ ]
get_slice-keys k table ((j, w) ∷ m) h = elim (Bool-cases (text_eq j k)) [
  | inl e ↦ inl (sym (text_eq→eq j k e))
  | inr e ↦ inr (get_slice-keys k table m (rw e at h))
]

-- Sorting the databases loses none.
insert_text-Member :
    (k s : Bytes) (ts : List Bytes) → (k ≡ s) ⊎ Member k ts → Member k (insert_text s ts)
unfolding insert_text
insert_text-Member k s [] h = h
insert_text-Member k s (t ∷ ts) h = elim (Bool-cases (text_ltb s t)) [
  | inl e ↦ rw e h
  | inr e ↦ rw e (elim h [
    | inl a ↦ inr (insert_text-Member k s ts (inl a))
    | inr (inl b) ↦ inl b
    | inr (inr r) ↦ inr (insert_text-Member k s ts (inr r))
  ])
]

pub sort_texts-Member : (k : Bytes) (ts : List Bytes) → Member k ts → Member k (sort_texts ts)
unfolding sort_texts
sort_texts-Member k [] h = h
sort_texts-Member k (t ∷ ts) h =
    insert_text-Member k t (sort_texts ts)
      (elim h [ inl e ↦ inl e | inr r ↦ inr (sort_texts-Member k ts r) ])

insert_text-All :
    (P : Bytes → Type 0) (s : Bytes) (ts : List Bytes) → P s → All P ts → All P (insert_text s ts)
unfolding insert_text
insert_text-All P s [] p h = (p, tt)
insert_text-All P s (t ∷ ts) p h = elim (Bool-cases (text_ltb s t)) [
  | inl e ↦ rw e (p, h)
  | inr e ↦ rw e (h.0, insert_text-All P s ts p h.1)
]

pub sort_texts-All : (P : Bytes → Type 0) (ts : List Bytes) → All P ts → All P (sort_texts ts)
unfolding sort_texts
sort_texts-All P [] h = h
sort_texts-All P (t ∷ ts) h = insert_text-All P t (sort_texts ts) h.0 (sort_texts-All P ts h.1)
