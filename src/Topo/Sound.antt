-- ===== src/Topo/Sound.antt =====
-- What a topology that `ParseTopology` returns satisfies.
use dbpack.Common.{
  ℕ, zero, suc, ◌+◌, ◌-◌, ◌^◌, ◌<◌, ◌≡◌, inl, inr, refl, ap, List, [], ◌∷◌, ◌++◌, true, ◌&&◌, ◌==◌,
  All, All-map, Bool-cases, length, arith, Option, none, some,
}
use mathlib.Core.Path.{subst}
use dbpack.Common.Int.{
  ℤ, pos, negsuc, pos_part, neg_part, ◌≤ℤ◌, ◌<ℤ◌, ◌==ℤ◌, ==ℤ_iff, leb_ℤ, sub64, sub64_parts,
}
use dbpack.Value.{Bytes, is_digit, all_digits}
use dbpack.Cond.{ok, ok-injective}
use dbpack.Topo.{
  get_index, Topology, Parse, numbered, atoi, groups_from, filled, add_range, parse_range,
  parse_tables, parse_params, parse_db, parse_dbs, parse_start, finish, parse_topology,
}
use dbpack.Topo.Tables.{
  IsListed, Collected, IsNatural, bind_ok, atoi-IsNatural, add_table-Collected,
  add_tables-Collected,
}

some-injective : {A : Type 0} {a b : A} → some a ≡ some b → a ≡ b
some-injective e = cc

all_digits-snoc :
    (s : Bytes) (c : ℕ) → all_digits s ≡ true → is_digit c ≡ true → all_digits (s ++ c ∷ []) ≡ true
unfolding all_digits
all_digits-snoc [] c h k = ground arith
all_digits-snoc (d ∷ s) c h k = ground (arith, all_digits-snoc s c)

-- Both groups of the pattern are digits.
groups_from-digits :
    (read s : Bytes) (ps : Bytes × Bytes)
    → all_digits read ≡ true
    → groups_from read s ≡ some ps
    → (all_digits ps.0 ≡ true) × (all_digits ps.1 ≡ true)
unfolding groups_from
groups_from-digits read [] ps h e = cc
groups_from-digits read (c ∷ s) ps h e = elim (Bool-cases (is_digit c)) [
  | inl d ↦ groups_from-digits (read ++ c ∷ []) s ps (all_digits-snoc read c h d) (rw d at e)
  | inr n ↦ elim (Bool-cases (c == b'-' && filled read && filled s && all_digits s)) [
    | inl m ↦
        let hit : some (read, s) ≡ some ps = rw (n, m) at e in
        subst (λ qs. (all_digits qs.0 ≡ true) × (all_digits qs.1 ≡ true)) (some-injective hit)
          (h, ground arith)
    | inr m ↦ let e' = rw (n, m) at e in cc
  ]
]

add_range-Collected :
    (name db : Bytes) (begin end : ℤ) (p q : Parse)
    → IsNatural begin
    → IsNatural end
    → add_range name db begin end p ≡ ok q
    → Collected name p
    → Collected name q
unfolding add_range
add_range-Collected name db begin end p q (a, x, l) (b, y, m) e c =
    elim (Bool-cases (leb_ℤ end begin)) [
      | inl h ↦ let e' = rw h at e in cc
      | inr h ↦
          let less : a < b = ground (arith, x, y, h) in
          let gap : sub64 (pos b) (pos a) ≡ pos (b - a) = unfold sub64 in ground arith in
          let rounds : a + suc (pos_part (sub64 (pos b) (pos a))) ≡ suc b = rw gap (omega arith) in
          let e' = rw (h, x, y) at e in
          add_tables-Collected (suc (pos_part (sub64 (pos b) (pos a)))) name db a b p q rounds m e'
            c
    ]

parse_range-Collected :
    (name db first last : Bytes) (p q : Parse)
    → all_digits first ≡ true
    → all_digits last ≡ true
    → parse_range name db first last p ≡ ok q
    → Collected name p
    → Collected name q
unfolding parse_range
parse_range-Collected name db first last p q d d' e c =
    let (a, x, r) = bind_ok (atoi first) _ q e in
    let (b, y, s) = bind_ok (atoi last) _ q r in
    add_range-Collected name db a b p q (atoi-IsNatural first a d x) (atoi-IsNatural last b d' y) s
      c

parse_params-Collected :
    (name db tp : Bytes) (params : Option (Bytes × Bytes)) (p q : Parse)
    → groups_from [] tp ≡ params
    → parse_params name db params p ≡ ok q
    → Collected name p
    → Collected name q
unfolding parse_params
parse_params-Collected name db tp none p q g e c = cc
parse_params-Collected name db tp (some params) p q g e c =
    let (d, d') = groups_from-digits [] tp params (unfold all_digits in refl) g in
    parse_range-Collected name db params.0 params.1 p q d d' e c

parse_tables-Collected :
    (name db tp : Bytes) (p q : Parse)
    → parse_tables name db tp p ≡ ok q
    → Collected name p
    → Collected name q
unfolding parse_tables
parse_tables-Collected name db tp p q e c = elim (Bool-cases (all_digits tp)) [
  | inl h ↦
      let (index, a, r) = bind_ok (atoi tp) _ q (rw h at e) in
      let (n, i, l) = atoi-IsNatural tp index h a in
      subst (λ s. Collected name s) (ok-injective r)
        (add_table-Collected name db index p (rw i (omega arith)) c)
  | inr h ↦ parse_params-Collected name db tp (groups_from [] tp) p q refl (rw h at e) c
]

parse_db-Collected :
    (db_name name tp : Bytes) (i : ℤ) (p q : Parse)
    → parse_db db_name name i tp p ≡ ok q
    → Collected name p
    → Collected name q
unfolding parse_db
parse_db-Collected db_name name [] i p q e c = cc
parse_db-Collected db_name name (t ∷ tp) i p q e c =
    let (r, a, b) =
      bind_ok (parse_tables name (numbered db_name i) (t ∷ tp) (record p { table_slice = [] })) _ q
        e in
    let c' =
      parse_tables-Collected name (numbered db_name i) (t ∷ tp) (record p { table_slice = [] }) r a
        c in
    subst (λ s. Collected name s) (ok-injective b) c'

parse_dbs-Collected :
    (db_name name : Bytes) (n i : ℕ) (topology : List (ℤ × Bytes)) (p q : Parse)
    → parse_dbs db_name name n i topology p ≡ ok q
    → Collected name p
    → Collected name q
unfolding parse_dbs
parse_dbs-Collected db_name name zero i topology p q e c =
    subst (λ s. Collected name s) (ok-injective e) c
parse_dbs-Collected db_name name (suc n) i topology p q e c =
    let (r, a, b) = bind_ok (parse_db db_name name (pos i) (get_index (pos i) topology) p) _ q e in
    parse_dbs-Collected db_name name n (suc i) topology r q b
      (parse_db-Collected db_name name (get_index (pos i) topology) (pos i) p r a c)

-- What a topology promises: it has a table, the length is that of the slice, and each index in it is
-- from 0 to the length, exclusive, and has its table in the map.
abbrev pub IsSoundTopology : Bytes → Topology → Type 0
IsSoundTopology name t =
    (0 < t.table_slice_len)
    × (t.table_slice_len ≡ length t.table_slice)
    × All
        (λ i.
          (pos 0 ≤ℤ i)
          × (i <ℤ pos t.table_slice_len)
          × (get_index i t.table_index_map ≡ numbered name i))
        t.table_slice

last_index :
    (max : ℤ) (n : ℕ)
    → pos 0 ≤ℤ max
    → max ≡ sub64 (pos n) (pos 1)
    → n < 2 ^ 63
    → (0 < n) × ((i : ℤ) → i ≤ℤ max → i <ℤ pos n)
last_index (negsuc k) n h e l = absurd (omega arith)
last_index (pos m) n h e l =
    let gap = sub64_parts (pos n) (pos 1) (omega arith) (omega arith) in
    let up = ap pos_part e in
    let low = ap neg_part e in (omega (arith, gap, up, low), λ i k. omega (arith, gap, up, low))

finish_sound :
    (db_name name : Bytes) (p : Parse) (t : Topology)
    → length p.table_index_slice < 2 ^ 63
    → finish db_name name p ≡ ok t
    → Collected name p
    → IsSoundTopology name t
unfolding finish
finish_sound db_name name p t l e c =
    elim (Bool-cases (p.max ==ℤ sub64 (pos (length p.table_index_slice)) (pos 1))) [
      | inl h ↦
          let (positive, below) =
            last_index p.max (length p.table_index_slice) c.0 ((==ℤ_iff p.max _).0 h) l in
          subst (λ u. IsSoundTopology name u) (ok-injective (rw h at e))
            (
              positive,
              refl,
              All-map {P = IsListed name p.table_index_map p.max} p.table_index_slice
                  (λ i k. (k.0, below i k.1, k.2)) c.1,
            )
      | inr h ↦ let e' = rw h at e in cc
    ]

finish-slice :
    (db_name name : Bytes) (p : Parse) (t : Topology)
    → finish db_name name p ≡ ok t
    → length p.table_index_slice ≡ length t.table_slice
unfolding finish
finish-slice db_name name p t e =
    elim (Bool-cases (p.max ==ℤ sub64 (pos (length p.table_index_slice)) (pos 1))) [
      | inl h ↦ ap (λ (u : Topology). length u.table_slice) (ok-injective (rw h at e))
      | inr h ↦ let e' = rw h at e in cc
    ]

-- A topology that `ParseTopology` returns, for fewer than 2^63 tables, has at least one table,
-- the length of its slice of indices as their number, and only indices from 0 to that number,
-- exclusive, each of which the map takes to the table's name with that index.
pub parse_topology-IsSound :
    (db_name name : Bytes) (topology : List (ℤ × Bytes)) (t : Topology)
    → parse_topology db_name name topology ≡ ok t
    → length t.table_slice < 2 ^ 63
    → IsSoundTopology name t
unfolding parse_topology
parse_topology-IsSound db_name name topology t e l =
    let (p, a, b) =
      bind_ok (parse_dbs db_name name (length topology) 0 topology parse_start) _ t e in
    let c =
      parse_dbs-Collected db_name name (length topology) 0 topology parse_start p a
        (omega arith, tt) in
    finish_sound db_name name p t (rw (finish-slice db_name name p t b) l) b c
