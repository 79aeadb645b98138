-- ===== src/Topo/Tables.antt =====
-- What the rounds of `ParseTopology` collect.
use dbpack.Common.{
  ℕ, zero, suc, ◌+◌, ◌^◌, ◌≤◌, ◌<◌, ◌≡◌, inl, inr, refl, sym, ◌∙◌, ap, List, [], ◌∷◌, ◌++◌, true,
  false, leb, All, All-map, Bool-cases, arith,
}
use mathlib.Core.Path.{subst}
use dbpack.Common.Int.{ℤ, pos, ◌≤ℤ◌, ◌==ℤ◌, ==ℤ_iff, leb_ℤ, add64}
use dbpack.Value.{
  Bytes, is_digit, all_digits, parse_int, in_range, good, syntax_error, range_error, parse_unsigned,
  Parsed, Digits, value, bad, too_big,
}
use dbpack.Cond.{Result, ok, err, panic, stuck, ◌>>=◌, ok-injective}
use dbpack.Cond.NumberMod.Loops.{add64-one}
use dbpack.Topo.{
  put_index, get_index, Parse, numbered, max_int, add_table, add_tables, atoi, result_of,
}

get_index-put_same : (k : ℤ) (v : Bytes) (m : List (ℤ × Bytes)) → get_index k (put_index k v m) ≡ v
unfolding get_index put_index
get_index-put_same k v [] = ground (arith, ==ℤ_iff k k)
get_index-put_same k v ((j, w) ∷ m) = ground (arith, get_index-put_same k v m)

get_index-put_other :
    (i k : ℤ) (v : Bytes) (m : List (ℤ × Bytes))
    → (k ==ℤ i) ≡ false
    → get_index i (put_index k v m) ≡ get_index i m
unfolding get_index put_index
get_index-put_other i k v [] h = rw h
get_index-put_other i k v ((j, w) ∷ m) h = ground (arith, get_index-put_other i k v m h)

-- The indices that are collected: from 0 to the maximum, each with its table.
abbrev pub IsListed : Bytes → List (ℤ × Bytes) → ℤ → ℤ → Type 0
IsListed name m max i = (pos 0 ≤ℤ i) × (i ≤ℤ max) × (get_index i m ≡ numbered name i)

abbrev pub Collected : Bytes → Parse → Type 0
Collected name p =
    (pos 0 ≤ℤ p.max) × All (IsListed name p.table_index_map p.max) p.table_index_slice

All-snoc :
    {A : Type 0} (P : A → Type 0) (xs : List A) (x : A) → All P xs → P x → All P (xs ++ x ∷ [])
All-snoc P [] x h k = (k, tt)
All-snoc P (y ∷ xs) x h k = (h.0, All-snoc P xs x h.1 k)

IsListed-add :
    (name : Bytes) (m : List (ℤ × Bytes)) (max index i : ℤ)
    → IsListed name m max i
    → IsListed name (put_index index (numbered name index) m) (max_int max index) i
unfolding max_int
IsListed-add name m max index i h = elim (Bool-cases (index ==ℤ i)) [
  | inl e ↦
      let same : index ≡ i = (==ℤ_iff index i).0 e in
      (h.0, ground arith, rw same (get_index-put_same i (numbered name i) m))
  | inr e ↦ (h.0, ground arith, get_index-put_other i index (numbered name index) m e ∙ h.2)
]

pub add_table-Collected :
    (name db : Bytes) (index : ℤ) (p : Parse)
    → pos 0 ≤ℤ index
    → Collected name p
    → Collected name (add_table name db index p)
unfolding add_table max_int
add_table-Collected name db index p n h = (
  ground arith,
  All-snoc _ p.table_index_slice index
      (All-map {P = IsListed name p.table_index_map p.max} p.table_index_slice
        (λ i k. unfold max_int in IsListed-add name p.table_index_map p.max index i k) h.1)
      (n, ground arith, get_index-put_same index (numbered name index) p.table_index_map),
)

pub bind_ok :
    {A B : Type 0} (r : Result A) (f : A → Result B) (b : B)
    → (r >>= f) ≡ ok b
    → (a : A) × (r ≡ ok a) × (f a ≡ ok b)
bind_ok (ok a) f b e = (a, refl, e)
bind_ok (err x) f b e = cc
bind_ok panic f b e = cc
bind_ok stuck f b e = cc

-- A number that `Atoi` reads from digits.
abbrev pub IsNatural : ℤ → Type 0
IsNatural z = (n : ℕ) × (z ≡ pos n) × (n < 2 ^ 63)

result_of-good : (p : Parsed) (z : ℤ) → result_of p ≡ ok z → p ≡ good z
unfolding result_of
result_of-good (good y) z e = ap good (ok-injective e)
result_of-good syntax_error z e = cc
result_of-good (range_error y) z e = cc

in_range-IsNatural : (d : Digits) (z : ℤ) → in_range false d ≡ good z → IsNatural z
unfolding in_range
in_range-IsNatural bad z e = cc
in_range-IsNatural too_big z e = cc
in_range-IsNatural (value n) z e = elim (Bool-cases (leb (2 ^ 63) n)) [
  | inl h ↦ let e' = rw h at e in cc
  | inr h ↦ let e' = rw h at e in (n, cc, ground arith)
]

parse_int-digit :
    (c : ℕ) (cs : Bytes)
    → is_digit c ≡ true
    → parse_int (c ∷ cs) ≡ in_range false (parse_unsigned (c ∷ cs))
unfolding parse_int
parse_int-digit c cs h = ground arith

head_digit : (c : ℕ) (cs : Bytes) → all_digits (c ∷ cs) ≡ true → is_digit c ≡ true
unfolding all_digits
head_digit c cs h = ground arith

parse_int-empty : parse_int [] ≡ syntax_error
unfolding parse_int
parse_int-empty = refl

pub atoi-IsNatural : (s : Bytes) (z : ℤ) → all_digits s ≡ true → atoi s ≡ ok z → IsNatural z
unfolding atoi
atoi-IsNatural [] z h e =
    let g : parse_int [] ≡ good z = result_of-good (parse_int []) z e in
    let f : syntax_error ≡ good z = sym parse_int-empty ∙ g in cc
atoi-IsNatural (c ∷ cs) z h e =
    let g = result_of-good (parse_int (c ∷ cs)) z e in
    in_range-IsNatural (parse_unsigned (c ∷ cs)) z
      (sym (parse_int-digit c cs (head_digit c cs h)) ∙ g)

-- The loop over one database keeps what is collected.
add_tables-end :
    (name db : Bytes) (j end : ℤ) (p q : Parse) → add_tables 0 name db j end p ≡ ok q → p ≡ q
unfolding add_tables
add_tables-end name db j end p q e = elim (Bool-cases (leb_ℤ j end)) [
  | inl h ↦ let e' = rw h at e in cc
  | inr h ↦ let e' = rw h at e in ok-injective e'
]

add_tables-round :
    (fuel : ℕ) (name db : Bytes) (a b : ℕ) (p : Parse)
    → a ≤ b
    → add_tables (suc fuel) name db (pos a) (pos b) p
      ≡ add_tables fuel name db (add64 (pos a) (pos 1)) (pos b) (add_table name db (pos a) p)
unfolding add_tables
add_tables-round fuel name db a b p h = ground arith

pub add_tables-Collected :
    (fuel : ℕ) (name db : Bytes) (a b : ℕ) (p q : Parse)
    → a + fuel ≡ suc b
    → b < 2 ^ 63
    → add_tables fuel name db (pos a) (pos b) p ≡ ok q
    → Collected name p
    → Collected name q
add_tables-Collected zero name db a b p q h l e c =
    subst (λ r. Collected name r) (add_tables-end name db (pos a) (pos b) p q e) c
add_tables-Collected (suc zero) name db a b p q h l e c =
    let c' = add_table-Collected name db (pos a) p (omega arith) c in
    let e' = sym (add_tables-round 0 name db a b p (omega arith)) ∙ e in
    subst (λ r. Collected name r)
      (add_tables-end name db (add64 (pos a) (pos 1)) (pos b) (add_table name db (pos a) p) q e') c'
add_tables-Collected (suc (suc fuel)) name db a b p q h l e c =
    let c' = add_table-Collected name db (pos a) p (omega arith) c in
    let next : add64 (pos a) (pos 1) ≡ pos (suc a) = add64-one a (omega arith) in
    let e' =
      ap (λ j. add_tables (suc fuel) name db j (pos b) (add_table name db (pos a) p)) (sym next)
      ∙ sym (add_tables-round (suc fuel) name db a b p (omega arith))
      ∙ e in
    add_tables-Collected (suc fuel) name db (suc a) b (add_table name db (pos a) p) q (omega arith)
      l e' c'
