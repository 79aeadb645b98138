-- ===== src/Topo/Full.antt =====
-- Topologies with different indices, as `NumberMod` needs them.
use dbpack.Common.{
  ℕ, zero, suc, ◌^◌, ◌≤◌, ◌<◌, ◌≡◌, ◌⊎◌, inl, inr, refl, sym, ap, List, [], ◌∷◌, false, All,
  All-map, Bool-cases, length, arith,
}
use mathlib.Core.Path.{subst}
use dbpack.Common.Int.{ℤ, pos, ◌≤ℤ◌, ◌<ℤ◌, ◌==ℤ◌, ==ℤ_iff}
use dbpack.Value.{Bytes}
use dbpack.Cond.{ok, In}
use dbpack.Cond.NumberMod.{without}
use dbpack.Cond.NumberMod.Sound.{IsFull}
use dbpack.Topo.{get_index, numbered, Topology, routing, parse_topology}
use dbpack.Topo.Sound.{parse_topology-IsSound}

abbrev pub Distinct : List ℤ → Type 0
Distinct [] = Unit
Distinct (x ∷ xs) = ¬ (In x xs) × Distinct xs

abbrev Below : ℕ → ℤ → Type 0
Below n x = (pos 0 ≤ℤ x) × (x <ℤ pos n)

without-In : (v x : ℤ) (xs : List ℤ) → In x (without v xs) → In x xs
unfolding without
without-In v x [] h = h
without-In v x (y ∷ ys) h = elim (Bool-cases (y ==ℤ v)) [
  | inl e ↦ inr (without-In v x ys (rw e at h))
  | inr e ↦ elim (rw e at h) [ inl a ↦ inl a | inr b ↦ inr (without-In v x ys b) ]
]

without-Distinct : (v : ℤ) (xs : List ℤ) → Distinct xs → Distinct (without v xs)
unfolding without
without-Distinct v [] h = tt
without-Distinct v (y ∷ ys) h = elim (Bool-cases (y ==ℤ v)) [
  | inl e ↦ rw e (without-Distinct v ys h.1)
  | inr e ↦ rw e ((λ k. h.0 (without-In v y ys k)), without-Distinct v ys h.1)
]

without-same : (v : ℤ) (xs : List ℤ) → ¬ (In v xs) → length (without v xs) ≡ length xs
unfolding without
without-same v [] h = refl
without-same v (y ∷ ys) h = elim (Bool-cases (y ==ℤ v)) [
  | inl e ↦ absurd (h (inl (sym ((==ℤ_iff y v).0 e))))
  | inr e ↦ rw e (ap suc (without-same v ys (λ k. h (inr k))))
]

-- At most one of different numbers is taken away.
length-without : (v : ℤ) (xs : List ℤ) → Distinct xs → length xs ≤ suc (length (without v xs))
unfolding without
length-without v [] h = omega arith
length-without v (y ∷ ys) h = elim (Bool-cases (y ==ℤ v)) [
  | inl e ↦
      let absent : ¬ (In v ys) = subst (λ x. ¬ (In x ys)) ((==ℤ_iff y v).0 e) h.0 in
      rw e (omega (arith, without-same v ys absent))
  | inr e ↦ rw e (omega (arith, length-without v ys h.1))
]

without-Below : (n : ℕ) (xs : List ℤ) → All (Below (suc n)) xs → All (Below n) (without (pos n) xs)
unfolding without
without-Below n [] h = tt
without-Below n (y ∷ ys) h = elim (Bool-cases (y ==ℤ pos n)) [
  | inl e ↦ rw e (without-Below n ys h.1)
  | inr e ↦ rw e ((h.0.0, ground arith), without-Below n ys h.1)
]

-- There are at most `n` different numbers below `n`.
few : (n : ℕ) (xs : List ℤ) → All (Below n) xs → Distinct xs → length xs ≤ n
few zero [] h d = omega arith
few zero (x ∷ xs) h d = absurd (omega arith)
few (suc n) xs h d = omega (
  arith,
  length-without (pos n) xs d,
  few n (without (pos n) xs) (without-Below n xs h) (without-Distinct (pos n) xs d),
)

In-or : (x : ℤ) (xs : List ℤ) → In x xs ⊎ ¬ (In x xs)
In-or x [] = inr (λ h. h)
In-or x (y ∷ ys) = elim (Bool-cases (x ==ℤ y)) [
  | inl e ↦ inl (inl ((==ℤ_iff x y).0 e))
  | inr e ↦ elim (In-or x ys) [
    | inl h ↦ inl (inr h)
    | inr h ↦ inr (elim [ inl a ↦ apart x y e a | inr b ↦ h b ])
  ]
]
  where
    apart : (x y : ℤ) → (x ==ℤ y) ≡ false → ¬ (x ≡ y)
    apart x y e a = let t = (==ℤ_iff x y).1 a in cc

-- `n` different numbers below `n` are all numbers below `n`.
every_number :
    (n : ℕ) (xs : List ℤ)
    → All (Below n) xs
    → Distinct xs
    → n ≡ length xs
    → (j : ℕ) → j < n
    → In (pos j) xs
every_number n xs h d e j l = elim (In-or (pos j) xs) [
  | inl k ↦ k
  | inr k ↦ absurd (omega (arith, few n (pos j ∷ xs) ((omega arith, omega arith), h) (k, d)))
]

-- A topology that `ParseTopology` returns, for fewer than 2^63 tables with different indices, has
-- at least one table and every index from 0 to the number of tables, exclusive.
pub parse_topology-IsFull :
    (db_name name : Bytes) (topology : List (ℤ × Bytes)) (t : Topology)
    → parse_topology db_name name topology ≡ ok t
    → length t.table_slice < 2 ^ 63
    → Distinct t.table_slice
    → IsFull (routing t)
parse_topology-IsFull db_name name topology t e l d =
    let (positive, n, listed) = parse_topology-IsSound db_name name topology t e l in
    let below : All (Below t.table_slice_len) t.table_slice =
      All-map
        {P = λ i.
          (pos 0 ≤ℤ i)
          × (i <ℤ pos t.table_slice_len)
          × (get_index i t.table_index_map ≡ numbered name i)}
        t.table_slice (λ i k. (k.0, k.1)) listed in
    record {
      some_table = positive;
      few_tables = omega (arith, n);
      each_index = every_number t.table_slice_len t.table_slice below d n;
    }
