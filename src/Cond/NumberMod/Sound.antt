-- ===== src/Cond/NumberMod/Sound.antt =====
-- The branches of `NumberMod`, for rows and values that are not negative.
use dbpack.Common.{ℕ, suc, ◌+◌, ◌-◌, ◌%◌, ◌^◌, ◌≤◌, ◌<◌, ◌≡◌, inl, ◌∙◌, ap, ◌==◌, arith}
use dbpack.Common.Int.{
  ℤ, pos, negsuc, IsInt64, pos_part, neg_part, ltb_ℤ, leb_ℤ, leb_ℤ-false, add64, sub64, rem64,
  add64_parts, sub64_parts,
}
use dbpack.Value.{Kind, integer, good, parse_int, format}
use dbpack.Value.Decimal.{parse_int-format_int}
use dbpack.Cond.{
  Result, ok, Op, eq, ne, lt, le, gt, ge, like, KeyCondition, Route, Topology, In, Holds, IsOrder,
}
use dbpack.Cond.Sound.{Returns, Leads, Leads-if, IsLower, IsUpper}
use dbpack.Cond.NumberMod.{
  countdown, number_of, shard_op, range_status, status_of, status1, status2, status3, status4,
}
use dbpack.Cond.NumberMod.Loops.{countdown-In, add64-one, guarded-Leads}

-- A row with the value `v` stands in the table `v % n`.
abbrev pub ModHome : ℕ → ℤ → ℤ → Type 0
ModHome n (pos m) i = i ≡ pos (m % n)
ModHome n (negsuc m) i = ⊥

abbrev pub ModFits : ℤ → Type 0
ModFits (pos m) = suc m < 2 ^ 63
ModFits (negsuc m) = ⊥

-- A topology of at least one table, with the indices 0, 1, ... up to their number.
pub record IsFull (t : Topology) : Type 0 where
  pub some_table : 0 < t.table_slice_len
  pub few_tables : t.table_slice_len < 2 ^ 63
  pub each_index : (j : ℕ) → j < t.table_slice_len → In (pos j) t.table_slice

pub number_of-int64 :
    {t : Kind} (c : KeyCondition) (z : ℤ) → c.value ≡ integer t z → IsInt64 z → number_of c ≡ ok z
unfolding number_of
number_of-int64 c z e h =
    let p : parse_int (format c.value) ≡ good z =
      ap (λ v. parse_int (format v)) e ∙ unfold format in parse_int-format_int z h in
    rw (p, number_of)

pub number_of-integer :
    {t : Kind} (c : KeyCondition) (m : ℕ)
    → c.value ≡ integer t (pos m)
    → suc m < 2 ^ 63
    → number_of c ≡ ok (pos m)
number_of-integer c m e h = number_of-int64 c (pos m) e (omega arith)

-- `Shard` on a number that is not negative: it returns, and for an order it leads to the table of
-- every row that the condition selects.
module _ (t : Topology) (f : IsFull t) (k : ℕ) (h : suc k < 2 ^ 63) where
  pub shard_op-Returns : (op : Op) → Returns (shard_op t op (pos k))
  unfolding shard_op
  shard_op-Returns eq = ground (arith, f.some_table)
  shard_op-Returns ne = ground (arith, f.some_table)
  shard_op-Returns lt = ground arith
  shard_op-Returns le = ground arith
  shard_op-Returns gt = tt
  shard_op-Returns ge = tt
  shard_op-Returns like = tt

  below-countdown :
      (m : ℕ)
      → m < k
      → k < t.table_slice_len
      → In (pos (m % t.table_slice_len)) (countdown (sub64 (pos k) (pos 1)))
  below-countdown m l b =
      let e : sub64 (pos k) (pos 1) ≡ pos (k - 1) = unfold sub64 in ground arith in
      rw e (countdown-In (m % t.table_slice_len) (k - 1) (grind arith))

  pub shard_op-Leads :
      (op : Op) (m : ℕ)
      → IsOrder op
      → Holds op (pos k) (pos m)
      → Leads (shard_op t op (pos k)) (pos (m % t.table_slice_len))
  unfolding shard_op
  shard_op-Leads eq m o e =
      Leads-if (t.table_slice_len == 0) _ _ _ (λ z. absurd (ground (arith, f.some_table)))
        (λ _. unfold rem64 in inl (ap (λ z. rem64 z t.table_slice_len) e))
  shard_op-Leads ne m o e = elim o [ ]
  shard_op-Leads lt m o e =
      Leads-if (ltb_ℤ (pos k) (pos t.table_slice_len)) _ _ _
        (λ b. below-countdown m (omega arith) (ground arith)) (λ _. tt)
  shard_op-Leads le m o e =
      Leads-if (ltb_ℤ (pos k) (sub64 (pos t.table_slice_len) (pos 1))) _ _ _
        (λ b.
          let n : suc k < t.table_slice_len =
            ground
              (arith, sub64_parts (pos t.table_slice_len) (pos 1), f.few_tables, f.some_table) in
          countdown-In (m % t.table_slice_len) k (grind arith))
        (λ _. tt)
  shard_op-Leads gt m o e = tt
  shard_op-Leads ge m o e = tt
  shard_op-Leads like m o e = elim o [ ]

-- `ShardRange` between two numbers that are not negative.
module _ (n a b : ℕ) (few : n < 2 ^ 63) (ha : suc a < 2 ^ 63) (hb : suc b < 2 ^ 63) where
  one_more : add64 (pos a) (pos 1) ≡ pos (suc a)
  one_more = add64-one a ha

  -- `val2 - val1`
  gap : ℤ
  gap = sub64 (pos b) (pos a)

  gap_parts : pos_part gap + a ≡ neg_part gap + b
  unfolding gap
  gap_parts = let e = sub64_parts (pos b) (pos a) (omega arith) (omega arith) in omega (arith, e)

  gap_sub : pos_part (sub64 gap (pos 1)) + a + 1 ≡ neg_part (sub64 gap (pos 1)) + b
  gap_sub =
      let e = sub64_parts gap (pos 1) (omega (arith, gap_parts)) (omega (arith, gap_parts)) in
      omega (arith, e, gap_parts)

  gap_add : pos_part (add64 gap (pos 1)) + a ≡ neg_part (add64 gap (pos 1)) + b + 1
  gap_add =
      let e = add64_parts gap (pos 1) (omega (arith, gap_parts)) (omega (arith, gap_parts)) in
      omega (arith, e, gap_parts)

  -- A route of `range_status` that returns and leads to the residue of each number between the bounds.
  abbrev Serves : Result Route → ℕ → ℕ → Type 0
  Serves r lo hi = Returns r × ((m : ℕ) → lo ≤ m → m < hi → Leads r (pos (m % n)))

  range_status1 : Serves (range_status n status1 (pos a) (pos b)) (suc a) b
  unfolding range_status gap
  range_status1 = rw one_more (
      guarded-Leads (λ i. ltb_ℤ i (pos b)) b n (λ k. ground arith) (omega arith)
        (leb_ℤ (pos n) (sub64 gap (pos 1))) (suc a)
        (λ g. omega (arith, gap_sub, leb_ℤ-false (pos n) (sub64 gap (pos 1)) g)))

  range_status2 : Serves (range_status n status2 (pos a) (pos b)) (suc a) (suc b)
  unfolding range_status gap
  range_status2 = rw one_more (
      guarded-Leads (λ i. leb_ℤ i (pos b)) (suc b) n (λ k. ground arith) hb (leb_ℤ (pos n) gap)
        (suc a) (λ g. omega (arith, gap_parts, leb_ℤ-false (pos n) gap g)))

  range_status3 : Serves (range_status n status3 (pos a) (pos b)) a b
  unfolding range_status gap
  range_status3 =
      guarded-Leads (λ i. ltb_ℤ i (pos b)) b n (λ k. ground arith) (omega arith) (leb_ℤ (pos n) gap)
        a (λ g. omega (arith, gap_parts, leb_ℤ-false (pos n) gap g))

  range_status4 : Serves (range_status n status4 (pos a) (pos b)) a (suc b)
  unfolding range_status gap
  range_status4 =
      guarded-Leads (λ i. leb_ℤ i (pos b)) (suc b) n (λ k. ground arith) hb
        (leb_ℤ (pos n) (add64 gap (pos 1))) a
        (λ g. omega (arith, gap_add, leb_ℤ-false (pos n) (add64 gap (pos 1)) g))

  -- Each pair of a lower and an upper bound.
  pub range_serves :
      (op op' : Op)
      → IsLower op
      → IsUpper op'
      → Returns (range_status n (status_of op op') (pos a) (pos b))
        × ((m : ℕ)
            → Holds op (pos a) (pos m)
            → Holds op' (pos b) (pos m)
            → Leads (range_status n (status_of op op') (pos a) (pos b)) (pos (m % n)))
  unfolding status_of
  range_serves gt lt l u =
      let (r, k) = range_status1 in (r, λ m p q. k m (omega arith) (omega arith))
  range_serves gt le l u =
      let (r, k) = range_status2 in (r, λ m p q. k m (omega arith) (omega arith))
  range_serves ge lt l u =
      let (r, k) = range_status3 in (r, λ m p q. k m (omega arith) (omega arith))
  range_serves ge le l u =
      let (r, k) = range_status4 in (r, λ m p q. k m (omega arith) (omega arith))
  range_serves eq op' l u = elim l [ ]
  range_serves ne op' l u = elim l [ ]
  range_serves lt op' l u = elim l [ ]
  range_serves le op' l u = elim l [ ]
  range_serves like op' l u = elim l [ ]
  range_serves gt op' l u = elim u [ ]
  range_serves ge op' l u = elim u [ ]
