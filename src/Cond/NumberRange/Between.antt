-- ===== src/Cond/NumberRange/Between.antt =====
-- `ShardRange` of `NumberRange` between two bounds.
use dbpack.Common.{
  ℕ, zero, suc, ◌+◌, ◌^◌, ◌≤◌, ◌<◌, ◌≡◌, inl, inr, sym, ap, List, [], ◌∷◌, true, false, ◌&&◌, All,
  Bool-cases, arith,
}
use mathlib.Core.Path.{subst}
use native.Mathlib.Decide.{dec_lt}
use dbpack.Common.Int.{
  ℤ, pos, negsuc, pos_part, ◌≤ℤ◌, ◌<ℤ◌, ltb_ℤ, leb_ℤ, IsInt64, add64, sub64, sub64_parts,
}
use dbpack.Value.{Kind, integer}
use dbpack.Cond.{ok, Op, eq, ne, lt, le, gt, ge, like, KeyCondition, In, equal_fold}
use dbpack.Cond.Sound.{Leads, IsLower, IsUpper}
use dbpack.Cond.NumberMod.{status_of}
use dbpack.Cond.NumberMod.Loops.{add64-one}
use dbpack.Cond.NumberMod.Sound.{number_of-int64}
use dbpack.Cond.NumberRange.{
  Range, Ranges, NumberRange, calculate, indices, between, calculate_range, range_by,
  range_shard_range,
}
use dbpack.Cond.NumberRange.Sound.{Entry, Within, Touches}

pub calculate-met :
    (j : ℤ) (r : Range) (rs : Ranges) (v : ℤ)
    → (leb_ℤ r.from v && leb_ℤ v r.to) ≡ true
    → calculate ((j, r) ∷ rs) v ≡ j
unfolding calculate
calculate-met j r rs v e = rw e

calculate-passed :
    (j : ℤ) (r : Range) (rs : Ranges) (v : ℤ)
    → (leb_ℤ r.from v && leb_ℤ v r.to) ≡ false
    → calculate ((j, r) ∷ rs) v ≡ calculate rs v
unfolding calculate
calculate-passed j r rs v e = rw e

-- `calculate` finds a range if there is one.
pub calculate-Entry :
    (rs : Ranges) (v k : ℤ) → Entry (Touches v) k rs → Entry (Touches v) (calculate rs v) rs
calculate-Entry [] v k h = elim h [ ]
calculate-Entry ((j, r) ∷ rs) v k h = elim (Bool-cases (leb_ℤ r.from v && leb_ℤ v r.to)) [
  | inl e ↦ inl (calculate-met j r rs v e, ground arith)
  | inr e ↦
      subst (λ w. Entry (Touches v) w ((j, r) ∷ rs)) (sym (calculate-passed j r rs v e))
        (elim h [ inl t ↦ absurd (ground arith) | inr t ↦ inr (calculate-Entry rs v k t) ])
]

-- Indices are not negative, and below the greatest int.
abbrev pub IsIndex : ℤ → Type 0
IsIndex i = (pos 0 ≤ℤ i) × (suc (pos_part i) < 2 ^ 63)

-- A range with a smaller index ends before the other one starts.
abbrev pub Ordered : Ranges → Type 0
Ordered rs = All (λ e. All (λ d. e.0 <ℤ d.0 → e.1.to ≤ℤ d.1.from) rs) rs

pub Entry-All :
    (P : Range → Type 0) (Q : ℤ × Range → Type 0) (i : ℤ) (rs : Ranges)
    → Entry P i rs
    → All Q rs
    → (r : Range) × P r × Q (i, r)
Entry-All P Q i [] h q = elim h [ ]
Entry-All P Q i ((k, r) ∷ rs) (inl h) q = (r, h.1, subst (λ j. Q (j, r)) (sym h.0) q.0)
Entry-All P Q i ((k, r) ∷ rs) (inr h) q = Entry-All P Q i rs h q.1

-- Two entries of ordered ranges.
entries_Ordered :
    (P Q : Range → Type 0) (i j : ℤ) (rs : Ranges)
    → Ordered rs
    → Entry P i rs
    → Entry Q j rs
    → (r : Range) × (q : Range) × P r × Q q × (i <ℤ j → r.to ≤ℤ q.from)
entries_Ordered P Q i j rs o h k =
    let (r, p, all) = Entry-All P (λ e. All (λ d. e.0 <ℤ d.0 → e.1.to ≤ℤ d.1.from) rs) i rs h o in
    let (q, p', f) = Entry-All Q (λ d. i <ℤ d.0 → r.to ≤ℤ d.1.from) j rs k all in (r, q, p, p', f)

indices-In :
    (fuel a b m : ℕ)
    → suc b < 2 ^ 63
    → b < a + fuel
    → (is : List ℤ) × (indices fuel (pos a) (pos b) ≡ ok is) × (a ≤ m → m ≤ b → In (pos m) is)
unfolding indices
indices-In zero a b m l h = ([], ground arith, λ p q. absurd (omega arith))
indices-In (suc fuel) a b m l h = elim (Bool-cases (leb_ℤ (pos a) (pos b))) [
  | inl e ↦
      let next : add64 (pos a) (pos 1) ≡ pos (suc a) = add64-one a (ground arith) in
      let (is, e', f) = indices-In fuel (suc a) b m l (omega arith) in
      (pos a ∷ is, rw (e, next, e'), λ p q. first is f p q)
  | inr e ↦ ([], rw e, λ p q. absurd (ground arith))
]
  where
    first :
        (is : List ℤ)
        → (suc a ≤ m → m ≤ b → In (pos m) is)
        → a ≤ m
        → m ≤ b
        → In (pos m) (pos a ∷ is)
    first is f p q = elim (dec_lt a m) [ yes x ↦ inr (f x q) | no x ↦ inl (ap pos (omega arith)) ]

between-Leads :
    (start stop i : ℤ)
    → IsIndex start
    → IsIndex stop
    → start ≤ℤ i
    → i ≤ℤ stop
    → Leads (between start stop) i
unfolding between
between-Leads (negsuc a) stop i h k l u = absurd (omega arith)
between-Leads (pos a) (negsuc b) i h k l u = absurd (omega arith)
between-Leads (pos a) (pos b) (negsuc m) h k l u = absurd (omega arith)
between-Leads (pos a) (pos b) (pos m) h k l u =
    let gap = sub64_parts (pos b) (pos a) (omega arith) (omega arith) in
    let (is, e, f) =
      indices-In (suc (pos_part (sub64 (pos b) (pos a)))) a b m k.1 (omega (arith, gap)) in
    rw e (ground (arith, f (omega arith) (omega arith)))

-- The first index of `calculateRange` is not above that of a row behind the lower bound, and the
-- second one is not below that of a row before the upper bound.
calculate-below :
    (rs : Ranges) (y v k i : ℤ)
    → Ordered rs
    → Entry (Touches y) k rs
    → Entry (Within v) i rs
    → y ≤ℤ v
    → calculate rs y ≤ℤ i
calculate-below rs y v k i o h w l =
    let (r, q, a, b, f) =
      entries_Ordered (Within v) (Touches y) i (calculate rs y) rs o w (calculate-Entry rs y k h) in
    elim (Bool-cases (ltb_ℤ i (calculate rs y))) [
      | inl e ↦ absurd (ground (arith, f))
      | inr e ↦ ground arith
    ]

calculate-above :
    (rs : Ranges) (z v k i : ℤ)
    → Ordered rs
    → Entry (Touches z) k rs
    → Entry (Within v) i rs
    → v <ℤ z
    → i ≤ℤ calculate rs z
calculate-above rs z v k i o h w l =
    let (r, q, a, b, f) =
      entries_Ordered (Touches z) (Within v) (calculate rs z) i rs o (calculate-Entry rs z k h) w in
    elim (Bool-cases (ltb_ℤ (calculate rs z) i)) [
      | inl e ↦ absurd (ground (arith, f))
      | inr e ↦ ground arith
    ]

calculate-IsIndex :
    (rs : Ranges) (v k : ℤ)
    → All (λ e. IsIndex e.0) rs
    → Entry (Touches v) k rs
    → IsIndex (calculate rs v)
calculate-IsIndex rs v k n h =
    let (r, p, q) =
      Entry-All (Touches v) (λ e. IsIndex e.0) (calculate rs v) rs (calculate-Entry rs v k h) n in
    q

calculate_range-Leads :
    (rs : Ranges) (y z v j k i : ℤ)
    → All (λ e. IsIndex e.0) rs
    → Ordered rs
    → Entry (Touches y) j rs
    → Entry (Touches z) k rs
    → Entry (Within v) i rs
    → y ≤ℤ v
    → v <ℤ z
    → Leads (calculate_range rs y z) i
unfolding calculate_range
calculate_range-Leads rs y z v j k i n o h h' w l u =
    between-Leads (calculate rs y) (calculate rs z) i (calculate-IsIndex rs y j n h)
      (calculate-IsIndex rs z k n h') (calculate-below rs y v j i o h w l)
      (calculate-above rs z v k i o h' w u)

range_by-Leads :
    (rs : Ranges) (op op' : Op) (y z i : ℤ)
    → IsLower op
    → IsUpper op'
    → Leads (calculate_range rs y z) i
    → Leads (range_by rs (status_of op op') y z) i
unfolding status_of range_by
range_by-Leads rs gt lt y z i l u h = h
range_by-Leads rs gt le y z i l u h = h
range_by-Leads rs ge lt y z i l u h = h
range_by-Leads rs ge le y z i l u h = h
range_by-Leads rs eq op' y z i l u h = elim l [ ]
range_by-Leads rs ne op' y z i l u h = elim l [ ]
range_by-Leads rs lt op' y z i l u h = elim l [ ]
range_by-Leads rs le op' y z i l u h = elim l [ ]
range_by-Leads rs like op' y z i l u h = elim l [ ]
range_by-Leads rs gt eq y z i l u h = elim u [ ]
range_by-Leads rs gt ne y z i l u h = elim u [ ]
range_by-Leads rs gt gt y z i l u h = elim u [ ]
range_by-Leads rs gt ge y z i l u h = elim u [ ]
range_by-Leads rs gt like y z i l u h = elim u [ ]
range_by-Leads rs ge eq y z i l u h = elim u [ ]
range_by-Leads rs ge ne y z i l u h = elim u [ ]
range_by-Leads rs ge gt y z i l u h = elim u [ ]
range_by-Leads rs ge ge y z i l u h = elim u [ ]
range_by-Leads rs ge like y z i l u h = elim u [ ]

-- `ShardRange` of `NumberRange` for a lower bound `y` (> or >=) and an upper bound `z` (< or <=),
-- both int64, leads to every index whose range holds a value `v` with `y <= v < z`, if the
-- indices are from 0 to 2^63 - 2, a range with a smaller index ends before one with a larger
-- index starts, and `y` and `z` each lie in some range, its end included.
pub range_shard_range-Leads :
    {t u : Kind} (s : NumberRange) (c d : KeyCondition) (y z v j k i : ℤ)
    → c.value ≡ integer t y
    → d.value ≡ integer u z
    → IsInt64 y
    → IsInt64 z
    → IsLower c.op
    → IsUpper d.op
    → All (λ e. IsIndex e.0) s.ranges
    → Ordered s.ranges
    → Entry (Touches y) j s.ranges
    → Entry (Touches z) k s.ranges
    → Entry (Within v) i s.ranges
    → y ≤ℤ v
    → v <ℤ z
    → Leads (range_shard_range s c d) i
unfolding range_shard_range
range_shard_range-Leads s c d y z v j k i e e' m m' lo up n o h h' w l u =
    elim (Bool-cases (equal_fold s.sharding_key c.key)) [
      | inl b ↦
          rw (b, number_of-int64 c y e m, number_of-int64 d z e' m')
            (range_by-Leads s.ranges c.op d.op y z i lo up
              (calculate_range-Leads s.ranges y z v j k i n o h h' w l u))
      | inr b ↦ rw b tt
    ]
