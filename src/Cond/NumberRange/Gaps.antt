-- ===== src/Cond/NumberRange/Gaps.antt =====
-- `calculateRange` of `NumberRange` at the ends of the ranges.
use dbpack.Common.{◌≡◌, refl, [], ◌∷◌, All, arith}
use dbpack.Common.Int.{ℤ, pos, negsuc, ◌≤ℤ◌, ◌<ℤ◌, sub64}
use dbpack.Cond.{ok, nothing, tables}
use dbpack.Cond.NumberRange.{Range, Ranges, calculate, indices, between, calculate_range}
use dbpack.Cond.NumberRange.Between.{IsIndex, calculate-met}
use dbpack.Cond.NumberMod.Loops.{add64-one}

calculate-none : (rs : Ranges) (z : ℤ) → All (λ e. e.1.to <ℤ z) rs → calculate rs z ≡ negsuc 0
unfolding calculate
calculate-none [] z h = refl
calculate-none ((k, r) ∷ rs) z h = ground (arith, h.0, calculate-none rs z h.1)

calculate-least : (rs : Ranges) (y : ℤ) → All (λ e. pos 0 ≤ℤ e.0) rs → negsuc 0 ≤ℤ calculate rs y
unfolding calculate
calculate-least [] y n = omega arith
calculate-least ((k, r) ∷ rs) y n = ground (arith, n.0, calculate-least rs y n.1)

between-none : (start : ℤ) → negsuc 0 ≤ℤ start → between start (negsuc 0) ≡ ok nothing
unfolding between
between-none start h = ground arith

between-one : (i : ℤ) → IsIndex i → between i i ≡ ok (tables (i ∷ []))
unfolding between indices
between-one (negsuc m) h = absurd (omega arith)
between-one (pos m) h =
    let next = add64-one m h.1 in
    let gap : sub64 (pos m) (pos m) ≡ pos 0 = unfold sub64 in ground arith in
    rw (gap, next) (ground arith)

-- `calculateRange` returns `FalseCondition` for every lower bound, if every range ends below the
-- upper bound and no index is negative.
pub calculate_range-beyond :
    (rs : Ranges) (y z : ℤ)
    → All (λ e. pos 0 ≤ℤ e.0) rs
    → All (λ e. e.1.to <ℤ z) rs
    → calculate_range rs y z ≡ ok nothing
unfolding calculate_range
calculate_range-beyond rs y z n h =
    rw (calculate-none rs z h) (between-none (calculate rs y) (calculate-least rs y n))

-- `calculateRange` returns the first index alone, from 0 to 2^63 - 2, if the first range that its
-- loops meet holds the lower bound and ends at the upper bound.
pub calculate_range-end :
    (rs : Ranges) (r : Range) (i y : ℤ)
    → IsIndex i
    → r.from ≤ℤ y
    → y ≤ℤ r.to
    → calculate_range ((i, r) ∷ rs) y r.to ≡ ok (tables (i ∷ []))
unfolding calculate_range
calculate_range-end rs r i y n h l =
    rw (calculate-met i r rs y (ground arith), calculate-met i r rs r.to (ground arith))
      (between-one i n)
