-- ===== src/Cond/Slice.antt =====
-- `TableIndexSliceCondition` of pkg/cond/shard.go: intersection and union of table indices.
use dbpack.Common.{
  ℕ, suc, ◌<◌, ◌≡◌, ◌↔◌, ◌⊎◌, inl, inr, refl, List, [], ◌∷◌, ◌++◌, Bool, true, false, ltb, ◌==◌,
  if◌then◌else◌, arith, Bool-cases, lt→ltb, ltb→lt, ==_iff,
}
use native.Mathlib.Decide.{dec_lt}
use dbpack.Common.Int.{ℤ, ◌==ℤ◌, ==ℤ_iff}
use dbpack.Cond.{Result, ok, panic, Route, all, nothing, missing, tables, In}

-- How often `m[v]++` has run for the key `v`.
pub times : ℤ → List ℤ → ℕ
times v [] = 0
times v (x ∷ xs) = let n = times v xs in if v ==ℤ x then suc n else n

-- The second loop of `And`: the entries of `c` that the map has.
pub intersect : List ℤ → List ℤ → List ℤ
unfolding times
intersect cond [] = []
intersect cond (v ∷ c) =
    let rest = intersect cond c in if ltb 0 (times v cond) then v ∷ rest else rest

-- The second loop of `Or`: the entries of `c` that the map does not have.
pub others : List ℤ → List ℤ → List ℤ
unfolding times
others cond [] = []
others cond (v ∷ c) = let rest = others cond c in if times v cond == 0 then v ∷ rest else rest

pub unite : List ℤ → List ℤ → List ℤ
unfolding others
unite cond c = cond ++ others cond c

-- `c.And(d)` and `c.Or(d)` on what an algorithm returns; the method of a nil interface panics.
unfoldable pub route_and : Route → Route → Result Route
unfolding intersect
route_and all d = ok d
route_and nothing d = ok nothing
route_and missing d = panic
route_and (tables xs) all = ok (tables xs)
route_and (tables xs) nothing = ok nothing
route_and (tables xs) missing = ok missing
route_and (tables xs) (tables ys) = ok (tables (intersect xs ys))

unfoldable pub route_or : Route → Route → Result Route
unfolding unite
route_or all d = ok all
route_or nothing d = ok d
route_or missing d = panic
route_or (tables xs) all = ok all
route_or (tables xs) nothing = ok (tables xs)
route_or (tables xs) missing = ok missing
route_or (tables xs) (tables ys) = ok (tables (unite xs ys))

times-pos : (v : ℤ) (xs : List ℤ) → In v xs → 0 < times v xs
unfolding times
times-pos v [] h = elim h [ ]
times-pos v (x ∷ xs) (inl e) = rw ((==ℤ_iff v x).1 e) (omega arith)
times-pos v (x ∷ xs) (inr h) = ground (arith, times-pos v xs h)

In-times : (v : ℤ) (xs : List ℤ) → 0 < times v xs → In v xs
unfolding times
In-times v [] h = absurd (omega arith)
In-times v (x ∷ xs) h = elim (Bool-cases (v ==ℤ x)) [
  | inl e ↦ inl ((==ℤ_iff v x).0 e)
  | inr e ↦ inr (In-times v xs (rw e at h))
]

-- Membership in a list that may have one more element in front.
In-if :
    (b : Bool) (v y : ℤ) (rest : List ℤ)
    → In v (if b then y ∷ rest else rest)
    → ((b ≡ true) × (v ≡ y)) ⊎ In v rest
In-if true v y rest (inl e) = inl (refl, e)
In-if true v y rest (inr h) = inr h
In-if false v y rest h = inr h

If-In_rest : (b : Bool) (v y : ℤ) (rest : List ℤ) → In v rest → In v (if b then y ∷ rest else rest)
If-In_rest true v y rest h = inr h
If-In_rest false v y rest h = h

If-In_head :
    (b : Bool) (v y : ℤ) (rest : List ℤ) → b ≡ true → v ≡ y → In v (if b then y ∷ rest else rest)
If-In_head true v y rest h e = inl e
If-In_head false v y rest h e = cc

intersect-intro : (v : ℤ) (xs ys : List ℤ) → In v xs → In v ys → In v (intersect xs ys)
unfolding intersect
intersect-intro v xs [] h k = elim k [ ]
intersect-intro v xs (y ∷ ys) h (inl e) =
    If-In_head (ltb 0 (times y xs)) v y (intersect xs ys)
      (rw (← e) (lt→ltb 0 (times v xs) (times-pos v xs h))) e
intersect-intro v xs (y ∷ ys) h (inr k) = If-In_rest _ v y _ (intersect-intro v xs ys h k)

intersect-elim : (v : ℤ) (xs ys : List ℤ) → In v (intersect xs ys) → In v xs × In v ys
unfolding intersect
intersect-elim v xs [] h = elim h [ ]
intersect-elim v xs (y ∷ ys) h = elim (In-if (ltb 0 (times y xs)) v y (intersect xs ys) h) [
  | inl (b, e) ↦ (rw e (In-times y xs (ltb→lt 0 (times y xs) b)), inl e)
  | inr k ↦ let (a, b) = intersect-elim v xs ys k in (a, inr b)
]

-- The slice that `And` of two slices of indices makes holds exactly the indices that both hold.
pub In-intersect : (v : ℤ) (xs ys : List ℤ) → In v (intersect xs ys) ↔ (In v xs × In v ys)
In-intersect v xs ys = (intersect-elim v xs ys, λ h. intersect-intro v xs ys h.0 h.1)

pub In-append : (v : ℤ) (xs ys : List ℤ) → In v (xs ++ ys) ↔ (In v xs ⊎ In v ys)
In-append v [] ys = (inr, elim [ inl h ↦ elim h [ ] | inr h ↦ h ])
In-append v (x ∷ xs) ys =
    let ih = In-append v xs ys in
    (
      elim [ inl e ↦ inl (inl e) | inr h ↦ elim (ih.0 h) [ inl a ↦ inl (inr a) | inr b ↦ inr b ] ],
      elim [ inl (inl e) ↦ inl e | inl (inr h) ↦ inr (ih.1 (inl h)) | inr h ↦ inr (ih.1 (inr h)) ],
    )

others-intro : (v : ℤ) (xs ys : List ℤ) → times v xs ≡ 0 → In v ys → In v (others xs ys)
unfolding others
others-intro v xs [] h k = elim k [ ]
others-intro v xs (y ∷ ys) h (inl e) =
    If-In_head (times y xs == 0) v y (others xs ys) (rw (← e) ((==_iff (times v xs) 0).1 h)) e
others-intro v xs (y ∷ ys) h (inr k) = If-In_rest _ v y _ (others-intro v xs ys h k)

others-elim : (v : ℤ) (xs ys : List ℤ) → In v (others xs ys) → In v ys
unfolding others
others-elim v xs [] h = elim h [ ]
others-elim v xs (y ∷ ys) h = elim (In-if (times y xs == 0) v y (others xs ys) h) [
  | inl (b, e) ↦ inl e
  | inr k ↦ inr (others-elim v xs ys k)
]

-- The slice that `Or` of two slices of indices makes holds exactly the indices that at least one
-- of them holds.
pub In-unite : (v : ℤ) (xs ys : List ℤ) → In v (unite xs ys) ↔ (In v xs ⊎ In v ys)
unfolding unite
In-unite v xs ys = (
  λ h. elim ((In-append v xs _).0 h) [ inl a ↦ inl a | inr b ↦ inr (others-elim v xs ys b) ],
  elim [
    | inl a ↦ (In-append v xs _).1 (inl a)
    | inr b ↦ elim (dec_lt 0 (times v xs)) [
      | yes p ↦ (In-append v xs _).1 (inl (In-times v xs p))
      | no p ↦ (In-append v xs _).1 (inr (others-intro v xs ys (omega arith) b))
    ]
  ],
)
