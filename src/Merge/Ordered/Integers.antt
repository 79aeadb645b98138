-- ===== src/Merge/Ordered/Integers.antt =====
-- ORDER BY over columns of integers is an order.
use dbpack.Common.{
  ℕ, zero, suc, ◌≡◌, refl, sym, ◌∙◌, List, [], ◌∷◌, none, some, Bool, true, false, if◌then◌else◌,
  arith,
}
use dbpack.Common.Int.{ℤ, pos, ltb_ℤ, ◌==ℤ◌}
use dbpack.Cond.{ok, ◌>>=◌, ok-injective}
use dbpack.Merge.Ordered.{
  int, Row, three_way, compare, OrderField, FieldValue, Values, value_or_panic, values_in,
  field_values, less_cells,
}
use dbpack.Merge.Ordered.Sorting.{IsOrdered}

-- The integer in a column, and 0 for anything else.
abbrev int_at : Values → ℕ → ℤ
int_at [] i = pos 0
int_at (some (int z) ∷ ds) zero = z
int_at (_ ∷ ds) zero = pos 0
int_at (d ∷ ds) (suc i) = int_at ds i

abbrev int_in : Row → ℕ → ℤ
int_in none i = pos 0
int_in (some values) i = int_at values i

abbrev step : ℤ → ℤ → Bool → Bool
step a b rest = if ltb_ℤ a b then true else if ltb_ℤ b a then false else rest

-- The order of rows, by the first field in which they differ.
abbrev pub precedes : List OrderField → Row → Row → Bool
precedes [] r q = false
precedes (f ∷ fs) r q =
    let a = int_in r f.field_value_index in
    let b = int_in q f.field_value_index in
    let rest = precedes fs r q in if f.asc then step a b rest else step b a rest

-- The rows with an integer in each field.
abbrev pub HasIntsIn : List OrderField → Values → Type 0
HasIntsIn [] vs = Unit
HasIntsIn (f ∷ fs) vs =
    (value_or_panic vs f.field_value_index ≡ ok (int (int_at vs f.field_value_index)))
    × HasIntsIn fs vs

abbrev pub HasInts : List OrderField → Row → Type 0
HasInts fs none = ⊥
HasInts fs (some values) = HasIntsIn fs values

step_asym : (a b : ℤ) (x y : Bool) → (x ≡ true → y ≡ false) → step a b x ≡ true → step b a y ≡ false
step_asym a b x y h e = ground arith

step_trans :
    (p q r : ℤ) (x y z : Bool)
    → (x ≡ false → y ≡ false → z ≡ false)
    → step q p x ≡ false
    → step r q y ≡ false
    → step r p z ≡ false
step_trans p q r x y z h e f = ground arith

-- One field, ascending or descending, in front of the others.
abbrev by_field : Bool → ℤ → ℤ → Bool → Bool
by_field asc a b rest = if asc then step a b rest else step b a rest

by_field_asym :
    (asc : Bool) (a b : ℤ) (x y : Bool)
    → (x ≡ true → y ≡ false)
    → by_field asc a b x ≡ true
    → by_field asc b a y ≡ false
by_field_asym true a b x y h e = step_asym a b x y h e
by_field_asym false a b x y h e = step_asym b a x y h e

by_field_trans :
    (asc : Bool) (a b c : ℤ) (x y z : Bool)
    → (x ≡ false → y ≡ false → z ≡ false)
    → by_field asc b a x ≡ false
    → by_field asc c b y ≡ false
    → by_field asc c a z ≡ false
by_field_trans true a b c x y z h e e' = step_trans a b c x y z h e e'
by_field_trans false a b c x y z h e e' = step_trans c b a y x z (λ k l. h l k) e' e

pub precedes_asym :
    (fs : List OrderField) (r q : Row) → precedes fs r q ≡ true → precedes fs q r ≡ false
precedes_asym [] r q e = refl
precedes_asym (f ∷ fs) r q e =
    by_field_asym f.asc (int_in r f.field_value_index) (int_in q f.field_value_index)
      (precedes fs r q) (precedes fs q r) (precedes_asym fs r q) e

pub precedes_trans :
    (fs : List OrderField) (p q r : Row)
    → precedes fs q p ≡ false
    → precedes fs r q ≡ false
    → precedes fs r p ≡ false
precedes_trans [] p q r e e' = refl
precedes_trans (f ∷ fs) p q r e e' =
    by_field_trans f.asc (int_in p f.field_value_index) (int_in q f.field_value_index)
      (int_in r f.field_value_index) (precedes fs q p) (precedes fs r q) (precedes fs r p)
      (precedes_trans fs p q r) e e'

pub values_of : List OrderField → Row → List FieldValue
values_of [] r = []
values_of (f ∷ fs) r =
    record { asc = f.asc; value = int (int_in r f.field_value_index) } ∷ values_of fs r

values_in-ints :
    (fs : List OrderField) (vs : Values)
    → HasIntsIn fs vs
    → values_in fs vs ≡ ok (values_of fs (some vs))
unfolding values_in values_of
values_in-ints [] vs h = refl
values_in-ints (f ∷ fs) vs h = rw (h.0, values_in-ints fs vs h.1)

pub field_values-ints :
    (fs : List OrderField) (r : Row) → HasInts fs r → field_values fs r ≡ ok (values_of fs r)
unfolding field_values
field_values-ints fs none h = absurd h
field_values-ints fs (some vs) h = values_in-ints fs vs h

decide :
    (a b : ℤ) (x : Bool)
    → (if three_way (ltb_ℤ b a) (b ==ℤ a) ==ℤ pos 0
        then ok x
        else ok (ltb_ℤ (pos 0) (three_way (ltb_ℤ b a) (b ==ℤ a))))
      ≡ ok (step a b x)
decide a b x = ground arith

decide_field :
    (asc : Bool) (a b : ℤ) (x : Bool)
    → ((if asc then compare (int b) (int a) else compare (int a) (int b)) >>= λ res.
        if res ==ℤ pos 0 then ok x else ok (ltb_ℤ (pos 0) res))
      ≡ ok (by_field asc a b x)
unfolding compare
decide_field true a b x = decide a b x
decide_field false a b x = decide b a x

pub less_cells-ints :
    (fs : List OrderField) (r q : Row)
    → less_cells (values_of fs r) (values_of fs q) ≡ ok (precedes fs r q)
unfolding less_cells values_of
less_cells-ints [] r q = refl
less_cells-ints (f ∷ fs) r q = rw (less_cells-ints fs r q) (
    decide_field f.asc (int_in r f.field_value_index) (int_in q f.field_value_index)
      (precedes fs r q))

unfoldable pub int_order : (fs : List OrderField) → IsOrdered fs
int_order fs = record {
  Fits = HasInts fs;
  before = precedes fs;
  made = λ r h. (values_of fs r, field_values-ints fs r h);
  agrees = λ r q vs ws h k e e'.
      let v = ok-injective (sym (field_values-ints fs r h) ∙ e) in
      let w = ok-injective (sym (field_values-ints fs q k) ∙ e') in
      rw (sym v, sym w) (less_cells-ints fs r q);
  asym = precedes_asym fs;
  trans = precedes_trans fs;
}
