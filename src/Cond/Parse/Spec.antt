-- ===== src/Cond/Parse/Spec.antt =====
-- The rows that a WHERE clause selects, and the clauses that ParseCondition turns into a disjunction
-- of conjunctions.
use dbpack.Common.{◌≡◌, ◌⊎◌, List, [], ◌∷◌, ◌++◌, map, Option, none, some, true, false, All}
use dbpack.Common.Int.{ℤ, ◌≤ℤ◌}
use dbpack.Value.{Bytes, Kind, Value, integer}
use dbpack.Cond.{ok, Op, eq, lt, le, gt, ge, KeyCondition, Holds}
use dbpack.Cond.Build.Reads.{Dnf}
use dbpack.Cond.Build.Loops.{product}
use dbpack.Cond.Build.And.{CanMeet}
use dbpack.Cond.Shard.Spec.{SatKey}
use dbpack.Cond.Parse.{
  compared, logic_and, logic_or, Expr, column, binary, between, in_list, parens, Exprs, nil, cons,
  Evaluator, column_of, flipped, get_value, item_value,
}

-- `column op value`
abbrev pub compared_key : Bytes → Op → Kind → ℤ → KeyCondition
compared_key name op k z = record { key = name; op = op; value = integer k z }

-- One of the conjunctions holds of a row.
abbrev pub SatEach : (Bytes → ℤ) → List KeyCondition → Type 0
SatEach row ks = All (SatKey row) ks

abbrev pub SatDnf : (Bytes → ℤ) → Dnf → Type 0
SatDnf row [] = ⊥
SatDnf row (ks ∷ kss) = SatEach row ks ⊎ SatDnf row kss

module _ (ev : Evaluator) (args : List Value) where
  -- An expression has an integer value, of the type `k`.
  abbrev pub Is : Expr → Kind → ℤ → Type 0
  Is e k z = get_value ev args e ≡ ok (integer k z)

  -- It has an integer value, of some type.
  abbrev pub Counts : Expr → ℤ → Type 0
  Counts e z = (k : Kind) × Is e k z

  -- The values of an IN list.
  pub data Items : Exprs → List (Kind × ℤ) → Type 0 where
    no_more : Items nil []
    more :
        {e : Expr} {es : Exprs} {k : Kind} {z : ℤ} {zs : List (Kind × ℤ)}
        → item_value ev args e ≡ ok (integer k z)
        → Items es zs
        → Items (cons e es) ((k, z) ∷ zs)

  -- A clause over columns and integers, and what the condition of it says.
  pub data Says : Expr → Dnf → Type 0 where
    column_left :
        {op : Op} {name : Bytes} {e : Expr} {k : Kind} {z : ℤ}
        → Is e k z
        → Says (binary (compared op) (column name) e) ((compared_key name op k z ∷ []) ∷ [])
    column_right :
        {op o : Op} {name : Bytes} {e : Expr} {k : Kind} {z : ℤ}
        → Is e k z
        → flipped op ≡ ok o
        → Says (binary (compared op) e (column name)) ((compared_key name o k z ∷ []) ∷ [])
    within :
        {name : Bytes} {l r : Expr} {j k : Kind} {y z : ℤ}
        → Is l j y
        → Is r k z
        → Says
            (between false (column name) l r)
            ((compared_key name ge j y ∷ compared_key name le k z ∷ []) ∷ [])
    outside :
        {name : Bytes} {l r : Expr} {j k : Kind} {y z : ℤ}
        → Is l j y
        → Is r k z
        → Says
            (between true (column name) l r)
            ((compared_key name lt j y ∷ []) ∷ (compared_key name gt k z ∷ []) ∷ [])
    among :
        {name : Bytes} {es : Exprs} {zs : List (Kind × ℤ)}
        → Items es zs
        → Says (in_list false (column name) es) (map (λ z. compared_key name eq z.0 z.1 ∷ []) zs)
    both :
        {l r : Expr} {kss lss : Dnf}
        → Says l kss
        → Says r lss
        → CanMeet kss lss
        → Says (binary logic_and l r) (product kss lss)
    either :
        {l r : Expr} {kss lss : Dnf}
        → Says l kss
        → Says r lss
        → Says (binary logic_or l r) (kss ++ lss)
    nested : {e : Expr} {kss : Dnf} → Says e kss → Says (parens e) kss

  -- The two sides of a comparison, a column and an integer, and the names of the columns.
  abbrev pub SelectsPair : (Bytes → ℤ) → Op → Expr → Expr → Option Bytes → Option Bytes → Type 0
  SelectsPair row op l r (some name) n = (z : ℤ) × Counts r z × Holds op z (row name)
  SelectsPair row op l r none (some name) = (z : ℤ) × Counts l z × Holds op (row name) z
  SelectsPair row op l r none none = ⊥

  abbrev pub SelectsItem : ℤ → Exprs → Type 0
  SelectsItem w nil = ⊥
  SelectsItem w (cons e es) =
      ((k : Kind) × (item_value ev args e ≡ ok (integer k w))) ⊎ SelectsItem w es

  abbrev pub InBounds : ℤ → Expr → Expr → Type 0
  InBounds w l r = (y : ℤ) × (z : ℤ) × Counts l y × Counts r z × (y ≤ℤ w) × (w ≤ℤ z)

  abbrev pub OutOfBounds : ℤ → Expr → Expr → Type 0
  OutOfBounds w l r = (y : ℤ) × (z : ℤ) × Counts l y × Counts r z × (¬ ((y ≤ℤ w) × (w ≤ℤ z)))

  -- The rows that a clause selects, as SQL has it, where it compares columns with integers.
  abbrev pub Selects : (Bytes → ℤ) → Expr → Type 0
  Selects row (binary (compared op) l r) = SelectsPair row op l r (column_of l) (column_of r)
  Selects row (binary logic_and l r) = Selects row l × Selects row r
  Selects row (binary logic_or l r) = Selects row l ⊎ Selects row r
  Selects row (between false (column name) l r) = InBounds (row name) l r
  Selects row (between true (column name) l r) = OutOfBounds (row name) l r
  Selects row (in_list false (column name) es) = SelectsItem (row name) es
  Selects row (parens e) = Selects row e
  Selects row _ = ⊥
