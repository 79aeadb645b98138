-- ===== src/Cond/Parse/Sound.antt =====
-- ParseCondition builds the disjunction of conjunctions that its clause says.
use dbpack.Common.{ℕ, All, arith, ◌≡◌, refl, List, [], ◌∷◌, map, none, false}
use dbpack.Common.Int.{ℤ}
use dbpack.Value.{Bytes, Kind, Value, integer}
use dbpack.Cond.{ok, Op, eq, KeyCondition, disj}
use dbpack.Cond.Build.{Ref, key, node, Heap, alloc}
use dbpack.Cond.Build.Reads.{Dnf, Clauses, Sep, Distinct, Reads, one, many, Moves}
use dbpack.Cond.Build.Memory.{
  Moves-join, Moves-fresh, Moves-weaken, get_new, Clause-kept, Clauses-kept, Clause-Placed,
  Clauses-Placed, Apart-owned, Apart-nothing, Placed,
}
use dbpack.Cond.Build.And.{Joined, alloc-Joined, and_ref-product}
use dbpack.Cond.Build.Or.{or_ref-append}
use dbpack.Cond.Parse.{
  compared, Expr, column, value, param, unary, binary, like_pattern, between, in_list, parens,
  function, other, Exprs, Evaluator, key_of, column_of, flipped, get_value, compare_sides,
  compare_columns, parse_between, parse_items, parse_in, parse_condition,
}
use dbpack.Cond.Parse.Spec.{
  Is, Items, more, Says, column_left, column_right, within, outside, among, both, either, nested,
  compared_key,
}
use dbpack.Cond.Parse.Spec

Reads-Placed :
    (h : Heap) (r : Ref) (kss : Dnf) (fp : List Ref) → Reads h r kss fp → All (Placed h) fp
Reads-Placed h r kss fp (one {ks = ks} c) = (Clause-Placed h r ks c, tt)
Reads-Placed h r kss fp (many {rs = rs} g c n) = ((_, g), Clauses-Placed h rs kss c)

-- What makes nothing but new conditions keeps every other one.
Reads-kept :
    {h h' : Heap} {new : List Ref} (r : Ref) (kss : Dnf) (fp : List Ref)
    → Moves h h' [] new
    → Reads h r kss fp
    → Reads h' r kss fp
Reads-kept r kss fp m (one {ks = ks} c) = one (Clause-kept m r ks tt c)
Reads-kept r kss fp m (many {a = a} {rs = rs} g c n) =
    many (m.same a _ g tt) (Clauses-kept m rs kss (Apart-nothing rs) c) n

fresh_key : (h : Heap) (k : KeyCondition) → Moves h h [] (key k ∷ [])
fresh_key h k = record { same = λ x c e w. e; owned = λ x c e w. (tt, tt) }

-- A new disjunction of key conditions.
keys-Joined :
    (h : Heap) (ts : List Ref) (kss : Dnf)
    → Clauses h ts kss
    → Distinct ts
    → ((x : ℕ) → All (Sep (node x)) ts)
    → Joined (alloc disj ts h) h [] kss
keys-Joined h ts kss c d f =
    let (t, h1, new, e, r, m) = alloc-Joined h ts kss c d in
    (t, h1, new, e, r, Moves-weaken m (λ x u. f x))

module _ (ev : Evaluator) (args : List Value) where
  pub no_column : (e : Expr) (k : Kind) (z : ℤ) → Is ev args e k z → column_of e ≡ none
  unfolding get_value
  no_column (column name) k z i = cc
  no_column (value v) k z i = refl
  no_column (param n) k z i = refl
  no_column (unary op e) k z i = refl
  no_column (binary op l r) k z i = refl
  no_column (like_pattern e p) k z i = refl
  no_column (between b e l r) k z i = refl
  no_column (in_list b e es) k z i = refl
  no_column (parens e) k z i = refl
  no_column (function n) k z i = refl
  no_column other k z i = refl

  pub parse_left :
      (op : Op) (name : Bytes) (e : Expr) (k : Kind) (z : ℤ) (h : Heap)
      → Is ev args e k z
      → parse_condition ev args (binary (compared op) (column name) e) h
        ≡ ok (key (compared_key name op k z), h)
  unfolding parse_condition compare_columns compare_sides get_value
  parse_left op name e k z h i = rw (no_column e k z i, i)

  parse_right :
      (op o : Op) (name : Bytes) (e : Expr) (k : Kind) (z : ℤ) (h : Heap)
      → Is ev args e k z
      → flipped op ≡ ok o
      → parse_condition ev args (binary (compared op) e (column name)) h
        ≡ ok (key (compared_key name o k z), h)
  unfolding parse_condition compare_columns compare_sides get_value
  parse_right op o name e k z h i f = rw (no_column e k z i, i, f)

  abbrev keys_eq : Bytes → List (Kind × ℤ) → List Ref
  keys_eq name zs = map (λ z. key_of name eq (integer z.0 z.1)) zs

  parse_items-Items :
      (name : Bytes) (es : Exprs) (zs : List (Kind × ℤ))
      → Items ev args es zs
      → parse_items ev args false name es ≡ ok (keys_eq name zs)
  unfolding parse_items
  parse_items-Items name es zs Spec.no_more = refl
  parse_items-Items name es zs (more {es = rest} {k} {z} {zs = ws} i is) =
      rw (i, parse_items-Items name rest ws is)

  keys_Clauses :
      (h : Heap) (name : Bytes) (zs : List (Kind × ℤ))
      → Clauses h (keys_eq name zs) (map (λ z. compared_key name eq z.0 z.1 ∷ []) zs)
  keys_Clauses h name [] = tt
  keys_Clauses h name (z ∷ zs) = (refl, keys_Clauses h name zs)

  keys_apart :
      (k : KeyCondition) (name : Bytes) (zs : List (Kind × ℤ)) → All (Sep (key k)) (keys_eq name zs)
  keys_apart k name [] = tt
  keys_apart k name (z ∷ zs) = (tt, keys_apart k name zs)

  keys_away : (x : ℕ) (name : Bytes) (zs : List (Kind × ℤ)) → All (Sep (node x)) (keys_eq name zs)
  keys_away x name [] = tt
  keys_away x name (z ∷ zs) = (tt, keys_away x name zs)

  keys_Distinct : (name : Bytes) (zs : List (Kind × ℤ)) → Distinct (keys_eq name zs)
  keys_Distinct name [] = tt
  keys_Distinct name (z ∷ zs) =
      (keys_apart (compared_key name eq z.0 z.1) name zs, keys_Distinct name zs)

  -- A clause over columns and integers of which each AND can be distributed: ParseCondition returns
  -- a condition that says what the clause says, and changes no condition that was in memory.
  pub parse_condition-Reads :
      (e : Expr) (kss : Dnf) (h : Heap)
      → Says ev args e kss
      → Joined (parse_condition ev args e h) h [] kss
  unfolding parse_condition parse_between parse_in
  parse_condition-Reads e kss h (column_left {op} {name} {e = r} {k} {z} i) =
      (_, h, _, parse_left op name r k z h i, one refl, fresh_key h _)
  parse_condition-Reads e kss h (column_right {op} {o} {name} {e = l} {k} {z} i f) =
      (_, h, _, parse_right op o name l k z h i f, one refl, fresh_key h _)
  parse_condition-Reads e kss h (within {name} {l} {r} {y} {z} i j) =
      (_, _, _, rw (i, j), one (get_new h _, omega arith), Moves-fresh h _)
  parse_condition-Reads e kss h (outside {name} {l} {r} {y} {z} i j) =
      rw (i, j) (keys-Joined h _ _ (refl, (refl, tt)) ((tt, tt), (tt, tt)) (λ x. (tt, (tt, tt))))
  parse_condition-Reads e kss h (among {name} {es} {zs} is) = rw (parse_items-Items name es zs is) (
      keys-Joined h (keys_eq name zs) _ (keys_Clauses h name zs) (keys_Distinct name zs)
        (λ x. keys_away x name zs))
  parse_condition-Reads e kss h (both {l} {r} {kss = ks} {lss = ls} p q w) =
      let (t, h1, fp, e1, r1, m1) = parse_condition-Reads l ks h p in
      let (u, h2, fq, e2, r2, m2) = parse_condition-Reads r ls h1 q in
      let apart = Apart-owned m2 fp (Reads-Placed h1 t ks fp r1) (Apart-nothing fp) in
      let (v, h3, new, e3, r3, m3) =
        and_ref-product 0 h2 t u ks ls fp fq (Reads-kept t ks fp m2 r1) r2 apart w in
      (v, h3, new, rw (e1, e2, e3), r3, Moves-join fp fq new m1 m2 m3)
  parse_condition-Reads e kss h (either {l} {r} {kss = ks} {lss = ls} p q) =
      let (t, h1, fp, e1, r1, m1) = parse_condition-Reads l ks h p in
      let (u, h2, fq, e2, r2, m2) = parse_condition-Reads r ls h1 q in
      let apart = Apart-owned m2 fp (Reads-Placed h1 t ks fp r1) (Apart-nothing fp) in
      let (v, h3, new, e3, r3, m3) =
        or_ref-append 1 h2 t u ks ls fp fq (Reads-kept t ks fp m2 r1) r2 apart in
      (v, h3, new, rw (e1, e2, e3), r3, Moves-join fp fq new m1 m2 m3)
  parse_condition-Reads e kss h (nested {e = l} p) = parse_condition-Reads l kss h p
