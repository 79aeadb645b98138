-- ===== src/Cond/Shard/Routes.antt =====
-- The routes of key conditions and their combination, for one row.
use dbpack.Common.{
  ◌<◌, ◌≡◌, ◌⊎◌, inl, inr, refl, List, [], ◌∷◌, false, All, All-map, Bool-cases, length, arith,
}
use mathlib.Core.Path.{subst}
use dbpack.Common.Int.{ℤ}
use dbpack.Value.{Bytes, Value, integer, text, text_eq, text_eq→eq}
use dbpack.Cond.{Result, ok, err, panic, stuck, Op, KeyCondition, Route, ShardingAlgorithm}
use dbpack.Cond.Sound.{Returns, IsSound}
use dbpack.Cond.Pair.{key_route, pair_and}
use dbpack.Cond.Pair.Sound.{comparison, Serves, key_serves}
use dbpack.Cond.Pair.Table.{pair_serves}
use dbpack.Cond.Shard.Spec.{
  PlainValue, HoldsValue, NotPointValue, PlainKey, SatKey, NotPoint, NoPoint,
}
use dbpack.Cond.Shard.{and_keys}

abbrev condition : Bytes → Op → Value → KeyCondition
condition c op x = record { key = c; op = op; value = x }

NoPoint-tail : (k : KeyCondition) (ks : List KeyCondition) → NoPoint (k ∷ ks) → NoPoint ks
NoPoint-tail k ks n = All-map {P = λ l. All (NotPoint l) (k ∷ ks)} ks (λ l h. h.1) n.1

-- A result that returns is `ok` of a route that is not nil.
Returns-ok : (r : Result Route) → Returns r → (q : Route) × (r ≡ ok q) × Returns (ok q)
Returns-ok (ok q) h = (q, refl, h)
Returns-ok (err e) h = elim h [ ]
Returns-ok panic h = elim h [ ]
Returns-ok stuck h = elim h [ ]

module _ (alg : ShardingAlgorithm) (s : IsSound alg) (column : Bytes → ℤ) (v i : ℤ) where
  -- The row stands in the table `i`, and `v` is its sharding column.
  abbrev pub World : Type 0
  World = s.Home v i × ((c : Bytes) → (alg.has_sharding_key c ≡ false) ⊎ (column c ≡ v))

  -- A route that is not nil, and leads to `i` where `S` holds.
  abbrev pub Good : Type 0 → Route → Type 0
  Good S q = Serves alg s (ok q) S i

  Serves-ok :
      (S : Type 0) (r : Result Route) → Serves alg s r S i → (q : Route) × (r ≡ ok q) × Good S q
  Serves-ok S r h = let (q, e, _) = Returns-ok r h.0 in (q, e, subst (λ x. Serves alg s x S i) e h)

  pub Good-map : {S T : Type 0} (q : Route) → (T → S) → Good S q → Good T q
  Good-map q f g = (g.0, λ t. g.1 (f t))

  pub All-Good-map : {S T : Type 0} (qs : List Route) → (T → S) → All (Good S) qs → All (Good T) qs
  All-Good-map [] f g = tt
  All-Good-map (q ∷ qs) f g = (Good-map q f g.0, All-Good-map qs f g.1)

  value-Good :
      (c : Bytes) (op : Op) (x : Value)
      → PlainValue s op x
      → (q : Route) × (key_route alg (condition c op x) ≡ ok q)
        × Good (World × HoldsValue op x (column c)) q
  value-Good c op (text t) p = elim p [ ]
  value-Good c op (integer k z) (e, _, fits, order) =
      let (r, h) = key_serves alg s c v (column c) i op z order fits in
      rw e (Serves-ok _ (key_route alg (comparison c op z)) (r, λ w. h ((w.0.0, w.0.1 c), w.1)))

  -- A key condition that is sharded alone.
  pub key-Good :
      (k : KeyCondition)
      → PlainKey s k
      → (q : Route) × (key_route alg k ≡ ok q) × Good (World × SatKey column k) q
  key-Good k p = value-Good k.key k.op k.value p

  values-Good :
      (c : Bytes) (o o' : Op) (x x' : Value)
      → PlainValue s o x
      → PlainValue s o' x'
      → NotPointValue o o' x x'
      → (q : Route) × (pair_and alg (condition c o x) (condition c o' x') ≡ ok q)
        × Good (World × HoldsValue o x (column c) × HoldsValue o' x' (column c)) q
  values-Good c o o' (text t) x' p p' n = elim p [ ]
  values-Good c o o' (integer j y) (text t) p p' n = elim p' [ ]
  values-Good c o o' (integer j y) (integer k z) (e, int, fits, order) (e', int', fits', order') n =
      let (r, h) = pair_serves alg s c v (column c) i y z int int' fits fits' o o' order order' n in
      rw (e, e')
        (Serves-ok _ (pair_and alg (comparison c o y) (comparison c o' z))
          (r, λ w. h ((w.0.0, w.0.1 c), w.1, w.2)))

  -- Two key conditions of one column under `And`.
  pair-Good :
      (k l : KeyCondition)
      → k.key ≡ l.key
      → PlainKey s k
      → PlainKey s l
      → NotPoint k l
      → (q : Route) × (pair_and alg k l ≡ ok q) × Good (World × SatKey column k × SatKey column l) q
  pair-Good k l e p p' n =
      subst
        (λ c.
          (q : Route) × (pair_and alg k (condition c l.op l.value) ≡ ok q)
          × Good (World × SatKey column k × HoldsValue l.op l.value (column c)) q)
        e (values-Good k.key k.op l.op k.value l.value p p' n)

  -- The key conditions under `And`: each row that satisfies all is led to by every route.
  pub and_keys-Good :
      (ks : List KeyCondition)
      → All (PlainKey s) ks
      → NoPoint ks
      → (qs : List Route) × (and_keys alg ks ≡ ok qs)
        × All (Good (World × All (SatKey column) ks)) qs
        × ((ks ≡ []) ⊎ (0 < length qs))
  unfolding and_keys
  and_keys-Good [] p n = ([], refl, tt, inl refl)
  and_keys-Good (k ∷ []) p n =
      let (q, e, g) = key-Good k p.0 in
      (q ∷ [], rw e, (Good-map q (λ w. (w.0, w.1.0)) g, tt), inr (omega arith))
  and_keys-Good (k ∷ l ∷ ks) p n = elim (Bool-cases (text_eq k.key l.key)) [
    | inl same ↦
        let (q, e, g) = pair-Good k l (text_eq→eq _ _ same) p.0 p.1.0 n.0.1.0 in
        let (qs, es, gs, _) =
          and_keys-Good ks p.1.1 (NoPoint-tail l ks (NoPoint-tail k (l ∷ ks) n)) in
        (
          q ∷ qs,
          rw (same, e, es),
          (Good-map q (λ w. (w.0, w.1.0, w.1.1.0)) g, All-Good-map qs (λ w. (w.0, w.1.1.1)) gs),
          inr (omega arith),
        )
    | inr other ↦
        let (q, e, g) = key-Good k p.0 in
        let (qs, es, gs, _) = and_keys-Good (l ∷ ks) p.1 (NoPoint-tail k (l ∷ ks) n) in
        (
          q ∷ qs,
          rw (other, e, es),
          (Good-map q (λ w. (w.0, w.1.0)) g, All-Good-map qs (λ w. (w.0, w.1.1)) gs),
          inr (omega arith),
        )
  ]
