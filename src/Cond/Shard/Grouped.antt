-- ===== src/Cond/Shard/Grouped.antt =====
-- The groups of the first loop of `ComplexCondition.Shard`, and the routes behind it.
use dbpack.Common.{
  ℕ, ◌+◌, ◌≤◌, ◌<◌, ◌≡◌, ◌⊎◌, inl, inr, refl, ap, List, [], ◌∷◌, ◌++◌, false, All, All-map, length,
  length-append, arith, lt→ltb, not_lt→ltb, ltb,
}
use native.Mathlib.Decide.{dec_lt}
use dbpack.Common.Int.{ℤ}
use dbpack.Value.{Bytes}
use dbpack.Cond.{
  Result, ok, err, panic, stuck, ◌>>=◌, KeyCondition, conj, disj, key, complex, truth, falsity,
  absent, Conditions, nil, cons, Route, tables, ShardingAlgorithm, In,
}
use dbpack.Cond.Sound.{IsSound}
use dbpack.Cond.Shard.Sort.{Any, sort_keys, sort_keys-All, sort_keys-Any, length-sort_keys}
use dbpack.Cond.Shard.Spec.{
  keys, HasRoute, SatKey, SatAll, SatSome, PlainKey, NotPoint, NoPoint, RoutableAll,
}
use dbpack.Cond.Shard.Routes.{World, Good, Good-map, All-Good-map, key-Good, and_keys-Good}
use dbpack.Cond.Shard.Combine.{
  Ends, To, combine_and_good, combine_or_good, or_keys_good, final_good,
}
use dbpack.Cond.Shard.{Groups, keys_routes, combine, final, route_groups}

Any-append_left : {A : Type 0} (P : A → Type 0) (xs ys : List A) → Any P xs → Any P (xs ++ ys)
Any-append_left P [] ys h = elim h [ ]
Any-append_left P (x ∷ xs) ys (inl h) = inl h
Any-append_left P (x ∷ xs) ys (inr h) = inr (Any-append_left P xs ys h)

Any-append_right : {A : Type 0} (P : A → Type 0) (xs ys : List A) → Any P ys → Any P (xs ++ ys)
Any-append_right P [] ys h = h
Any-append_right P (x ∷ xs) ys h = inr (Any-append_right P xs ys h)

All-append : {A : Type 0} (P : A → Type 0) (xs ys : List A) → All P xs → All P ys → All P (xs ++ ys)
All-append P [] ys h k = k
All-append P (x ∷ xs) ys h k = (h.0, All-append P xs ys h.1 k)

length-keys : (ks : List KeyCondition) → ks ≡ [] → length ks ≡ 0
length-keys ks e = ap length e

sort_keys-NoPoint : (ks : List KeyCondition) → NoPoint ks → NoPoint (sort_keys ks)
sort_keys-NoPoint ks n =
    sort_keys-All (λ k. All (NotPoint k) (sort_keys ks)) ks
      (All-map {P = λ k. All (NotPoint k) ks} ks (λ k h. sort_keys-All (NotPoint k) ks h) n)

keys-SatKey :
    (column : Bytes → ℤ) (cs : Conditions) → SatAll column cs → All (SatKey column) (keys cs)
keys-SatKey column nil h = tt
keys-SatKey column (cons (key k) cs) h = (h.0, keys-SatKey column cs h.1)
keys-SatKey column (cons (complex op ds) cs) h = keys-SatKey column cs h.1
keys-SatKey column (cons truth cs) h = keys-SatKey column cs h.1
keys-SatKey column (cons falsity cs) h = keys-SatKey column cs h.1
keys-SatKey column (cons absent cs) h = keys-SatKey column cs h.1

pub keys-PlainKey :
    {alg : ShardingAlgorithm} (s : IsSound alg) (cs : Conditions)
    → RoutableAll s cs
    → All (PlainKey s) (keys cs)
keys-PlainKey s nil h = tt
keys-PlainKey s (cons (key k) cs) h = (h.0, keys-PlainKey s cs h.1)
keys-PlainKey s (cons (complex op ds) cs) h = keys-PlainKey s cs h.1
keys-PlainKey s (cons truth cs) h = keys-PlainKey s cs h.1
keys-PlainKey s (cons falsity cs) h = keys-PlainKey s cs h.1
keys-PlainKey s (cons absent cs) h = keys-PlainKey s cs h.1

pub slice_inversion :
    (r : Result (List ℤ)) (q : Route)
    → (r >>= λ xs. ok (tables xs)) ≡ ok q
    → (xs : List ℤ) × (r ≡ ok xs) × (tables xs ≡ q)
slice_inversion (ok xs) q e = (xs, refl, cc)
slice_inversion (err e') q e = cc
slice_inversion panic q e = cc
slice_inversion stuck q e = cc

-- A route is left when a key condition or a nested one is.
enough :
    (rs qs : List Route) (ks : List KeyCondition) (f : ℕ)
    → 0 < length rs + length ks + f
    → ¬ (0 < f)
    → (sort_keys ks ≡ []) ⊎ (0 < length qs)
    → 0 < length (rs ++ qs)
enough rs qs ks f h nf (inl e) =
    omega (arith, length-append rs qs, length-sort_keys ks, length-keys (sort_keys ks) e)
enough rs qs ks f h nf (inr p) = omega (arith, length-append rs qs)

module _ (alg : ShardingAlgorithm) (s : IsSound alg) (column : Bytes → ℤ) (v i : ℤ) where
  abbrev W : Type 0
  W = World alg s column v i

  -- What the first loop of `ComplexCondition.Shard` has collected.
  pub record Grouped (cs : Conditions) (g : Groups) : Type 0 where
    pub keys_kept : g.key_group ≡ keys cs
    pub routes : All (Good alg s column v i (W × SatAll column cs)) g.result
    pub some_leads :
        W × SatSome column cs
        → Any (To alg s column v i) g.result ⊎ Any (SatKey column) (keys cs) ⊎ (0 < g.true_group)
    pub not_false : 0 < g.false_group → ¬ (SatAll column cs)
    pub and_some : HasRoute conj cs → 0 < length g.result + length (keys cs) + g.false_group
    pub or_some : HasRoute disj cs → 0 < length g.result + length (keys cs) + g.true_group

  -- What `Shard` returns for a condition that holds where `S` does.
  abbrev pub Routed : Result (List ℤ) → Type 0 → Type 0
  Routed r S = (xs : List ℤ) × (r ≡ ok xs) × (W × S → In i xs)

  conj_keys-Good :
      (ks : List KeyCondition)
      → All (PlainKey s) ks
      → NoPoint ks
      → (qs : List Route) × (keys_routes alg conj ks ≡ ok qs)
        × All (Good alg s column v i (W × All (SatKey column) ks)) qs
        × ((ks ≡ []) ⊎ (0 < length qs))
  unfolding keys_routes
  conj_keys-Good [] p n = ([], refl, tt, inl refl)
  conj_keys-Good (k ∷ []) p n =
      let (q, e, g) = key-Good alg s column v i k p.0 in
      (q ∷ [], rw e, (Good-map alg s column v i q (λ w. (w.0, w.1.0)) g, tt), inr (omega arith))
  conj_keys-Good (k ∷ l ∷ ks) p n = and_keys-Good alg s column v i (k ∷ l ∷ ks) p n

  conj_routes :
      (g : Groups) (qs : List Route) (q : Route) (xs : List ℤ)
      → ltb 0 g.false_group ≡ false
      → keys_routes alg conj (sort_keys g.key_group) ≡ ok qs
      → combine alg conj (g.result ++ qs) ≡ ok q
      → final alg q ≡ ok xs
      → route_groups alg conj g ≡ ok xs
  unfolding route_groups
  conj_routes g qs q xs t e e' e'' = rw (t, e, e', e'')

  disj_routes :
      (g : Groups) (qs : List Route) (q : Route) (xs : List ℤ)
      → ltb 0 g.true_group ≡ false
      → keys_routes alg disj (sort_keys g.key_group) ≡ ok qs
      → combine alg disj (g.result ++ qs) ≡ ok q
      → final alg q ≡ ok xs
      → route_groups alg disj g ≡ ok xs
  unfolding route_groups
  disj_routes g qs q xs t e e' e'' = rw (t, e, e', e'')

  ends :
      (S : Type 0) (qs : List Route)
      → All (Good alg s column v i S) qs
      → All (Ends alg s column v i) qs
  ends S [] h = tt
  ends S (q ∷ qs) h = (h.0.0, ends S qs h.1)

  pub conj_good :
      (cs : Conditions) (g : Groups)
      → Grouped cs g
      → All (PlainKey s) (keys cs)
      → HasRoute conj cs
      → NoPoint (keys cs)
      → Routed (route_groups alg conj g) (SatAll column cs)
  unfolding route_groups
  conj_good cs g d p h n = elim (dec_lt 0 g.false_group) [
    | yes f ↦ rw (lt→ltb 0 g.false_group f) ([], refl, λ w. absurd (d.not_false f w.1))
    | no nf ↦
        let (qs, e, good, some) =
          conj_keys-Good (sort_keys (keys cs)) (sort_keys-All (PlainKey s) (keys cs) p)
            (sort_keys-NoPoint (keys cs) n) in
        let routes =
          All-append (Good alg s column v i (W × SatAll column cs)) g.result qs d.routes (
            All-Good-map alg s column v i qs
              (λ w. (w.0, sort_keys-All (SatKey column) (keys cs) (keys-SatKey column cs w.1)))
              good) in
        let positive : 0 < length (g.result ++ qs) =
          enough g.result qs (keys cs) g.false_group (d.and_some h) nf some in
        let (q, e', good') = combine_and_good alg s column v i (g.result ++ qs) positive routes in
        let (xs, e'', to) = final_good alg s column v i q (λ w. w.0) good' in
        (xs, conj_routes g qs q xs (not_lt→ltb 0 g.false_group nf) (rw d.keys_kept e) e' e'', to)
  ]

  pub disj_good :
      (cs : Conditions) (g : Groups)
      → Grouped cs g
      → All (PlainKey s) (keys cs)
      → HasRoute disj cs
      → length (keys cs) ≤ 2
      → Routed (route_groups alg disj g) (SatSome column cs)
  unfolding route_groups
  disj_good cs g d p h n = elim (dec_lt 0 g.true_group) [
    | yes t ↦ rw (lt→ltb 0 g.true_group t) (alg.all_shards, refl, λ w. s.all_leads v i w.0.0)
    | no nt ↦
        let (qs, e, end, to_keys, some) =
          or_keys_good alg s column v i (sort_keys (keys cs))
            (sort_keys-All (PlainKey s) (keys cs) p) (rw (length-sort_keys (keys cs)) n) in
        let positive : 0 < length (g.result ++ qs) =
          enough g.result qs (keys cs) g.true_group (d.or_some h) nt some in
        let (q, e', end', to) = combine_or_good alg s column v i (g.result ++ qs) positive (
          All-append (Ends alg s column v i) g.result qs
            (ends (W × SatAll column cs) g.result d.routes) end) in
        let lead : W × SatSome column cs → Any (To alg s column v i) (g.result ++ qs) = λ w.
          elim (d.some_leads w) [
            | inl a ↦ Any-append_left (To alg s column v i) g.result qs a
            | inr (inl k) ↦
                Any-append_right (To alg s column v i) g.result qs
                  (to_keys (w.0, sort_keys-Any (SatKey column) (keys cs) k))
            | inr (inr t) ↦ absurd (nt t)
          ] in
        let (xs, e'', home) =
          final_good alg s column v i {S = W × SatSome column cs} q (λ w. w.0)
            (end', λ w. to (lead w)) in
        (xs, disj_routes g qs q xs (not_lt→ltb 0 g.true_group nt) (rw d.keys_kept e) e' e'', home)
  ]
