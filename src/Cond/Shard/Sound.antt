-- ===== src/Cond/Shard/Sound.antt =====
-- The result of `Shard` for a routable condition.
use dbpack.Common.{suc, ◌≡◌, inl, inr, refl, sym, ap, List, [], ◌∷◌, arith}
use mathlib.Core.Path.{subst}
use dbpack.Common.Int.{ℤ, pos}
use dbpack.Value.{Bytes}
use dbpack.Cond.{
  Result, ok, ◌>>=◌, KeyCondition, Connective, conj, disj, Condition, key, complex, truth, falsity,
  absent, Conditions, nil, cons, tables, ShardingAlgorithm, In,
}
use dbpack.Cond.Sound.{IsSound}
use dbpack.Cond.Pair.{key_shard, key_route}
use dbpack.Cond.Shard.Spec.{SatKey, Satisfies, PlainKey, Routable, RoutableAll}
use dbpack.Cond.Shard.Routes.{World, Good, All-Good-map, key-Good}
use dbpack.Cond.Shard.{Groups, route_groups, shard, groups}
use dbpack.Cond.Shard.Grouped.{
  Grouped, Routed, conj_good, disj_good, keys-PlainKey, slice_inversion,
}

module _ (alg : ShardingAlgorithm) (s : IsSound alg) (column : Bytes → ℤ) (v i : ℤ) where
  abbrev W : Type 0
  W = World alg s column v i

  abbrev G : Conditions → Groups → Type 0
  G = Grouped alg s column v i

  abbrev R : Result (List ℤ) → Type 0 → Type 0
  R = Routed alg s column v i

  groups_nil : G nil (record { result = []; key_group = []; true_group = 0; false_group = 0 })
  groups_nil = record {
    keys_kept = refl;
    routes = tt;
    some_leads = λ w. elim w.1 [ ];
    not_false = λ h. absurd (omega arith);
    and_some = λ h. elim h [ ];
    or_some = λ h. elim h [ ];
  }

  cons_key :
      (k : KeyCondition) (cs : Conditions) (g : Groups)
      → G cs g
      → G (cons (key k) cs) (record g { key_group = k ∷ g.key_group })
  cons_key k cs g d = record {
    keys_kept = ap (λ ks. k ∷ ks) d.keys_kept;
    routes = All-Good-map alg s column v i g.result (λ w. (w.0, w.1.1)) d.routes;
    some_leads = λ w. elim w.1 [
      | inl a ↦ inr (inl (inl a))
      | inr b ↦ elim (d.some_leads (w.0, b)) [
        | inl r ↦ inl r
        | inr (inl r) ↦ inr (inl (inr r))
        | inr (inr r) ↦ inr (inr r)
      ]
    ];
    not_false = λ h w. d.not_false h w.1;
    and_some = λ h. omega arith;
    or_some = λ h. omega arith;
  }

  cons_truth :
      (cs : Conditions) (g : Groups)
      → G cs g
      → G (cons truth cs) (record g { true_group = suc g.true_group })
  cons_truth cs g d = record {
    keys_kept = d.keys_kept;
    routes = All-Good-map alg s column v i g.result (λ w. (w.0, w.1.1)) d.routes;
    some_leads = λ w. inr (inr (omega arith));
    not_false = λ h w. d.not_false h w.1;
    and_some = d.and_some;
    or_some = λ h. omega arith;
  }

  cons_falsity :
      (cs : Conditions) (g : Groups)
      → G cs g
      → G (cons falsity cs) (record g { false_group = suc g.false_group })
  cons_falsity cs g d = record {
    keys_kept = d.keys_kept;
    routes = All-Good-map alg s column v i g.result (λ w. (w.0, w.1.1)) d.routes;
    some_leads = λ w. elim w.1 [ inl a ↦ elim a [ ] | inr b ↦ d.some_leads (w.0, b) ];
    not_false = λ h w. w.0;
    and_some = λ h. omega arith;
    or_some = d.or_some;
  }

  cons_complex :
      (op : Connective) (ds cs : Conditions) (g : Groups) (xs : List ℤ)
      → (W × Satisfies column (complex op ds) → In i xs)
      → G cs g
      → G (cons (complex op ds) cs) (record g { result = tables xs ∷ g.result })
  cons_complex op ds cs g xs f d = record {
    keys_kept = d.keys_kept;
    routes = (
      (tt, λ w. f (w.0, w.1.0)),
      All-Good-map alg s column v i g.result (λ w. (w.0, w.1.1)) d.routes,
    );
    some_leads = λ w. elim w.1 [
      | inl a ↦ inl (inl (f (w.0, a)))
      | inr b ↦ elim (d.some_leads (w.0, b)) [ inl r ↦ inl (inr r) | inr r ↦ inr r ]
    ];
    not_false = λ h w. d.not_false h w.1;
    and_some = λ h. omega arith;
    or_some = λ h. omega arith;
  }

  nested_good :
      (op : Connective) (cs : Conditions)
      → ((g : Groups) × (groups alg cs ≡ ok g) × G cs g)
      → Routable s (complex op cs)
      → R (groups alg cs >>= route_groups alg op) (Satisfies column (complex op cs))
  nested_good conj cs (g, e, d) h =
      let (xs, e', to) = conj_good alg s column v i cs g d (keys-PlainKey s cs h.0) h.1 h.2 in
      (xs, rw (e, e'), to)
  nested_good disj cs (g, e, d) h =
      let (xs, e', to) = disj_good alg s column v i cs g d (keys-PlainKey s cs h.0) h.1 h.2 in
      (xs, rw (e, e'), to)

  -- The first loop collects what `Grouped` says, for conditions that are routed without a panic.
  groups_good :
      (cs : Conditions) → RoutableAll s cs → (g : Groups) × (groups alg cs ≡ ok g) × G cs g
  unfolding groups
  groups_good nil h = (_, refl, groups_nil)
  groups_good (cons (key k) cs) h =
      let (g, e, d) = groups_good cs h.1 in
      (record g { key_group = k ∷ g.key_group }, rw e, cons_key k cs g d)
  groups_good (cons (complex op ds) cs) h =
      let inner = groups_good ds h.0.0 in
      let (xs, e', to) = nested_good op ds inner h.0 in
      let (g, e, d) = groups_good cs h.1 in
      (record g { result = tables xs ∷ g.result }, rw (e', e), cons_complex op ds cs g xs to d)
  groups_good (cons truth cs) h =
      let (g, e, d) = groups_good cs h.1 in
      (record g { true_group = suc g.true_group }, rw e, cons_truth cs g d)
  groups_good (cons falsity cs) h =
      let (g, e, d) = groups_good cs h.1 in
      (record g { false_group = suc g.false_group }, rw e, cons_falsity cs g d)
  groups_good (cons absent cs) h = elim h.0 [ ]

  key_shard_good : (k : KeyCondition) → PlainKey s k → R (key_shard alg k) (SatKey column k)
  unfolding key_route
  key_shard_good k h =
      let (q, e, g) = key-Good alg s column v i k h in
      let (xs, e', t) = slice_inversion (key_shard alg k) q e in
      (xs, e', (subst (λ r. Good alg s column v i (W × SatKey column k) r) (sym t) g).1)

  shard_good : (c : Condition) → Routable s c → R (shard alg c) (Satisfies column c)
  unfolding shard
  shard_good (key k) h = key_shard_good k h
  shard_good (complex op cs) h = nested_good op cs (groups_good cs h.0) h
  shard_good truth h = (alg.all_shards, refl, λ w. s.all_leads v i w.0.0)
  shard_good falsity h = ([], refl, λ w. elim w.1 [ ])
  shard_good absent h = elim h [ ]

  -- Over an algorithm that satisfies the interface `IsSound`: for a routable condition and a row
  -- that satisfies it, whose sharding column is `v` and which stands in the table `i`, `Shard`
  -- returns a list of tables, and `i` is in it.
  pub shard-In :
      (c : Condition)
      → Routable s c
      → World alg s column v i
      → Satisfies column c
      → (xs : List ℤ) × (shard alg c ≡ ok xs) × In i xs
  shard-In c h w sat = let (xs, e, to) = shard_good c h in (xs, e, to (w, sat))

-- Over an algorithm that satisfies the interface `IsSound`: for a routable condition `Shard`
-- returns a list of tables, with no error and no panic.
pub shard-Returns :
    (alg : ShardingAlgorithm) (s : IsSound alg) (c : Condition)
    → Routable s c
    → (xs : List ℤ) × (shard alg c ≡ ok xs)
shard-Returns alg s c h =
    let (xs, e, _) = shard_good alg s (λ _. pos 0) (pos 0) (pos 0) c h in (xs, e)
