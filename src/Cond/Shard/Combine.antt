-- ===== src/Cond/Shard/Combine.antt =====
-- The combination of routes under `And` and `Or`, and the last step of `Shard`.
use dbpack.Common.{◌≤◌, ◌<◌, ◌≡◌, ◌⊎◌, inl, inr, refl, List, [], ◌∷◌, All, length, arith}
use dbpack.Common.Int.{ℤ}
use dbpack.Value.{Bytes}
use dbpack.Cond.{
  ok, KeyCondition, conj, disj, Route, all, nothing, missing, tables, ShardingAlgorithm, In,
}
use dbpack.Cond.Sound.{Returns, Leads, IsSound}
use dbpack.Cond.Slice.{route_and, route_or, In-intersect, In-unite}
use dbpack.Cond.Pair.{pair_or}
use dbpack.Cond.Shard.Sort.{Any}
use dbpack.Cond.Shard.Spec.{PlainKey, SatKey}
use dbpack.Cond.Shard.Routes.{World, Good, key-Good}
use dbpack.Cond.Shard.{keys_routes, fold_routes, combine, final}

module _ (alg : ShardingAlgorithm) (s : IsSound alg) (column : Bytes → ℤ) (v i : ℤ) where
  abbrev G : Type 0 → Route → Type 0
  G = Good alg s column v i

  route_and_good :
      {S : Type 0} (c d : Route) → G S c → G S d → (q : Route) × (route_and c d ≡ ok q) × G S q
  unfolding route_and
  route_and_good all d g h = (d, refl, h)
  route_and_good nothing d g h = (nothing, refl, g)
  route_and_good missing d g h = elim g.0 [ ]
  route_and_good (tables xs) all g h = (tables xs, refl, g)
  route_and_good (tables xs) nothing g h = (nothing, refl, h)
  route_and_good (tables xs) missing g h = elim h.0 [ ]
  route_and_good (tables xs) (tables ys) g h =
      (tables _, refl, (tt, λ w. (In-intersect i xs ys).1 (g.1 w, h.1 w)))

  fold_and_good :
      {S : Type 0} (c : Route) (rs : List Route)
      → G S c
      → All (G S) rs
      → (q : Route) × (fold_routes alg conj c rs ≡ ok q) × G S q
  unfolding fold_routes
  fold_and_good c [] g h = (c, refl, g)
  fold_and_good c (r ∷ rs) g h =
      let (d, e, k) = route_and_good c r g h.0 in
      let (q, e', k') = fold_and_good d rs k h.1 in (q, rw e e', k')

  -- All routes lead to the row where `S` holds, and so does their conjunction.
  pub combine_and_good :
      {S : Type 0} (rs : List Route)
      → 0 < length rs
      → All (G S) rs
      → (q : Route) × (combine alg conj rs ≡ ok q) × G S q
  unfolding combine
  combine_and_good [] n h = absurd (omega arith)
  combine_and_good (c ∷ rs) n h = fold_and_good c rs h.0 h.1

  abbrev pub Ends : Route → Type 0
  Ends q = Returns (ok q)

  abbrev pub To : Route → Type 0
  To q = Leads (ok q) i

  route_or_good :
      (c d : Route)
      → Ends c
      → Ends d
      → (q : Route) × (route_or c d ≡ ok q) × Ends q × (To c ⊎ To d → To q)
  unfolding route_or
  route_or_good all d g h = (all, refl, tt, λ w. tt)
  route_or_good nothing d g h = (d, refl, h, elim [ inl w ↦ elim w [ ] | inr w ↦ w ])
  route_or_good missing d g h = elim g [ ]
  route_or_good (tables xs) all g h = (all, refl, tt, λ w. tt)
  route_or_good (tables xs) nothing g h =
      (tables xs, refl, tt, elim [ inl w ↦ w | inr w ↦ elim w [ ] ])
  route_or_good (tables xs) missing g h = elim h [ ]
  route_or_good (tables xs) (tables ys) g h = (tables _, refl, tt, (In-unite i xs ys).1)

  fold_or_good :
      (c : Route) (rs : List Route)
      → Ends c
      → All Ends rs
      → (q : Route) × (fold_routes alg disj c rs ≡ ok q) × Ends q × (To c ⊎ Any To rs → To q)
  unfolding fold_routes
  fold_or_good c [] g h = (c, refl, g, elim [ inl w ↦ w | inr w ↦ elim w [ ] ])
  fold_or_good c (r ∷ rs) g h =
      let (d, e, k, t) = route_or_good c r g h.0 in
      let (q, e', k', t') = fold_or_good d rs k h.1 in
      (
        q,
        rw e e',
        k',
        elim [
          | inl w ↦ t' (inl (t (inl w)))
          | inr (inl w) ↦ t' (inl (t (inr w)))
          | inr (inr w) ↦ t' (inr w)
        ],
      )

  -- The disjunction leads to the row if some route does.
  pub combine_or_good :
      (rs : List Route)
      → 0 < length rs
      → All Ends rs
      → (q : Route) × (combine alg disj rs ≡ ok q) × Ends q × (Any To rs → To q)
  unfolding combine
  combine_or_good [] n h = absurd (omega arith)
  combine_or_good (c ∷ rs) n h = fold_or_good c rs h.0 h.1

  -- At most two key conditions under `Or`.
  pub or_keys_good :
      (ks : List KeyCondition)
      → All (PlainKey s) ks
      → length ks ≤ 2
      → (qs : List Route) × (keys_routes alg disj ks ≡ ok qs)
        × All Ends qs
        × (World alg s column v i × Any (SatKey column) ks → Any To qs)
        × ((ks ≡ []) ⊎ (0 < length qs))
  unfolding keys_routes pair_or
  or_keys_good [] p n = ([], refl, tt, λ w. elim w.1 [ ], inl refl)
  or_keys_good (k ∷ []) p n =
      let (q, e, g) = key-Good alg s column v i k p.0 in
      (
        q ∷ [],
        rw e,
        (g.0, tt),
        λ w. elim w.1 [ inl a ↦ inl (g.1 (w.0, a)) | inr b ↦ elim b [ ] ],
        inr (omega arith),
      )
  or_keys_good (k ∷ l ∷ []) p n =
      let (q, e, g) = key-Good alg s column v i k p.0 in
      let (q', e', g') = key-Good alg s column v i l p.1.0 in
      let (r, e'', t, to) = route_or_good q q' g.0 g'.0 in
      (
        r ∷ [],
        rw (e, e', e''),
        (t, tt),
        λ w. inl (
            to (elim w.1 [
              | inl a ↦ inl (g.1 (w.0, a))
              | inr (inl b) ↦ inr (g'.1 (w.0, b))
              | inr (inr c) ↦ elim c [ ]
            ])),
        inr (omega arith),
      )
  or_keys_good (k ∷ l ∷ m ∷ ks) p n = absurd (omega arith)

  -- The slice at the end.
  pub final_good :
      {S : Type 0} (q : Route)
      → (S → World alg s column v i)
      → G S q
      → (xs : List ℤ) × (final alg q ≡ ok xs) × (S → In i xs)
  unfolding final
  final_good all f g = (alg.all_shards, refl, λ w. s.all_leads v i (f w).0)
  final_good nothing f g = ([], refl, g.1)
  final_good missing f g = elim g.0 [ ]
  final_good (tables xs) f g = (xs, refl, g.1)
