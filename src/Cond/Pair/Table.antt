-- ===== src/Cond/Pair/Table.antt =====
-- The table of `And`, case by case, for two comparisons of one column.
use dbpack.Common.{ℕ, ◌≡◌, ◌≢◌, refl, List, ◌||◌, arith}
use dbpack.Common.Int.{ℤ, ltb_ℤ, ◌==ℤ◌, IsInt64, eq_of_parts}
use dbpack.Value.{same_value}
use dbpack.Cond.{
  Result, Op, eq, ne, lt, le, gt, ge, like, KeyCondition, Route, ShardingAlgorithm, Holds, IsOrder,
}
use dbpack.Cond.Sound.{IsSound, IsLower, IsUpper}
use dbpack.Cond.Pair.{
  key_route, later, same, earlier, and_eq, and_lt, and_le, and_gt, and_ge, pair_and,
}
use dbpack.Cond.Pair.Sound.{
  comparison, later-ltb, earlier-ltb, same-eq, same_value-eq, Serves, serves-if, key_serves,
  range_serves, Row,
}

-- The one pair of comparisons on which `And` ends in nil: `column >= z AND column <= z`.
abbrev pub IsPoint : Op → Op → ℤ → ℤ → Type 0
IsPoint ge le y z = y ≡ z
IsPoint _ _ y z = ⊥

module _ (alg : ShardingAlgorithm) (s : IsSound alg) (c : List ℕ) (v w i : ℤ) (y z : ℤ)
    (iy : IsInt64 y) (iz : IsInt64 z) (fy : s.Fits y) (fz : s.Fits z) where
  -- The rows that both comparisons select.
  abbrev Both : Op → Op → Type 0
  Both o o' = Row alg s c v w i × Holds o y w × Holds o' z w

  abbrev Case : (KeyCondition → KeyCondition → Op → Result Route) → Op → Op → Type 0
  Case f o o' = Serves alg s (f (comparison c o y) (comparison c o' z) o') (Both o o') i

  first : (o o' : Op) → IsOrder o → Serves alg s (key_route alg (comparison c o y)) (Both o o') i
  first o o' d = let (r, h) = key_serves alg s c v w i o y d fy in (r, λ p. h (p.0, p.1))

  second : (o o' : Op) → IsOrder o' → Serves alg s (key_route alg (comparison c o' z)) (Both o o') i
  second o o' d = let (r, h) = key_serves alg s c v w i o' z d fz in (r, λ p. h (p.0, p.2))

  -- `ShardRange(k2, k1)`
  swapped :
      (o' o : Op)
      → IsLower o'
      → IsUpper o
      → Serves alg s (alg.shard_range (comparison c o' z) (comparison c o y)) (Both o o') i
  swapped o' o l u =
      let (r, h) = range_serves alg s c v w i o' o z y l u fz fy in (r, λ p. h (p.0, p.2, p.1))

  -- What the tests of `And` say of `y` and `z`.
  facts :
      (o o' : Op)
      → let k1 = comparison c o y in
        let k2 = comparison c o' z in
        (later k1 k2 ≡ ltb_ℤ y z)
        × (earlier k1 k2 ≡ ltb_ℤ z y)
        × (same k1 k2 ≡ (y ==ℤ z))
        × (same_value k1.value k2.value ≡ (y ==ℤ z))
  facts o o' =
      let k1 = comparison c o y in
      let k2 = comparison c o' z in
      (
        later-ltb k1 k2 y z refl refl iy iz,
        earlier-ltb k1 k2 y z refl refl iy iz,
        same-eq k1 k2 y z refl refl iy iz,
        same_value-eq k1 k2 y z refl refl iy iz,
      )

  eq_eq : Case (and_eq alg) eq eq
  unfolding and_eq
  eq_eq =
      serves-if alg s (same_value (comparison c eq y).value (comparison c eq z).value) _ _
        (Both eq eq) i (λ t. first eq eq tt) (λ t. (tt, λ p. absurd (ground (arith, facts eq eq))))

  eq_lt : Case (and_eq alg) eq lt
  unfolding and_eq
  eq_lt =
      serves-if alg s
        (earlier (comparison c eq y) (comparison c lt z)
          || same (comparison c eq y) (comparison c lt z))
        _ _ (Both eq lt) i (λ t. (tt, λ p. absurd (ground (arith, facts eq lt))))
        (λ t. first eq lt tt)

  eq_le : Case (and_eq alg) eq le
  unfolding and_eq
  eq_le =
      serves-if alg s (earlier (comparison c eq y) (comparison c le z)) _ _ (Both eq le) i
        (λ t. (tt, λ p. absurd (ground (arith, facts eq le)))) (λ t. first eq le tt)

  eq_gt : Case (and_eq alg) eq gt
  unfolding and_eq
  eq_gt =
      serves-if alg s
        (later (comparison c eq y) (comparison c gt z)
          || same (comparison c eq y) (comparison c gt z))
        _ _ (Both eq gt) i (λ t. (tt, λ p. absurd (ground (arith, facts eq gt))))
        (λ t. first eq gt tt)

  eq_ge : Case (and_eq alg) eq ge
  unfolding and_eq
  eq_ge =
      serves-if alg s (later (comparison c eq y) (comparison c ge z)) _ _ (Both eq ge) i
        (λ t. (tt, λ p. absurd (ground (arith, facts eq ge)))) (λ t. first eq ge tt)

  lt_eq : Case (and_lt alg) lt eq
  unfolding and_lt
  lt_eq =
      serves-if alg s
        (later (comparison c lt y) (comparison c eq z)
          || same (comparison c lt y) (comparison c eq z))
        _ _ (Both lt eq) i (λ t. (tt, λ p. absurd (ground (arith, facts lt eq))))
        (λ t. second lt eq tt)

  lt_gt : Case (and_lt alg) lt gt
  unfolding and_lt
  lt_gt =
      serves-if alg s
        (later (comparison c lt y) (comparison c gt z)
          || same (comparison c lt y) (comparison c gt z))
        _ _ (Both lt gt) i (λ t. (tt, λ p. absurd (ground (arith, facts lt gt))))
        (λ t. swapped gt lt tt tt)

  lt_ge : Case (and_lt alg) lt ge
  unfolding and_lt
  lt_ge =
      serves-if alg s
        (later (comparison c lt y) (comparison c ge z)
          || same (comparison c lt y) (comparison c ge z))
        _ _ (Both lt ge) i (λ t. (tt, λ p. absurd (ground (arith, facts lt ge))))
        (λ t. swapped ge lt tt tt)

  lt_lt : Case (and_lt alg) lt lt
  unfolding and_lt
  lt_lt =
      serves-if alg s (earlier (comparison c lt y) (comparison c lt z)) _ _ (Both lt lt) i
        (λ t. second lt lt tt) (λ t. first lt lt tt)

  lt_le : Case (and_lt alg) lt le
  unfolding and_lt
  lt_le =
      serves-if alg s
        (later (comparison c lt y) (comparison c le z)
          || same (comparison c lt y) (comparison c le z))
        _ _ (Both lt le) i (λ t. first lt le tt) (λ t. second lt le tt)

  le_eq : Case (and_le alg) le eq
  unfolding and_le
  le_eq =
      serves-if alg s (later (comparison c le y) (comparison c eq z)) _ _ (Both le eq) i
        (λ t. (tt, λ p. absurd (ground (arith, facts le eq)))) (λ t. second le eq tt)

  le_lt : Case (and_le alg) le lt
  unfolding and_le
  le_lt =
      serves-if alg s (later (comparison c le y) (comparison c lt z)) _ _ (Both le lt) i
        (λ t. first le lt tt) (λ t. second le lt tt)

  le_le : Case (and_le alg) le le
  unfolding and_le
  le_le =
      serves-if alg s (earlier (comparison c le y) (comparison c le z)) _ _ (Both le le) i
        (λ t. second le le tt) (λ t. first le le tt)

  le_gt : Case (and_le alg) le gt
  unfolding and_le
  le_gt =
      serves-if alg s
        (later (comparison c le y) (comparison c gt z)
          || same (comparison c le y) (comparison c gt z))
        _ _ (Both le gt) i (λ t. (tt, λ p. absurd (ground (arith, facts le gt))))
        (λ t. swapped gt le tt tt)

  gt_eq : Case (and_gt alg) gt eq
  unfolding and_gt
  gt_eq =
      serves-if alg s (later (comparison c gt y) (comparison c eq z)) _ _ (Both gt eq) i
        (λ t. second gt eq tt) (λ t. (tt, λ p. absurd (ground (arith, facts gt eq))))

  gt_gt : Case (and_gt alg) gt gt
  unfolding and_gt
  gt_gt =
      serves-if alg s (later (comparison c gt y) (comparison c gt z)) _ _ (Both gt gt) i
        (λ t. second gt gt tt) (λ t. first gt gt tt)

  gt_ge : Case (and_gt alg) gt ge
  unfolding and_gt
  gt_ge =
      serves-if alg s (later (comparison c gt y) (comparison c ge z)) _ _ (Both gt ge) i
        (λ t. second gt ge tt) (λ t. first gt ge tt)

  gt_lt : Case (and_gt alg) gt lt
  unfolding and_gt
  gt_lt =
      serves-if alg s
        (earlier (comparison c gt y) (comparison c lt z)
          || same (comparison c gt y) (comparison c lt z))
        _ _ (Both gt lt) i (λ t. (tt, λ p. absurd (ground (arith, facts gt lt))))
        (λ t. range_serves alg s c v w i gt lt y z tt tt fy fz)

  gt_le : Case (and_gt alg) gt le
  unfolding and_gt
  gt_le =
      serves-if alg s
        (earlier (comparison c gt y) (comparison c le z)
          || same (comparison c gt y) (comparison c le z))
        _ _ (Both gt le) i (λ t. (tt, λ p. absurd (ground (arith, facts gt le))))
        (λ t. range_serves alg s c v w i gt le y z tt tt fy fz)

  ge_eq : Case (and_ge alg) ge eq
  unfolding and_ge
  ge_eq =
      serves-if alg s
        (later (comparison c ge y) (comparison c eq z)
          || same (comparison c ge y) (comparison c eq z))
        _ _ (Both ge eq) i (λ t. second ge eq tt)
        (λ t. (tt, λ p. absurd (ground (arith, facts ge eq))))

  ge_gt : Case (and_ge alg) ge gt
  unfolding and_ge
  ge_gt =
      serves-if alg s
        (later (comparison c ge y) (comparison c gt z)
          || same (comparison c ge y) (comparison c gt z))
        _ _ (Both ge gt) i (λ t. second ge gt tt) (λ t. first ge gt tt)

  ge_ge : Case (and_ge alg) ge ge
  unfolding and_ge
  ge_ge =
      serves-if alg s (later (comparison c ge y) (comparison c ge z)) _ _ (Both ge ge) i
        (λ t. second ge ge tt) (λ t. first ge ge tt)

  ge_lt : Case (and_ge alg) ge lt
  unfolding and_ge
  ge_lt =
      serves-if alg s
        (earlier (comparison c ge y) (comparison c lt z)
          || same (comparison c ge y) (comparison c lt z))
        _ _ (Both ge lt) i (λ t. (tt, λ p. absurd (ground (arith, facts ge lt))))
        (λ t. range_serves alg s c v w i ge lt y z tt tt fy fz)

  le_ge : Case (and_le alg) le ge
  unfolding and_le
  le_ge =
      let k1 = comparison c le y in
      let k2 = comparison c ge z in
      serves-if alg s (later k1 k2) _ _ (Both le ge) i
        (λ t. (tt, λ p. absurd (ground (arith, facts le ge))))
        (λ t.
          serves-if alg s (same k1 k2) _ _ (Both le ge) i
            (λ e.
              let (r, h) = key_serves alg s c v w i eq y tt fy in
              (r, λ p. h (p.0, eq_of_parts w y (ground (arith, facts le ge)))))
            (λ e. swapped ge le tt tt))

  ge_le : y ≢ z → Case (and_ge alg) ge le
  unfolding and_ge
  ge_le d =
      let k1 = comparison c ge y in
      let k2 = comparison c le z in
      serves-if alg s (earlier k1 k2) _ _ (Both ge le) i
        (λ t. (tt, λ p. absurd (ground (arith, facts ge le))))
        (λ t.
          serves-if alg s (same k1 k2) _ _ (Both ge le) i
            (λ e. absurd (d (eq_of_parts y z (ground (arith, facts ge le)))))
            (λ e. range_serves alg s c v w i ge le y z tt tt fy fz))

  -- All pairs of comparisons.
  pub pair_serves :
      (o o' : Op)
      → IsOrder o
      → IsOrder o'
      → ¬ (IsPoint o o' y z)
      → Serves alg s (pair_and alg (comparison c o y) (comparison c o' z)) (Both o o') i
  unfolding pair_and
  pair_serves eq eq d d' n = eq_eq
  pair_serves eq lt d d' n = eq_lt
  pair_serves eq le d d' n = eq_le
  pair_serves eq gt d d' n = eq_gt
  pair_serves eq ge d d' n = eq_ge
  pair_serves eq ne d d' n = elim d' [ ]
  pair_serves eq like d d' n = elim d' [ ]
  pair_serves lt eq d d' n = lt_eq
  pair_serves lt lt d d' n = lt_lt
  pair_serves lt le d d' n = lt_le
  pair_serves lt gt d d' n = lt_gt
  pair_serves lt ge d d' n = lt_ge
  pair_serves lt ne d d' n = elim d' [ ]
  pair_serves lt like d d' n = elim d' [ ]
  pair_serves le eq d d' n = le_eq
  pair_serves le lt d d' n = le_lt
  pair_serves le le d d' n = le_le
  pair_serves le gt d d' n = le_gt
  pair_serves le ge d d' n = le_ge
  pair_serves le ne d d' n = elim d' [ ]
  pair_serves le like d d' n = elim d' [ ]
  pair_serves gt eq d d' n = gt_eq
  pair_serves gt lt d d' n = gt_lt
  pair_serves gt le d d' n = gt_le
  pair_serves gt gt d d' n = gt_gt
  pair_serves gt ge d d' n = gt_ge
  pair_serves gt ne d d' n = elim d' [ ]
  pair_serves gt like d d' n = elim d' [ ]
  pair_serves ge eq d d' n = ge_eq
  pair_serves ge lt d d' n = ge_lt
  pair_serves ge le d d' n = ge_le n
  pair_serves ge gt d d' n = ge_gt
  pair_serves ge ge d d' n = ge_ge
  pair_serves ge ne d d' n = elim d' [ ]
  pair_serves ge like d d' n = elim d' [ ]
  pair_serves ne o' d d' n = elim d [ ]
  pair_serves like o' d d' n = elim d [ ]
