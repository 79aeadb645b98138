-- ===== src/Group/Running.antt =====
-- A choice of pkg/group/group.go gives a database that runs.
use dbpack.Common.{
  ℕ, zero, suc, ◌%◌, ◌^◌, ◌≤◌, ◌<◌, ◌≡◌, ◌≢◌, ◌⊎◌, inl, inr, refl, List, [], ◌∷◌, ◌++◌, some, Bool,
  true, false, All, All-map, length, arith,
}
use native.Mathlib.Nat.{mod-lt, zero-add}
use dbpack.Common.Int.{ℤ, pos, add64, rem64}
use dbpack.Cond.{Result, ok, ◌>>=◌}
use dbpack.Group.{
  Db, Algorithm, random, round_robin, random_weight, other, DbGroup, available, nth, at, intn,
  index_of, by_weight, Picked, picked, random_among, random_master, random_slave, pick_random,
  weight_among, random_weight_master, weight_of_all, pick_random_weight, next_master,
  round_robin_master, next_slave, pick_round_robin, pick_by, pick,
}
use dbpack.Group.Choices.{
  Runs, available-Runs, All-append, nth-All, weights, total_weight-weights, by_weight-All,
}

-- `rand.Intn(n)` lies below `n`.
abbrev pub Draws : (ℕ → ℕ) → Type 0
Draws draw = (n : ℕ) → draw (suc n) < suc n

-- A database of the group that runs, a slave only for reads.
abbrev pub Serves : DbGroup → Bool → Db → Type 0
Serves g slave d = Runs g.masters d ⊎ (slave ≡ true) × Runs g.slaves d

-- Some database is picked, which satisfies `P`.
abbrev pub Picks : (Db → Type 0) → Result Picked → Type 0
Picks P out = (d : Db) × (g : DbGroup) × (out ≡ ok (some d, g)) × P d

-- The weights can be drawn from.
abbrev pub Weighed : ℕ → Type 0
Weighed n = (0 < n) × (n < 2 ^ 63)

-- What each algorithm needs beside a master that runs.
abbrev pub Ready : DbGroup → Bool → Algorithm → Type 0
Ready g slave random = Unit
Ready g false round_robin = (c : ℕ) × (g.write_counter ≡ pos c)
Ready g true round_robin =
    ((c : ℕ) × (g.write_counter ≡ pos c))
    × ((c : ℕ) × (g.read_counter ≡ pos c))
    × (length g.masters ≤ length (available g.slaves))
Ready g false random_weight = Weighed (weights Db.write_weight (available g.masters))
Ready g true random_weight =
    Weighed (weights Db.read_weight (available g.masters ++ available g.slaves))
    × (available g.slaves ≢ [])
Ready g slave other = ⊥

module _ {P : Db → Type 0} where
  nth-Picks :
      (h : DbGroup) (ds : List Db) (i : ℕ)
      → i < length ds
      → All P ds
      → Picks P (nth ds i >>= picked h)
  nth-Picks h ds i l a = let (d, e, p) = nth-All ds i l a in (d, h, rw e refl, p)

  random_among-Picks :
      (draw : ℕ → ℕ) (g : DbGroup) (ds : List Db)
      → Draws draw
      → ds ≢ []
      → All P ds
      → Picks P (random_among draw g ds)
  random_among-Picks draw g [] fair n a = absurd (n refl)
  random_among-Picks draw g (d ∷ []) fair n a = (d, g, refl, a.0)
  random_among-Picks draw g (d ∷ e ∷ ds) fair n a =
      nth-Picks g (d ∷ e ∷ ds) (draw (suc (suc (length ds)))) (fair (suc (length ds))) a

  random_slave-Picks :
      (draw : ℕ → ℕ) (g : DbGroup) (ds : List Db)
      → Draws draw
      → Picks P (random_master draw g)
      → All P ds
      → Picks P (random_slave draw g ds)
  random_slave-Picks draw g [] fair m a = m
  random_slave-Picks draw g (d ∷ []) fair m a = (d, g, refl, a.0)
  random_slave-Picks draw g (d ∷ e ∷ ds) fair m a =
      nth-Picks g (d ∷ e ∷ ds) (draw (suc (suc (length ds)))) (fair (suc (length ds))) a

  -- The remainder of a counter that is not negative lies in range.
  index-Picks :
      (h : DbGroup) (z : ℤ) (c n : ℕ) (ds : List Db)
      → z ≡ pos c
      → 0 < n
      → n ≤ length ds
      → All P ds
      → Picks P (index_of z n >>= λ i. at ds i >>= picked h)
  unfolding rem64
  index-Picks h z c zero ds e l m a = absurd (omega arith)
  index-Picks h z c (suc n) ds e l m a =
      rw e (nth-Picks h ds (c % suc n) (omega (arith, mod-lt c {m = suc n} (omega arith))) a)

  next_master-Picks :
      (g : DbGroup) (c : ℕ) (ds : List Db)
      → g.write_counter ≡ pos c
      → ds ≢ []
      → All P ds
      → Picks P (next_master g ds)
  next_master-Picks g c [] e n a = absurd (n refl)
  next_master-Picks g c (d ∷ []) e n a = (d, g, refl, a.0)
  next_master-Picks g c (d ∷ b ∷ ds) e n a =
      index-Picks (record g { write_counter = add64 g.write_counter (pos 1) }) g.write_counter c
        (length (d ∷ b ∷ ds)) (d ∷ b ∷ ds) e (omega arith) (omega arith) a

  next_slave-Picks :
      (g : DbGroup) (c : ℕ) (ds : List Db)
      → g.read_counter ≡ pos c
      → Picks P (round_robin_master g)
      → 0 < length g.masters
      → length g.masters ≤ length ds
      → All P ds
      → Picks P (next_slave g ds)
  next_slave-Picks g c [] e m l k a = m
  next_slave-Picks g c (d ∷ []) e m l k a = (d, g, refl, a.0)
  next_slave-Picks g c (d ∷ b ∷ ds) e m l k a =
      index-Picks (record g { read_counter = add64 g.read_counter (pos 1) }) g.read_counter c
        (length g.masters) (d ∷ b ∷ ds) e l k a

  -- A draw below the total weight finds a database.
  draw-by_weight :
      (draw : ℕ → ℕ) (weight : Db → ℕ) (n : ℕ) (ds : List Db)
      → Draws draw
      → n ≡ weights weight ds
      → Weighed n
      → All P ds
      → (k : ℕ) × (d : Db) × (intn draw (pos n) ≡ ok (pos k))
        × (by_weight weight (pos k) (pos 0) ds ≡ some d)
        × P d
  draw-by_weight draw weight zero ds fair e w a = absurd (omega (arith, w.0))
  draw-by_weight draw weight (suc n) ds fair e w a =
      let (d, q, p) =
        by_weight-All weight (draw (suc n)) 0 ds (omega arith) (omega (arith, fair n, e))
          (omega (arith, w.1, e)) a in
      (draw (suc n), d, refl, q, p)

  weight_among-Picks :
      (draw : ℕ → ℕ) (g : DbGroup) (ds : List Db)
      → Draws draw
      → Weighed (weights Db.write_weight ds)
      → All P ds
      → Picks P (weight_among draw g ds)
  weight_among-Picks draw g [] fair w a = absurd (omega (arith, w.0))
  weight_among-Picks draw g (d ∷ []) fair w a = (d, g, refl, a.0)
  weight_among-Picks draw g (d ∷ b ∷ ds) fair w a =
      let (k, c, e, q, p) =
        draw-by_weight draw Db.write_weight (weights Db.write_weight (d ∷ b ∷ ds)) (d ∷ b ∷ ds) fair
          refl w a in
      (
        c,
        g,
        rw
            (
              total_weight-weights Db.write_weight 0 (d ∷ b ∷ ds) (omega (arith, w.1)),
              zero-add (weights Db.write_weight (d ∷ b ∷ ds)),
              e,
              q,
            )
            refl,
        p,
      )

  weight_of_all-Picks :
      (draw again : ℕ → ℕ) (g : DbGroup) (ds slaves : List Db)
      → Draws draw
      → Weighed (weights Db.read_weight ds)
      → slaves ≢ []
      → All P slaves
      → All P ds
      → Picks P (weight_of_all draw again g ds slaves)
  weight_of_all-Picks draw again g [] slaves fair w n b a = absurd (omega (arith, w.0))
  weight_of_all-Picks draw again g (d ∷ []) [] fair w n b a = absurd (n refl)
  weight_of_all-Picks draw again g (d ∷ []) (c ∷ slaves) fair w n b a = (c, g, refl, b.0)
  weight_of_all-Picks draw again g (d ∷ c ∷ ds) slaves fair w n b a =
      let all = d ∷ c ∷ ds in
      let (k, x, e, q, p) =
        draw-by_weight draw Db.read_weight (weights Db.read_weight all) all fair refl w a in
      (
        x,
        g,
        rw
            (
              total_weight-weights Db.read_weight 0 all (omega (arith, w.1)),
              zero-add (weights Db.read_weight all),
              e,
              q,
            )
            refl,
        p,
      )

some_master : (ds : List Db) → available ds ≢ [] → 0 < length ds
unfolding available
some_master [] n = absurd (n refl)
some_master (d ∷ ds) n = omega arith

module _ (draw again : ℕ → ℕ) (g : DbGroup) (fair : Draws draw) (n : available g.masters ≢ []) where
  masters-Serves : (slave : Bool) → All (Serves g slave) (available g.masters)
  masters-Serves slave = All-map (available g.masters) (λ x h. inl h) (available-Runs g.masters)

  slaves-Serves : All (Serves g true) (available g.slaves)
  slaves-Serves = All-map (available g.slaves) (λ x h. inr (refl, h)) (available-Runs g.slaves)

  random_master-Picks : (slave : Bool) → Picks (Serves g slave) (random_master draw g)
  unfolding random_master
  random_master-Picks slave =
      random_among-Picks draw g (available g.masters) fair n (masters-Serves slave)

  round_robin_master-Picks :
      (slave : Bool) (c : ℕ)
      → g.write_counter ≡ pos c
      → Picks (Serves g slave) (round_robin_master g)
  unfolding round_robin_master
  round_robin_master-Picks slave c e =
      next_master-Picks g c (available g.masters) e n (masters-Serves slave)

  pick_by-Picks :
      (slave : Bool) (a : Algorithm)
      → Ready g slave a
      → Picks (Serves g slave) (pick_by draw again g slave a)
  unfolding pick_random pick_round_robin pick_random_weight random_weight_master
  pick_by-Picks false random r = random_master-Picks false
  pick_by-Picks true random r =
      random_slave-Picks draw g (available g.slaves) fair (random_master-Picks true) slaves-Serves
  pick_by-Picks false round_robin (c, e) = round_robin_master-Picks false c e
  pick_by-Picks true round_robin ((c, e), (c', e'), l) =
      next_slave-Picks g c' (available g.slaves) e' (round_robin_master-Picks true c e)
        (some_master g.masters n) l slaves-Serves
  pick_by-Picks false random_weight w =
      weight_among-Picks draw g (available g.masters) fair w (masters-Serves false)
  pick_by-Picks true random_weight (w, m) =
      weight_of_all-Picks draw again g (available g.masters ++ available g.slaves)
        (available g.slaves) fair w m slaves-Serves
        (All-append (Serves g true) (available g.masters) (available g.slaves) (masters-Serves true)
          slaves-Serves)
  pick_by-Picks false other r = absurd r
  pick_by-Picks true other r = absurd r

  -- For a group with a master that runs, whose counters and weights are as its algorithm needs them
  -- (counters that are not negative; weights whose sum is positive and below 2^63; for reads by turns
  -- no more masters than running slaves, and by weight some running slave), and draws in range:
  -- `pick` returns a database of the group that runs, which is a master unless the context has the
  -- flag for slaves.
  pub pick-Serves :
      (slave : Bool) → Ready g slave g.algorithm → Picks (Serves g slave) (pick draw again g slave)
  unfolding pick
  pick-Serves slave r = pick_by-Picks slave g.algorithm r
