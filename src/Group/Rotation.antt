-- ===== src/Group/Rotation.antt =====
-- The choice by turns, `roundRobin` of pkg/group/group.go.
use dbpack.Common.{
  ℕ, zero, suc, ◌+◌, ◌%◌, ◌^◌, ◌≤◌, ◌<◌, ◌≡◌, inl, inr, refl, sym, ◌∙◌, ap, List, [], ◌∷◌, some,
  true, Member, length, arith,
}
use native.Mathlib.Nat.{zero-add, add-zero, mod-lt, mod-eq_of_lt, mod_self, add-mod-mod}
use dbpack.Common.Int.{ℤ, pos, negsuc, add64, rem64}
use dbpack.Cond.{Result, ok, ◌>>=◌}
use dbpack.Group.{Db, DbGroup, available, nth, Picked, round_robin_master, pick_round_robin}
use dbpack.Group.Choices.{add64-pos}

-- What is picked after `k` other choices.
abbrev pub turn : (DbGroup → Result Picked) → ℕ → DbGroup → Result Picked
turn choice zero g = choice g
turn choice (suc k) g = choice g >>= λ (d, h). turn choice k h

nth-found : (ds : List Db) (d : Db) → Member d ds → (j : ℕ) × (j < length ds) × (nth ds j ≡ ok d)
nth-found [] d m = absurd m
nth-found (x ∷ ds) d (inl e) = (0, omega arith, rw e refl)
nth-found (x ∷ ds) d (inr m) = let (j, l, e) = nth-found ds d m in (suc j, omega arith, e)

nth-in : (ds : List Db) (i : ℕ) → i < length ds → (d : Db) × (nth ds i ≡ ok d)
nth-in [] i l = absurd (omega arith)
nth-in (d ∷ ds) zero l = (d, refl)
nth-in (d ∷ ds) (suc i) l = nth-in ds i (omega arith)

add-mod_self : (c n : ℕ) → (c + n) % n ≡ c % n
add-mod_self c n = sym (add-mod-mod c n n) ∙ rw (mod_self n, add-zero c) refl

residue_next : (c n j k : ℕ) → k < n → (c + k) % n ≡ j → (i : ℕ) × (i < n) × ((suc c + i) % n ≡ j)
residue_next c n j (suc k) l e = (k, omega arith, ap (λ x. x % n) (omega arith) ∙ e)
residue_next c zero j zero l e = absurd (omega arith)
residue_next c (suc n) j zero l e =
    let same : suc c + n ≡ c + suc n = omega arith in
    (
      n,
      omega arith,
      ap (λ x. x % suc n) same
          ∙ add-mod_self c (suc n)
          ∙ ap (λ x. x % suc n) (sym (add-zero c))
          ∙ e,
    )

-- Of `n` numbers in a row one has the remainder `j`.
residue : (c n j : ℕ) → j < n → (k : ℕ) × (k < n) × ((c + k) % n ≡ j)
residue zero n j l = (j, l, rw (zero-add j) (mod-eq_of_lt l))
residue (suc c) n j l = let (k, m, e) = residue c n j l in residue_next c n j k m e

abbrev after : DbGroup → DbGroup
after g = record g { write_counter = add64 g.write_counter (pos 1) }

module _ (a b : Db) (ds : List Db) where
  abbrev all : List Db
  all = a ∷ b ∷ ds

  round_robin_step :
      (g : DbGroup) (c : ℕ) (d : Db)
      → available g.masters ≡ all
      → g.write_counter ≡ pos c
      → nth all (c % length all) ≡ ok d
      → round_robin_master g ≡ ok (some d, after g)
  unfolding round_robin_master
  round_robin_step g c d e q h =
      let r : rem64 g.write_counter (length all) ≡ pos (c % length all) =
        ap (λ z. rem64 z (length all)) q ∙ unfold rem64 in refl in
      rw (e, r, h) refl

  turn-nth :
      (k : ℕ) (g : DbGroup) (c : ℕ) (d : Db)
      → available g.masters ≡ all
      → g.write_counter ≡ pos c
      → c + k < 2 ^ 63
      → nth all ((c + k) % length all) ≡ ok d
      → (h : DbGroup) × (turn round_robin_master k g ≡ ok (some d, h))
  turn-nth zero g c d e q l h = (
    after g,
    round_robin_step g c d e q (ap (λ x. nth all (x % length all)) (sym (add-zero c)) ∙ h),
  )
  turn-nth (suc k) g c d e q l h =
      let (x, i) = nth-in all (c % length all) (mod-lt c {m = length all} (omega arith)) in
      let q' = ap (λ z. add64 z (pos 1)) q ∙ add64-pos c 1 (omega arith) in
      let same : c + 1 + k ≡ c + suc k = omega arith in
      let (y, t) =
        turn-nth k (after g) (c + 1) d e q' (omega arith)
          (ap (λ x. nth all (x % length all)) same ∙ h) in
      (y, rw (round_robin_step g c x e q i) t)

  rotates :
      (g : DbGroup) (c : ℕ) (d : Db)
      → available g.masters ≡ all
      → g.write_counter ≡ pos c
      → c + length all ≤ 2 ^ 63
      → Member d all
      → (k : ℕ) × (h : DbGroup) × (k < length all) × (turn round_robin_master k g ≡ ok (some d, h))
  rotates g c d e q l m =
      let (j, i, f) = nth-found all d m in
      let (k, s, t) = residue c (length all) j i in
      let (h, r) = turn-nth k g c d e q (omega arith) (ap (nth all) t ∙ f) in (k, h, s, r)

rotates_any :
    (all : List Db) (g : DbGroup) (c : ℕ) (d : Db)
    → available g.masters ≡ all
    → g.write_counter ≡ pos c
    → c + length all ≤ 2 ^ 63
    → Member d all
    → (k : ℕ) × (h : DbGroup) × (k < length all) × (turn round_robin_master k g ≡ ok (some d, h))
unfolding round_robin_master
rotates_any [] g c d e q l m = absurd m
rotates_any (a ∷ []) g c d e q l m = elim m [
  | inl f ↦ (0, g, omega arith, rw (e, f) refl)
  | inr n ↦ absurd n
]
rotates_any (a ∷ b ∷ ds) g c d e q l m = rotates a b ds g c d e q l m

-- For a group of which `n` masters run, with a counter of writes that is not negative and at least
-- `n` below 2^63: each of these masters is picked by one of the next `n` calls of
-- `_roundRobinMaster`.
pub round_robin_master-reaches :
    (g : DbGroup) (c : ℕ) (d : Db)
    → g.write_counter ≡ pos c
    → c + length (available g.masters) ≤ 2 ^ 63
    → Member d (available g.masters)
    → (k : ℕ) × (h : DbGroup) × (k < length (available g.masters))
      × (turn round_robin_master k g ≡ ok (some d, h))
round_robin_master-reaches g c d q l m = rotates_any (available g.masters) g c d refl q l m

rem64-one : (z : ℤ) → rem64 z 1 ≡ pos 0
unfolding rem64
rem64-one (pos n) = ap pos (omega arith)
rem64-one (negsuc n) = let e : suc n % 1 ≡ 0 = omega arith in rw e refl

first_slave_step :
    (g : DbGroup) (m a b : Db) (ds : List Db)
    → g.masters ≡ m ∷ []
    → available g.slaves ≡ a ∷ b ∷ ds
    → pick_round_robin g true
      ≡ ok (some a, record g { read_counter = add64 g.read_counter (pos 1) })
unfolding pick_round_robin
first_slave_step g m a b ds e f =
    let one : length g.masters ≡ 1 = ap length e in rw (f, one, rem64-one g.read_counter) refl

-- For a group with one master and at least two slaves that run, whatever its counters: `roundRobin`
-- with the flag for slaves picks the first of these slaves at every call, however many there were
-- before.
pub pick_round_robin-first_slave :
    (k : ℕ) (g : DbGroup) (m a b : Db) (ds : List Db)
    → g.masters ≡ m ∷ []
    → available g.slaves ≡ a ∷ b ∷ ds
    → (h : DbGroup) × (turn (λ x. pick_round_robin x true) k g ≡ ok (some a, h))
pick_round_robin-first_slave zero g m a b ds e f =
    (record g { read_counter = add64 g.read_counter (pos 1) }, first_slave_step g m a b ds e f)
pick_round_robin-first_slave (suc k) g m a b ds e f =
    let g' = record g { read_counter = add64 g.read_counter (pos 1) } in
    let (h, t) = pick_round_robin-first_slave k g' m a b ds e f in
    (h, rw (first_slave_step g m a b ds e f) t)
