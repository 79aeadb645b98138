-- ===== src/Group/Weights.antt =====
-- The choice by weight of pkg/group/group.go is proportional to the weights.
use dbpack.Common.{
  ℕ, zero, suc, ◌+◌, ◌^◌, ◌≤◌, ◌<◌, ◌≡◌, refl, ◌∙◌, ap, List, [], ◌∷◌, Option, some, none, Bool,
  true, false, if◌then◌else◌, ltb, arith,
}
use native.Mathlib.Nat.{zero-add, add-zero, suc-add, add-suc}
use dbpack.Common.Int.{pos}
use dbpack.Cond.{Result, ok, err, panic, stuck}
use dbpack.Group.{Db, DbGroup, available, intn, by_weight, Picked, random_weight_master}
use dbpack.Group.Choices.{weights, total_weight-weights, by_weight_step}

-- How many numbers from `s` on, of `n` in a row, pass a test.
abbrev pub count_from : (ℕ → Bool) → ℕ → ℕ → ℕ
count_from f s zero = 0
count_from f s (suc n) = (if f s then 1 else 0) + count_from f (suc s) n

-- The sum of the weights of the databases that pass a test.
abbrev pub weight_where : (Db → ℕ) → (Db → Bool) → List Db → ℕ
weight_where weight p [] = 0
weight_where weight p (d ∷ ds) = (if p d then weight d else 0) + weight_where weight p ds

abbrev pub hits : (Db → Bool) → Option Db → Bool
hits p none = false
hits p (some d) = p d

-- A database is picked that passes a test.
abbrev pub picks : (Db → Bool) → Result Picked → Bool
picks p (ok (o, g)) = hits p o
picks p (err e) = false
picks p panic = false
picks p stuck = false

count_from-add :
    (f : ℕ → Bool) (s m n : ℕ) → count_from f s (m + n) ≡ count_from f s m + count_from f (s + m) n
count_from-add f s zero n = rw (zero-add n, add-zero s, zero-add (count_from f s n)) refl
count_from-add f s (suc m) n =
    rw (suc-add m n, add-suc s m)
      (omega (arith, count_from-add f (suc s) m n, ap (λ x. count_from f x n) (suc-add s m)))

count_from-same :
    (f h : ℕ → Bool) (s n : ℕ)
    → ((k : ℕ) → s ≤ k → k < s + n → f k ≡ h k)
    → count_from f s n ≡ count_from h s n
count_from-same f h s zero e = refl
count_from-same f h s (suc n) e =
    rw
      (
        e s (omega arith) (omega arith),
        count_from-same f h (suc s) n (λ k l m. e k (omega arith) (omega arith)),
      )
      refl

count_from-all : (b : Bool) (s n : ℕ) → count_from (λ k. b) s n ≡ (if b then n else 0)
count_from-all true s zero = refl
count_from-all false s zero = refl
count_from-all true s (suc n) = omega (arith, count_from-all true (suc s) n)
count_from-all false s (suc n) = omega (arith, count_from-all false (suc s) n)

module _ (weight : Db → ℕ) (p : Db → Bool) where
  -- What the loop finds for the index `k` from the sum `s` on.
  abbrev found : List Db → ℕ → ℕ → Bool
  found ds s k = hits p (by_weight weight (pos k) (pos s) ds)

  found-weight :
      (ds : List Db) (s : ℕ)
      → s + weights weight ds < 2 ^ 63
      → count_from (found ds s) s (weights weight ds) ≡ weight_where weight p ds
  found-weight [] s l = refl
  found-weight (d ∷ ds) s l =
      let w = weight d in
      let here =
        count_from-same (found (d ∷ ds) s) (λ k. p d) s w
          (λ k a b.
            let e : ltb k (s + w) ≡ true = ground arith in
            rw (by_weight_step weight k s d ds a (omega arith), e) refl)
        ∙ count_from-all (p d) s w in
      let behind =
        count_from-same (found (d ∷ ds) s) (found ds (s + w)) (s + w) (weights weight ds) (λ k a b.
          let e : ltb k (s + w) ≡ false = ground arith in
          rw (by_weight_step weight k s d ds (omega arith) (omega arith), e) refl)
        ∙ found-weight ds (s + w) (omega arith) in
      count_from-add (found (d ∷ ds) s) s w (weights weight ds) ∙ rw (here, behind) refl

intn_pos : (k n : ℕ) → 0 < n → intn (λ n. k) (pos n) ≡ ok (pos k)
intn_pos k zero l = absurd (omega arith)
intn_pos k (suc n) l = refl

-- For a group with at least two masters that run, whose write weights have a sum below 2^63:
-- of the numbers below the sum that can be drawn, as many make `_randomWeightMaster` pick a database
-- that passes a test as are the write weights of the running masters that pass it, whatever the test.
pub random_weight_master-weight :
    (g : DbGroup) (a b : Db) (ds : List Db) (p : Db → Bool)
    → available g.masters ≡ a ∷ b ∷ ds
    → weights Db.write_weight (a ∷ b ∷ ds) < 2 ^ 63
    → count_from
        (λ k. picks p (random_weight_master (λ n. k) g))
        0
        (weights Db.write_weight (a ∷ b ∷ ds))
      ≡ weight_where Db.write_weight p (available g.masters)
unfolding random_weight_master
random_weight_master-weight g a b ds p e small =
    let all = a ∷ b ∷ ds in
    let sum = weights Db.write_weight all in
    count_from-same (λ k. picks p (random_weight_master (λ n. k) g)) (found Db.write_weight p all 0)
      0 sum
      (λ k l m.
        rw
          (
            e,
            total_weight-weights Db.write_weight 0 all (omega (arith, small)),
            zero-add sum,
            intn_pos k sum (omega (arith, m)),
          )
          refl)
    ∙ found-weight Db.write_weight p all 0 (omega (arith, small))
    ∙ rw e refl
