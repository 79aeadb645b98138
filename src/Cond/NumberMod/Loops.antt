-- ===== src/Cond/NumberMod/Loops.antt =====
-- The loops of `NumberMod`: lemmas on the indices that they collect, and on their fuel.
use dbpack.Common.{
  ℕ, zero, suc, ◌+◌, ◌%◌, ◌^◌, ◌≤◌, ◌<◌, ◌≡◌, inl, inr, refl, sym, ◌∙◌, ap, List, [], ◌∷◌, Bool,
  true, false, ltb, arith, Bool-cases, ltb→lt, lt→ltb,
}
use mathlib.Core.Bool.{false≢true}
use native.Mathlib.Decide.{dec_lt}
use dbpack.Common.Int.{ℤ, pos, add64, rem64}
use dbpack.Cond.{ok, In}
use dbpack.Cond.Sound.{Returns, Leads}
use dbpack.Cond.NumberMod.{countdown, residues, guarded}

pub countdown-In : (j k : ℕ) → j ≤ k → In (pos j) (countdown (pos k))
unfolding countdown
countdown-In j zero h = inl (ap pos (omega arith))
countdown-In j (suc k) h = elim (dec_lt j (suc k)) [
  | yes p ↦ inr (countdown-In j k (omega arith))
  | no p ↦ inl (ap pos (omega arith))
]

pub add64-one : (a : ℕ) → suc a < 2 ^ 63 → add64 (pos a) (pos 1) ≡ pos (suc a)
unfolding add64
add64-one a h = ground arith

-- From `a` on, while the counter is below `b`: the loop ends in `b - a` rounds and collects the
-- residues of all numbers from `a` up to `b`.
module _ (test : ℤ → Bool) (b n : ℕ) (below : (k : ℕ) → test (pos k) ≡ ltb k b)
    (h : b < 2 ^ 63) where
  residues-go_on :
      (fuel a : ℕ) (xs : List ℤ)
      → a < b
      → residues fuel test n (pos (suc a)) ≡ ok xs
      → residues (suc fuel) test n (pos a) ≡ ok (pos (a % n) ∷ xs)
  unfolding residues rem64
  residues-go_on fuel a xs l e = rw (below a, lt→ltb a b l, add64-one a (omega arith), e)

  residues-In :
      (fuel a : ℕ)
      → b ≤ a + fuel
      → (xs : List ℤ) × (residues fuel test n (pos a) ≡ ok xs)
        × ((j : ℕ) → a ≤ j → j < b → In (pos (j % n)) xs)
  unfolding residues
  residues-In zero a l = ([], rw (below a) (ground arith), λ j p q. absurd (omega arith))
  residues-In (suc fuel) a l = elim (Bool-cases (ltb a b)) [
    | inl e ↦
        let less : a < b = ltb→lt a b e in
        let (xs, p, q) = residues-In fuel (suc a) (omega arith) in
        (
          pos (a % n) ∷ xs,
          residues-go_on fuel a xs less p,
          λ j lo hi. elim (dec_lt a j) [
            | yes more ↦ inr (q j more hi)
            | no same ↦ inl (ap (λ (k : ℕ). pos (k % n)) (omega arith))
          ],
        )
    | inr e ↦
        ([], rw (below a, e), λ j lo hi. absurd (false≢true (sym e ∙ lt→ltb a b (omega arith))))
  ]

  pub guarded-Leads :
      (g : Bool) (a : ℕ)
      → (g ≡ false → b ≤ a + n)
      → Returns (guarded g (residues n test n (pos a)))
        × ((j : ℕ) → a ≤ j → j < b → Leads (guarded g (residues n test n (pos a))) (pos (j % n)))
  unfolding guarded
  guarded-Leads true a k = (tt, λ j lo hi. tt)
  guarded-Leads false a k = let (xs, p, q) = residues-In n a (k refl) in rw p (tt, q)
