-- ===== src/Group/Choices.antt =====
-- What the choices of pkg/group/group.go come down to, where an index is in range.
use dbpack.Common.{
  ℕ, zero, suc, ◌+◌, ◌^◌, ◌≤◌, ◌<◌, ◌≡◌, inl, inr, refl, ◌∙◌, ap, List, [], ◌∷◌, ◌++◌, some, true,
  All, All-map, Member, Bool-cases, if◌then◌else◌, length, ltb, arith,
}
use native.Mathlib.Nat.{add-zero}
use dbpack.Common.Int.{pos, leb_ℤ, ltb_ℤ, add64, add64_parts, eq_of_parts}
use dbpack.Cond.{ok}
use dbpack.Group.{Status, running, unknown, Db, is_running, available, nth, total_weight, by_weight}

-- A database that runs, of a slice.
abbrev pub Runs : List Db → Db → Type 0
Runs ds d = (d.status ≡ running) × Member d ds

is_running-true : (s : Status) → is_running s ≡ true → s ≡ running
is_running-true unknown e = cc
is_running-true running e = refl

pub available-Runs : (ds : List Db) → All (Runs ds) (available ds)
unfolding available
available-Runs [] = tt
available-Runs (d ∷ ds) =
    let rest = All-map (available ds) (λ x h. (h.0, inr h.1)) (available-Runs ds) in
    elim (Bool-cases (is_running d.status)) [
      | inl e ↦ rw e ((is_running-true d.status e, inl refl), rest)
      | inr e ↦ rw e rest
    ]

pub All-append : (P : Db → Type 0) (xs ys : List Db) → All P xs → All P ys → All P (xs ++ ys)
All-append P [] ys h k = k
All-append P (x ∷ xs) ys h k = (h.0, All-append P xs ys h.1 k)

pub nth-All :
    {P : Db → Type 0} (ds : List Db) (i : ℕ)
    → i < length ds
    → All P ds
    → (d : Db) × (nth ds i ≡ ok d) × P d
nth-All [] i l h = absurd (omega arith)
nth-All (d ∷ ds) zero l h = (d, refl, h.0)
nth-All (d ∷ ds) (suc i) l h = nth-All ds i (omega arith) h.1

pub add64-pos : (a b : ℕ) → a + b < 2 ^ 63 → add64 (pos a) (pos b) ≡ pos (a + b)
add64-pos a b l =
    let e = add64_parts (pos a) (pos b) (omega arith) (omega arith) in
    eq_of_parts (add64 (pos a) (pos b)) (pos (a + b)) (omega (arith, e))

module _ (weight : Db → ℕ) where
  -- The sum of the weights, as a natural number.
  abbrev pub weights : List Db → ℕ
  weights [] = 0
  weights (d ∷ ds) = weight d + weights ds

  pub total_weight-weights :
      (s : ℕ) (ds : List Db)
      → s + weights ds < 2 ^ 63
      → total_weight weight (pos s) ds ≡ pos (s + weights ds)
  unfolding total_weight
  total_weight-weights s [] l = ap pos (omega arith)
  total_weight-weights s (d ∷ ds) l =
      rw (add64-pos s (weight d) (omega arith))
        (total_weight-weights (s + weight d) ds (omega arith) ∙ ap pos (omega arith))

  -- A database takes the indices of its part of the weights.
  pub by_weight_step :
      (k s : ℕ) (d : Db) (ds : List Db)
      → s ≤ k
      → s + weight d < 2 ^ 63
      → by_weight weight (pos k) (pos s) (d ∷ ds) ≡ (
          if ltb k (s + weight d) then some d else by_weight weight (pos k) (pos (s + weight d)) ds)
  unfolding by_weight
  by_weight_step k s d ds l m =
      let e : leb_ℤ (pos s) (pos k) ≡ true = ground arith in
      let f : ltb_ℤ (pos k) (pos (s + weight d)) ≡ ltb k (s + weight d) =
        rw (add-zero k, add-zero (s + weight d)) refl in
      rw (add64-pos s (weight d) m, e, f) refl

  pub by_weight-All :
      {P : Db → Type 0} (k s : ℕ) (ds : List Db)
      → s ≤ k
      → k < s + weights ds
      → s + weights ds < 2 ^ 63
      → All P ds
      → (d : Db) × (by_weight weight (pos k) (pos s) ds ≡ some d) × P d
  by_weight-All k s [] l m n h = absurd (omega arith)
  by_weight-All k s (d ∷ ds) l m n h =
      rw (by_weight_step k s d ds l (omega arith)) (elim (Bool-cases (ltb k (s + weight d))) [
        | inl e ↦ rw e (d, refl, h.0)
        | inr e ↦
            rw e (by_weight-All k (s + weight d) ds (ground arith) (omega arith) (omega arith) h.1)
      ])
