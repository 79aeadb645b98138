-- ===== src/Merge/Cut.antt =====
-- The part of the rows that `LIMIT` asks for.
use dbpack.Common.{
  ℕ, zero, suc, ◌≤◌, ◌≡◌, ◌≢◌, refl, ap, List, [], ◌∷◌, ◌++◌, length, take, drop, arith,
}

-- `LIMIT offset, count`
abbrev pub window : {Row : Type 0} → ℕ → ℕ → List Row → List Row
window offset count rows = take count (drop offset rows)

module _ {Row : Type 0} where
  take_full :
      (count : ℕ) (xs ys : List Row)
      → length (take count xs) ≡ count
      → take count (xs ++ ys) ≡ take count xs
  take_full zero xs ys h = refl
  take_full (suc c) [] ys h = absurd (omega arith)
  take_full (suc c) (x ∷ xs) ys h = ap (λ l. x ∷ l) (take_full c xs ys (omega arith))

  -- A window that is full stays as it is.
  pub window_full :
      (offset count : ℕ) (xs ys : List Row)
      → length (window offset count xs) ≡ count
      → window offset count (xs ++ ys) ≡ window offset count xs
  window_full zero count xs ys h = take_full count xs ys h
  window_full (suc o) zero [] ys h = refl
  window_full (suc o) (suc c) [] ys h = absurd (omega arith)
  window_full (suc o) count (x ∷ xs) ys h = window_full o count xs ys h

  take_nil : (count : ℕ) → take {A = Row} count [] ≡ []
  take_nil zero = refl
  take_nil (suc c) = refl

  take_snoc :
      (count : ℕ) (xs : List Row) (r : Row)
      → length (take count xs) ≢ count
      → take count (xs ++ r ∷ []) ≡ take count xs ++ r ∷ []
  take_snoc zero xs r h = absurd (h refl)
  take_snoc (suc c) [] r h = ap (λ l. r ∷ l) (take_nil c)
  take_snoc (suc c) (x ∷ xs) r h = ap (λ l. x ∷ l) (take_snoc c xs r (λ e. h (omega (arith, e))))

  -- A row behind the offset comes into a window that is not full.
  pub window_snoc :
      (offset count : ℕ) (xs : List Row) (r : Row)
      → offset ≤ length xs
      → length (window offset count xs) ≢ count
      → window offset count (xs ++ r ∷ []) ≡ window offset count xs ++ r ∷ []
  window_snoc zero count xs r l h = take_snoc count xs r h
  window_snoc (suc o) count [] r l h = absurd (omega arith)
  window_snoc (suc o) count (x ∷ xs) r l h = window_snoc o count xs r (omega arith) h

  drop_short : (offset : ℕ) (xs : List Row) → length xs ≤ offset → drop offset xs ≡ []
  drop_short zero [] l = refl
  drop_short zero (x ∷ xs) l = absurd (omega arith)
  drop_short (suc o) [] l = refl
  drop_short (suc o) (x ∷ xs) l = drop_short o xs (omega arith)

  pub window_short :
      (offset count : ℕ) (xs : List Row) → length xs ≤ offset → window offset count xs ≡ []
  window_short offset count xs l = rw (drop_short offset xs l) (take_nil count)
