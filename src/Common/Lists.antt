-- ===== src/Common/Lists.antt =====
-- Lists measured and indexed by native numbers, under the library's names.
use Prim.Native.Nat.{ℕ, zero, suc, ◌+◌, ◌-◌, ◌≤◌, ◌<◌}
use mathlib.Core.Path.{◌≡◌, refl, ap}
use mathlib.Core.Logic.{◌⊎◌}
use mathlib.Core.List.{List, [], ◌∷◌, ◌++◌}
use native.Mathlib.Nat.{zero-add, suc-add}
use native.Mathlib.Omega.{arith}

module _ {ℓ} {A : Type ℓ} where
  abbrev pub length : List A → ℕ
  length [] = 0
  length (x ∷ xs) = suc (length xs)

  abbrev pub get_or : List A → ℕ → A → A
  get_or [] i d = d
  get_or (x ∷ xs) zero d = x
  get_or (x ∷ xs) (suc i) d = get_or xs i d

  abbrev pub set : List A → ℕ → A → List A
  set [] i v = []
  set (x ∷ xs) zero v = v ∷ xs
  set (x ∷ xs) (suc i) v = x ∷ set xs i v

  abbrev pub take : ℕ → List A → List A
  take zero xs = []
  take (suc n) [] = []
  take (suc n) (x ∷ xs) = x ∷ take n xs

  abbrev pub drop : ℕ → List A → List A
  drop zero xs = xs
  drop (suc n) [] = []
  drop (suc n) (x ∷ xs) = drop n xs

  pub take-drop : (n : ℕ) (xs : List A) → take n xs ++ drop n xs ≡ xs
  take-drop zero xs = refl
  take-drop (suc n) [] = refl
  take-drop (suc n) (x ∷ xs) = ap (λ l. x ∷ l) (take-drop n xs)

  pub length-append : (xs ys : List A) → length (xs ++ ys) ≡ length xs + length ys
  length-append [] ys = omega arith
  length-append (x ∷ xs) ys = omega (arith, length-append xs ys)

  pub length-set : (xs : List A) (i : ℕ) (v : A) → length (set xs i v) ≡ length xs
  length-set [] i v = refl
  length-set (x ∷ xs) zero v = refl
  length-set (x ∷ xs) (suc i) v = ap suc (length-set xs i v)

  abbrev pub All {κ} : (A → Type κ) → List A → Type κ
  All P [] = Unit {κ}
  All P (x ∷ xs) = P x × All P xs

  -- `copy(xs[i:], vs)`: what does not fit behind position `i` is left out.
  abbrev pub overlay : List A → ℕ → List A → List A
  overlay [] i vs = []
  overlay (x ∷ xs) zero [] = x ∷ xs
  overlay (x ∷ xs) zero (v ∷ vs) = v ∷ overlay xs zero vs
  overlay (x ∷ xs) (suc i) vs = x ∷ overlay xs i vs

  -- `xs[lo:hi]`, for bounds that are in order.
  abbrev pub slice : List A → ℕ → ℕ → List A
  slice xs lo hi = take (hi - lo) (drop lo xs)

  pub length-overlay : (xs : List A) (i : ℕ) (vs : List A) → length (overlay xs i vs) ≡ length xs
  length-overlay [] i vs = refl
  length-overlay (x ∷ xs) zero [] = refl
  length-overlay (x ∷ xs) zero (v ∷ vs) = ap suc (length-overlay xs zero vs)
  length-overlay (x ∷ xs) (suc i) vs = ap suc (length-overlay xs i vs)

  pub get_or-overlay :
      (xs : List A) (i : ℕ) (vs : List A) (j : ℕ) (d : A)
      → i + length vs ≤ length xs
      → j < length vs
      → get_or (overlay xs i vs) (i + j) d ≡ get_or vs j d
  get_or-overlay xs i [] j d h l = absurd (omega arith)
  get_or-overlay [] i (v ∷ vs) j d h l = absurd (omega arith)
  get_or-overlay (x ∷ xs) zero (v ∷ vs) zero d h l = refl
  get_or-overlay (x ∷ xs) zero (v ∷ vs) (suc j) d h l =
      rw zero-add (rw zero-add at (get_or-overlay xs zero vs j d (omega arith) (omega arith)))
  get_or-overlay (x ∷ xs) (suc i) (v ∷ vs) j d h l =
      rw suc-add (get_or-overlay xs i (v ∷ vs) j d (omega arith) l)

  take-overlay-zero :
      (xs vs ws : List A)
      → length vs ≤ length xs
      → take (length vs) (overlay xs zero (vs ++ ws)) ≡ vs
  take-overlay-zero xs [] ws h = refl
  take-overlay-zero [] (v ∷ vs) ws h = absurd (omega arith)
  take-overlay-zero (x ∷ xs) (v ∷ vs) ws h = ap (◌∷◌ v) (take-overlay-zero xs vs ws (omega arith))

  pub drop-overlay :
      (xs : List A) (i : ℕ) (vs : List A) → drop i (overlay xs i vs) ≡ overlay (drop i xs) zero vs
  drop-overlay xs zero vs = refl
  drop-overlay [] (suc i) vs = refl
  drop-overlay (x ∷ xs) (suc i) vs = drop-overlay xs i vs

  pub length-drop : (n : ℕ) (xs : List A) → length (drop n xs) ≡ length xs - n
  length-drop zero xs = omega arith
  length-drop (suc n) [] = omega arith
  length-drop (suc n) (x ∷ xs) = omega (arith, length-drop n xs)

  pub slice-overlay :
      (xs : List A) (i : ℕ) (vs ws : List A)
      → i + length vs ≤ length xs
      → slice (overlay xs i (vs ++ ws)) i (i + length vs) ≡ vs
  slice-overlay xs i vs ws h =
      let e : i + length vs - i ≡ length vs = omega arith in
      rw (e, drop-overlay xs i (vs ++ ws))
        (take-overlay-zero (drop i xs) vs ws (omega (arith, length-drop i xs)))

  pub overlay-overlay :
      (xs : List A) (i : ℕ) (vs ws : List A)
      → overlay (overlay xs i vs) (i + length vs) ws ≡ overlay xs i (vs ++ ws)
  overlay-overlay [] i vs ws = refl
  overlay-overlay (x ∷ xs) zero [] ws = refl
  overlay-overlay (x ∷ xs) zero (v ∷ vs) ws =
      rw zero-add (ap (◌∷◌ v) (rw zero-add at (overlay-overlay xs zero vs ws)))
  overlay-overlay (x ∷ xs) (suc i) vs ws = rw suc-add (ap (◌∷◌ x) (overlay-overlay xs i vs ws))

module _ {ℓ} {A : Type ℓ} where
  pub All-map {κ μ} :
      {P : A → Type κ} {Q : A → Type μ} (xs : List A) → ((x : A) → P x → Q x) → All P xs → All Q xs
  All-map [] f h = tt
  All-map (x ∷ xs) f h = (f x h.0, All-map xs f h.1)

-- Membership, for the elements of a slice of the program.
abbrev pub Member : {A : Type 0} → A → List A → Type 0
Member x [] = ⊥
Member x (y ∷ ys) = (x ≡ y) ⊎ Member x ys
