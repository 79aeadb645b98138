-- ===== src/Wire/Stores.antt =====
-- Lemmas on what the encoding functions store.
use dbpack.Common.{
  ℕ, zero, suc, ◌+◌, ◌≤◌, ◌<◌, ◌≡◌, refl, sym, ◌∙◌, ap, List, [], ◌∷◌, none, some, length, set,
  overlay, arith, length-set, length-overlay, overlay-overlay, lt→ltb,
}
use dbpack.Wire.Write.{store_all, emit, len_enc_int_bytes, len_enc_int_size}

set-overlay :
    (bytes : List ℕ) (pos v : ℕ) → pos < length bytes → set bytes pos v ≡ overlay bytes pos (v ∷ [])
set-overlay [] pos v h = absurd (omega arith)
set-overlay (x ∷ xs) zero v h = ap (◌∷◌ v) (overlay_nil xs)
  where
    overlay_nil : (ys : List ℕ) → ys ≡ overlay ys zero []
    overlay_nil [] = refl
    overlay_nil (y ∷ ys) = refl
set-overlay (x ∷ xs) (suc pos) v h = ap (◌∷◌ x) (set-overlay xs pos v (omega arith))

overlay-nil : (xs : List ℕ) (i : ℕ) → overlay xs i [] ≡ xs
overlay-nil [] i = refl
overlay-nil (x ∷ xs) zero = refl
overlay-nil (x ∷ xs) (suc i) = ap (◌∷◌ x) (overlay-nil xs i)

-- Stores that fit put the values in their places.
pub store_all-overlay :
    (bytes : List ℕ) (pos : ℕ) (vs : List ℕ)
    → pos + length vs ≤ length bytes
    → store_all bytes pos vs ≡ some (overlay bytes pos vs)
unfolding store_all
store_all-overlay bytes pos [] h = ap some (sym (overlay-nil bytes pos))
store_all-overlay bytes pos (v ∷ vs) h =
    rw (lt→ltb pos (length bytes) (omega arith), set-overlay bytes pos v (omega arith))
      (store_all-overlay (overlay bytes pos (v ∷ [])) (pos + 1) vs
          (omega (arith, length-overlay bytes pos (v ∷ [])))
        ∙ ap some (overlay-overlay bytes pos (v ∷ []) vs))

-- A run of stores that goes past the end panics.
pub store_all-none :
    (bytes : List ℕ) (pos v : ℕ) (vs : List ℕ)
    → length bytes < pos + length (v ∷ vs)
    → store_all bytes pos (v ∷ vs) ≡ none
unfolding store_all
store_all-none bytes pos v [] h = ground arith
store_all-none bytes pos v (w ∷ vs) h =
    ground (arith, length-set bytes pos v, store_all-none (set bytes pos v) (pos + 1) w vs)

pub emit-overlay :
    (bytes : List ℕ) (pos : ℕ) (vs : List ℕ)
    → pos + length vs ≤ length bytes
    → emit bytes pos vs ≡ some (overlay bytes pos vs, pos + length vs)
unfolding emit
emit-overlay bytes pos vs h = rw (store_all-overlay bytes pos vs h)

pub emit-none :
    (bytes : List ℕ) (pos : ℕ) (vs : List ℕ)
    → 0 < length vs
    → length bytes < pos + length vs
    → emit bytes pos vs ≡ none
unfolding emit
emit-none bytes pos [] n h = absurd (omega arith)
emit-none bytes pos (v ∷ vs) n h = rw (store_all-none bytes pos v vs h)

pub len_enc_int_size-pos : (i : ℕ) → 0 < len_enc_int_size i
unfolding len_enc_int_size
len_enc_int_size-pos i = ground arith

pub length-len_enc_int_bytes : (i : ℕ) → length (len_enc_int_bytes i) ≡ len_enc_int_size i
unfolding len_enc_int_bytes len_enc_int_size
length-len_enc_int_bytes i = ground arith
